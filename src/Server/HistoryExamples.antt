-- ===== src/Server/HistoryExamples.antt =====
-- Tests of the chat history and of malformed messages.
use tavernmx.Common.{◌≡◌, refl, true, false, List, [], ◌∷◌, arith, take}
use tavernmx.Common.Maps.{lookup}
use tavernmx.Common.Int.{pos}
use tavernmx.Common.Text.{Text, lit, text_eq}
use tavernmx.Common.Result.{ok}
use tavernmx.Json.Sample.{sample_json}
use tavernmx.Messaging.{Msg, room_join, create_room_create}
use tavernmx.Queue
use tavernmx.RingBuffer.Refine.{last_n}
use tavernmx.Rooms.{no_rooms}
use tavernmx.Server.{RoomEvent, ClientConnection, server_room}
use tavernmx.Server.History.{RoomHistory, events_of, get_room_history}
use tavernmx.Server.Worker.{Worker}
use tavernmx.Server.Round.{round}
use tavernmx.Server.Malformed.{Throws, malformed-Throws}
use tavernmx.Server.Remembered.{Change, says, forgets, change_history, said_in, history_remembers}
use tavernmx.Server.Reply.{Replies, get_room_history_lem}

abbrev den : Text
den = lit "den"

abbrev said : Text → RoomEvent
said text = record { timestamp = pos 7; origin_user_name = lit "ann"; event_text = text }

abbrev changes : List Change
changes =
    says den (said (lit "old"))
    ∷ forgets den
    ∷ says den (said (lit "a"))
    ∷ says den (said (lit "b"))
    ∷ []

abbrev kept : List RoomEvent
kept = said (lit "a") ∷ said (lit "b") ∷ []

abbrev history : RoomHistory
history = change_history [] changes

history_remembers_example : events_of (lookup den history) ≡ ok kept
unfolding said_in last_n text_eq
history_remembers_example = history_remembers den changes

get_room_history_lem_example :
    (m : Msg sample_json) × (get_room_history sample_json false history den 1 ≡ ok m)
    × Replies sample_json den (take 1 kept) m
get_room_history_lem_example =
    get_room_history_lem sample_json false history den 1 kept history_remembers_example
      (omega arith) (omega arith)

-- A room name that is a number.
abbrev malformed : Msg sample_json
malformed = record {
  message_type = room_join;
  values = sample_json.object_of ((lit "room_name", sample_json.of_int (pos 5)) ∷ []);
}

abbrev good : Msg sample_json
good = create_room_create sample_json den

abbrev client : ClientConnection sample_json.Value
client = record {
  id = 1;
  connected_user_name = lit "ann";
  messages_in = record { items = good ∷ malformed ∷ [] };
  messages_out = Queue.new;
}

abbrev start : Worker sample_json.Value
start = record {
  rooms = no_rooms;
  room_history = [];
  clients = client ∷ [];
  new_rooms = [];
  destroyed_rooms = [];
}

malformed-Throws_example : Throws (round sample_json false (λ client i. pos 5) (λ id. true) start)
unfolding lookup text_eq
malformed-Throws_example =
    malformed-Throws sample_json false (λ client i. pos 5) (λ id. true) start [] client []
      (good ∷ []) malformed [] refl refl tt tt
