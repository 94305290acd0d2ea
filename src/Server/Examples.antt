-- ===== src/Server/Examples.antt =====
-- Tests of the server worker: two clients, of whom the second joins a room that the first makes.
use tavernmx.Common.{ℕ, ◌≡◌, refl, Bool, true, false, List, [], ◌∷◌, ◌++◌, arith, map}
use tavernmx.Common.Int.{pos}
use tavernmx.Common.Text.{Text, lit, text_eq}
use tavernmx.Common.Result.{Result, ok, err}
use tavernmx.Json.{lookup}
use tavernmx.Json.Sample.{sample_json}
use tavernmx.Messaging.{Msg, create_room_create, create_room_join, create_room_destroy}
use tavernmx.Queue
use tavernmx.Rooms.{
  no_rooms, create_room, get, find_room, update_room, change_room, is_valid_room_name,
  remove_destroyed_rooms, kept_rooms,
}
use tavernmx.Rooms.Manager.{no_rooms-IsValid}
use tavernmx.Server.{
  new_server_room, ClientConnection, ServerRoom, server_room, keep_alive, clean_expired_clients,
  join,
}
use tavernmx.Server.Worker.{Worker, on_room_create, on_room_join, handle}
use tavernmx.Server.Round.{
  Input, run_rounds, create_initial_rooms, started, announce, push_joined, serve, gather, notify,
  distribute, distribute_events, erase_all, clean_up, round,
}
use tavernmx.Server.Sound.{IsSound}
use tavernmx.Server.Settled.{worker-IsSound}
use tavernmx.Server.Total.{round_total}
use tavernmx.Server.Delivery.{outbox, and_then, echoes, round-outbox}

abbrev den : Text
den = lit "den"

abbrev client : ℕ → Text → List (Msg sample_json) → ClientConnection sample_json.Value
client id user ms = record {
  id = id;
  connected_user_name = user;
  messages_in = record { items = ms };
  messages_out = Queue.new;
}

abbrev start : Worker sample_json.Value
start = record {
  rooms = no_rooms;
  room_history = [];
  clients =
      client 1 (lit "ann") (create_room_create sample_json den ∷ [])
      ∷ client 2 (lit "bob")
          (create_room_join sample_json den ∷ create_room_join sample_json den ∷ [])
      ∷ [];
  new_rooms = [];
  destroyed_rooms = [];
}

start-IsSound : IsSound start
start-IsSound = record { rooms_valid = no_rooms-IsValid; joined_once = tt; histories = tt }

abbrev everyone : ℕ → Bool
everyone id = true

abbrev worker_of : Result (Worker sample_json.Value) → Worker sample_json.Value
worker_of (ok w) = w
worker_of (err e) = start

abbrev next : Worker sample_json.Value
next = worker_of (round sample_json false (λ client i. pos 5) everyone start)

ran : round sample_json false (λ client i. pos 5) everyone start ≡ ok next
unfolding round gather serve handle on_room_create on_room_join notify announce distribute_events
    distribute clean_up erase_all lookup text_eq create_room is_valid_room_name get find_room
    update_room change_room join remove_destroyed_rooms kept_rooms keep_alive clean_expired_clients
    push_joined
ran = refl

-- A room with one event, in which both clients are.
abbrev full_den : ServerRoom
full_den = record (new_server_room den) {
  events = record {
    items = record { timestamp = pos 4; origin_user_name = lit "ann"; event_text = lit "hi" } ∷ [];
  };
  joined_clients = 1 ∷ 2 ∷ [];
}

abbrev busy : Worker sample_json.Value
busy = record start {
  rooms = record { active_rooms = full_den ∷ []; room_names = den ∷ [] };
  new_rooms = den ∷ [];
}

busy-IsSound : IsSound busy
unfolding is_valid_room_name
busy-IsSound = record {
  rooms_valid = record { mirror = refl; distinct = (tt, tt); valid = (refl, tt) };
  joined_once = ((((λ e. absurd (omega arith)), tt), (tt, tt)), tt);
  histories = tt;
}

round-outbox_example :
    outbox 2
      (clean_up sample_json
        (distribute_events sample_json everyone (notify sample_json busy))).clients
    ≡ and_then
        (map (create_room_create sample_json) (den ∷ [])
          ++ (map (create_room_destroy sample_json) []
              ++ echoes sample_json 2 everyone (full_den ∷ [])))
        (outbox 2 busy.clients)
round-outbox_example = round-outbox sample_json 2 everyone busy busy-IsSound

abbrev inputs : List (Input sample_json)
inputs = record { now = λ client i. pos 5; alive = everyone; connections = start.clients } ∷ []

abbrev last : Worker sample_json.Value
last = worker_of (run_rounds sample_json false inputs (started (lit "lobby" ∷ lit "lobby" ∷ [])))

ran_on : run_rounds sample_json false inputs (started (lit "lobby" ∷ lit "lobby" ∷ [])) ≡ ok last
unfolding run_rounds create_initial_rooms round gather serve handle on_room_create on_room_join
    notify announce distribute_events distribute clean_up erase_all lookup text_eq create_room
    is_valid_room_name get find_room update_room change_room join remove_destroyed_rooms kept_rooms
    keep_alive clean_expired_clients push_joined
ran_on = refl

worker-IsSound_example : IsSound last
worker-IsSound_example =
    worker-IsSound sample_json false (lit "lobby" ∷ lit "lobby" ∷ []) inputs last ran_on

round_total_example :
    (w : Worker sample_json.Value) × (round sample_json true (λ client i. pos 5) everyone start
      ≡ ok w)
unfolding lookup text_eq
round_total_example =
    round_total sample_json (λ client i. pos 5) everyone start start-IsSound
      (
        (record { named = tt; counted = tt; worded = tt }, tt),
        (
          (
            record { named = tt; counted = tt; worded = tt },
            (record { named = tt; counted = tt; worded = tt }, tt),
          ),
          tt,
        ),
      )
