-- ===== src/Chat/Examples.antt =====
-- Test of the way of a line: ann says "hi" in the room den, and bob reads it.
use tavernmx.Common.{ℕ, refl, Bool, true, false, [], ◌∷◌, arith}
use tavernmx.Common.Int.{ℤ, pos, to_int32}
use tavernmx.Common.Text.{Text, lit, text_eq}
use tavernmx.Common.Maps.{lookup}
use tavernmx.Common.Result.{Result, ok, err}
use tavernmx.Json.Sample.{sample_json}
use tavernmx.Messaging.{create_chat_send, create_chat_echo}
use tavernmx.Messaging.Block.{MessageBlock, empty_block, set_payload}
use tavernmx.Messaging.Pack.{pack_message, push_messages, message_to_json}
use tavernmx.Queue
use tavernmx.Rooms.{get, find_room, is_valid_room_name}
use tavernmx.Server.{new_server_room, ClientConnection, ServerRoom, server_room}
use tavernmx.Server.Worker.{Worker}
use tavernmx.Server.Sound.{IsSound}
use tavernmx.Server.Delivery.{outbox}
use tavernmx.RingBuffer.Refine.{new-Holds}
use tavernmx.Client.{new_chat_screen, chat_room_history_size}
use tavernmx.Client.Update.{Client}
use tavernmx.Client.Session.{new_client}
use tavernmx.Chat.{IsSeen, chat-IsSeen}

abbrev den : Text
den = lit "den"

abbrev hi : Text
hi = lit "hi"

abbrev ann : Client sample_json.Value
ann = record (new_client sample_json) {
  screen = record new_chat_screen {
    current_room_name = den;
    chat_input = hi;
    room_names = den ∷ [];
  };
}

abbrev connection : ℕ → Text → ClientConnection sample_json.Value
connection id user = record {
  id = id;
  connected_user_name = user;
  messages_in = Queue.new;
  messages_out = Queue.new;
}

abbrev den_room : ServerRoom
den_room = record (new_server_room den) { joined_clients = 1 ∷ 2 ∷ [] }

abbrev server : Worker sample_json.Value
server = record {
  rooms = record { active_rooms = den_room ∷ []; room_names = den ∷ [] };
  room_history = [];
  clients = connection 1 (lit "ann") ∷ connection 2 (lit "bob") ∷ [];
  new_rooms = [];
  destroyed_rooms = [];
}

server-IsSound : IsSound server
unfolding is_valid_room_name
server-IsSound = record {
  rooms_valid = record { mirror = refl; distinct = (tt, tt); valid = (refl, tt) };
  joined_once = ((((λ e. absurd (omega arith)), tt), (tt, tt)), tt);
  histories = tt;
}

abbrev everyone : ℕ → Bool
everyone id = true

abbrev time_text : ℤ → Text
time_text t = []

abbrev block_of : Result MessageBlock → MessageBlock
block_of (ok b) = b
block_of (err e) = empty_block

abbrev up : MessageBlock
up = block_of (pack_message sample_json (create_chat_send sample_json den hi))

abbrev down : MessageBlock
down = block_of (pack_message sample_json (create_chat_echo sample_json den hi (lit "ann") (pos 5)))

chat-IsSeen_example :
    IsSeen sample_json false time_text
      (pos 5)
      everyone
      hi
      (lit "ann")
      ann
      (new_client sample_json)
      1
      2
      server
      []
      up
      down
      []
      (lit "attic")
unfolding pack_message push_messages message_to_json set_payload text_eq lookup get find_room outbox
    to_int32
chat-IsSeen_example =
    chat-IsSeen sample_json false time_text (pos 5) everyone hi (lit "ann") ann
      (new_client sample_json) 1 2 server den_room [] up down [] (lit "attic") refl refl refl refl
      server-IsSound refl refl refl refl (omega arith) refl (omega arith)
      (new-Holds chat_room_history_size (omega arith) (omega arith)) (λ e. cc)
