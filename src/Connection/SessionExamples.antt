-- ===== src/Connection/SessionExamples.antt =====
-- Tests of whole sessions: a HELLO, a round with a heartbeat and a message, and the end.
use tavernmx.Common.{ℕ, ◌≡◌, refl, true, false, none, some, List, [], ◌∷◌, ◌++◌}
use tavernmx.Common.Text.{lit, text_eq}
use tavernmx.Common.Maps.{lookup}
use tavernmx.Common.Result.{Result, ok, err}
use tavernmx.Json.Sample.{sample_json}
use tavernmx.Messaging.{
  Msg, type_of, create_ack, create_hello, create_heartbeat, create_room_join, request_room_list,
}
use tavernmx.Messaging.Block.{MessageBlock, empty_block, set_payload}
use tavernmx.Messaging.Pack.{
  pack_messages, push_messages, message_to_json, unpack_messages, json_to_messages, json_to_message,
}
use tavernmx.Queue
use tavernmx.Connection.{Poll, first_accepted, wait_for, wait_loop}
use tavernmx.Connection.Loops.{
  Round, LinkRound, disconnected, shut_down, client_worker, server_message_worker, new_link,
}
use tavernmx.Connection.Session.{
  IsGood, sent_in, queued_in, rounds_of, last_heard, client_worker_lem, server_message_worker_lem,
}
use tavernmx.Connection.Patience.{IsPatient, server_message_worker-IsPatient}

abbrev M : Type 0
M = Msg sample_json

abbrev block_of : Result MessageBlock → MessageBlock
block_of (ok b) = b
block_of (err e) = empty_block

abbrev join_den : M
join_den = create_room_join sample_json (lit "den")

abbrev read : List M
read = create_heartbeat sample_json ∷ join_den ∷ []

abbrev block : MessageBlock
block = block_of (pack_messages sample_json read)

abbrev hello_ann : M
hello_ann = create_hello sample_json (lit "ann")

abbrev polls : List Poll
polls =
    record {
      block = ok (some (block_of (pack_messages sample_json (hello_ann ∷ []))));
      elapsed = 5;
    }
    ∷ []

abbrev round : Round sample_json.Value
round = record {
  connected = true;
  block = ok (some block);
  arrived = request_room_list sample_json ∷ [];
  sends = true;
}

abbrev down : Round sample_json.Value
down = record round { connected = false }

round-IsGood : IsGood sample_json round read
unfolding pack_messages push_messages message_to_json set_payload unpack_messages json_to_messages
    json_to_message type_of lookup text_eq
round-IsGood = record { up = refl; block = some block; received = refl; read = refl; sent = refl }

client_worker_lem_example :
    client_worker sample_json true 100 polls true ((round ∷ []) ++ down ∷ []) ≡ (
      lit "ann",
      disconnected,
      record {
        messages_in = record { items = queued_in sample_json (read ∷ []) };
        messages_out = Queue.new;
        written = create_ack sample_json ∷ sent_in sample_json (round ∷ []) (read ∷ []);
      },
    )
unfolding wait_for wait_loop first_accepted pack_messages push_messages message_to_json set_payload
    unpack_messages json_to_messages json_to_message type_of lookup text_eq
client_worker_lem_example =
    client_worker_lem sample_json 100 polls hello_ann (lit "ann") (round ∷ []) (read ∷ []) down []
      refl refl (round-IsGood, tt) refl

abbrev link_round : LinkRound sample_json.Value
link_round = record { round = round; shutdown_requested = false; now = 7 }

abbrev asked : LinkRound sample_json.Value
asked = record link_round { shutdown_requested = true }

server_message_worker_lem_example :
    server_message_worker sample_json true 15 0 true ((link_round ∷ []) ++ asked ∷ []) ≡ (
      shut_down,
      record {
        messages_in = record { items = queued_in sample_json (read ∷ []) };
        messages_out = Queue.new;
        written =
            request_room_list sample_json
            ∷ sent_in sample_json (rounds_of sample_json (link_round ∷ [])) (read ∷ []);
      },
      last_heard sample_json (link_round ∷ []) (new_link 0),
    )
unfolding pack_messages push_messages message_to_json set_payload unpack_messages json_to_messages
    json_to_message type_of lookup text_eq
server_message_worker_lem_example =
    server_message_worker_lem sample_json 15 0 (link_round ∷ []) (read ∷ []) asked []
      (
        record {
          good = record {
            up = refl;
            block = some block;
            received = refl;
            read = refl;
            sent = refl;
          };
          block_read = refl;
          unasked = refl;
        },
        tt,
      )
      refl refl

-- Nothing is read for long.
abbrev quiet_round : ℕ → LinkRound sample_json.Value
quiet_round t = record {
  round = record round { block = ok none };
  shutdown_requested = false;
  now = t;
}

server_message_worker-IsPatient_example : IsPatient 15 (
    server_message_worker sample_json true 15 0 true
      (quiet_round 20 ∷ quiet_round 30 ∷ quiet_round 40 ∷ []))
server_message_worker-IsPatient_example =
    server_message_worker-IsPatient sample_json 15 true 0 true
      (quiet_round 20 ∷ quiet_round 30 ∷ quiet_round 40 ∷ [])
