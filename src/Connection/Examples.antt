-- ===== src/Connection/Examples.antt =====
-- Tests of waiting, routing and heartbeats.
use tavernmx.Common.{ℕ, ◌≡◌, refl, Bool, true, false, none, some, List, [], ◌∷◌, arith}
use tavernmx.Common.Text.{lit, text_eq}
use tavernmx.Common.Maps.{lookup}
use tavernmx.Common.Result.{Result, ok, err}
use tavernmx.Json.Sample.{sample_json}
use tavernmx.Messaging.{
  Msg, MessageType, same_type, hello, type_of, create_ack, create_nak, create_hello,
  create_heartbeat, create_room_join,
}
use tavernmx.Messaging.Block.{MessageBlock, empty_block, set_payload}
use tavernmx.Messaging.Pack.{
  pack_message, push_messages, message_to_json, unpack_messages, json_to_messages, json_to_message,
}
use tavernmx.Connection.{Poll, found, first_accepted, wait_loop, wait_for, wait_for_ack_or_nak}
use tavernmx.Connection.Handshake.{greeted, greet, accepted, denied, conclude, handshake}

abbrev hello_ann : Msg sample_json
hello_ann = create_hello sample_json (lit "ann")

abbrev block_of : Result MessageBlock → MessageBlock
block_of (ok b) = b
block_of (err e) = empty_block

abbrev polls : List Poll
polls =
    record { block = ok none; elapsed = 5 }
    ∷ record { block = ok (some (block_of (pack_message sample_json hello_ann))); elapsed = 9 }
    ∷ []

abbrev is_hello : MessageType → Bool
is_hello t = same_type t hello

heard : wait_loop sample_json is_hello 100 polls ≡ found hello_ann
unfolding wait_loop first_accepted pack_message push_messages message_to_json set_payload
    unpack_messages json_to_messages json_to_message type_of lookup text_eq
heard = refl

abbrev silent : Poll
silent = record { block = ok none; elapsed = 120 }

abbrev read : List (Msg sample_json)
read =
    create_heartbeat sample_json
    ∷ create_room_join sample_json (lit "den")
    ∷ create_ack sample_json
    ∷ []

abbrev rounds : List (ℕ × Bool)
rounds = (3, true) ∷ (20, false) ∷ (40, false) ∷ []

abbrev poll_of : Msg sample_json → Poll
poll_of m = record { block = ok (some (block_of (pack_message sample_json m))); elapsed = 5 }

handshake_example :
    (greet sample_json (wait_for sample_json hello 100 (poll_of hello_ann ∷ []))
      ≡ greeted (lit "ann") (create_ack sample_json))
    × (conclude sample_json
          (wait_for_ack_or_nak sample_json 100 (poll_of (create_ack sample_json) ∷ []))
        ≡ accepted)
    × (conclude sample_json
          (wait_for_ack_or_nak sample_json 100 (poll_of (create_nak sample_json (lit "no")) ∷ []))
        ≡ denied (lit "no"))
unfolding pack_message push_messages message_to_json set_payload text_eq lookup
handshake_example =
    handshake sample_json (lit "ann") (lit "no") 100 5 []
      (block_of (pack_message sample_json hello_ann))
      (block_of (pack_message sample_json (create_ack sample_json)))
      (block_of (pack_message sample_json (create_nak sample_json (lit "no")))) refl (omega arith)
      refl (omega arith) refl (omega arith)
