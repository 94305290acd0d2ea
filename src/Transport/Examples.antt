-- ===== src/Transport/Examples.antt =====
-- Tests of the transport and of connecting.
use tavernmx.Common.{ℕ, ◌≡◌, refl, arith, true, false, some, List, [], ◌∷◌, map, append-nil}
use tavernmx.Common.Int.{to_int32}
use tavernmx.Common.Text.{lit, text_eq}
use tavernmx.Common.Result.{Result, ok, err}
use tavernmx.Json.{lookup}
use tavernmx.Json.Sample.{sample_json}
use tavernmx.Messaging.{Msg, type_of, create_ack, create_room_join}
use tavernmx.Messaging.Block.{MessageBlock, empty_block, pack_block, set_payload}
use tavernmx.Messaging.Pack.{
  pack_message, pack_messages, push_messages, message_to_json, unpack_messages, json_to_messages,
  json_to_message,
}
use tavernmx.Ssl
use tavernmx.Ssl.{Read, Write, VerifyResult, write_loop}
use tavernmx.Ssl.Receive.{gives}
use tavernmx.Connection.{first_accepted, wait_loop, wait_for_ack_or_nak}
use tavernmx.Connection.Handshake.{conclude}
use tavernmx.Transport.{
  BaseConnection, Answers, Outcome, returned, threw, blocked, is_connected, send_message_block,
  send_messages, send_message, receive_message,
}
use tavernmx.Transport.Delivery.{send-receive}
use tavernmx.Transport.Connect.{Circumstances, handshake_loop, connect, connection_thread}
use tavernmx.Transport.Accepted.{IsAccepted, connection_thread_iff}

abbrev up : Answers
up = record { has_ssl = true; shut_down = false }

abbrev open_connection : BaseConnection
open_connection = record { has_bio = true }

abbrev writes : List Write
writes =
    record { negative = true; writes_nothing = false; should_retry = true }
    ∷ record { negative = false; writes_nothing = false; should_retry = false }
    ∷ []

abbrev bytes_of : Outcome (List ℕ) → List ℕ
bytes_of (returned bytes) = bytes
bytes_of (threw e) = []
bytes_of blocked = []

abbrev messages : List (Msg sample_json)
messages = create_room_join sample_json (lit "den") ∷ []

abbrev sent_bytes : List ℕ
sent_bytes =
    bytes_of
      (send_messages sample_json open_connection up writes (create_ack sample_json ∷ messages))

send-receive_example :
    (block : MessageBlock) × (receive_message open_connection up (gives sent_bytes) (map gives [])
      ≡ returned (some block))
    × (unpack_messages sample_json block ≡ ok (create_ack sample_json ∷ messages))
unfolding send_messages send_message_block Ssl.send_message write_loop pack_block is_connected
    pack_messages push_messages message_to_json set_payload type_of to_int32 text_eq
send-receive_example =
    send-receive sample_json open_connection open_connection up up writes (create_ack sample_json)
      messages sent_bytes sent_bytes [] ((refl, refl), ((refl, refl), tt)) refl (omega arith) refl
      (omega arith) (append-nil sent_bytes)

abbrev broken_pipe : List Write
broken_pipe = record { negative = true; writes_nothing = false; should_retry = false } ∷ []

abbrev block : MessageBlock
block = record { payload_size = 1; payload = 7 ∷ [] }

abbrev block_of : Result MessageBlock → MessageBlock
block_of (ok b) = b
block_of (err e) = empty_block

abbrev circumstances : Circumstances
circumstances = record {
  connecting = record {
    before = up;
    connected = true;
    has_ssl = true;
    handshakes =
        record { done = false; should_retry = true }
        ∷ record { done = true; should_retry = false }
        ∷ [];
    verified = VerifyResult.verify_ok;
    has_certificate = true;
    host_matches = true;
  };
  sending = up;
  writes = writes;
  polls =
      record {
        block = ok (some (block_of (pack_message sample_json (create_ack sample_json))));
        elapsed = 3;
      }
      ∷ [];
}

connection_thread_iff_example : IsAccepted sample_json 100 circumstances
unfolding connection_thread handshake_loop Ssl.verify_certificate send_message send_message_block
    Ssl.send_message write_loop is_connected pack_message push_messages message_to_json set_payload
    type_of lookup text_eq wait_for_ack_or_nak wait_loop first_accepted unpack_messages
    json_to_messages json_to_message connect conclude
connection_thread_iff_example =
    (connection_thread_iff sample_json 100 (lit "ann") circumstances).0 (refl, refl)
