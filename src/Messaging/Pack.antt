-- ===== src/Messaging/Pack.antt =====
-- src/shared/messaging.cpp: messages packed into a block as a MessagePack array, and unpacked.
use tavernmx.Common.{Option, none, some, List, [], ◌∷◌, ltb, if◌then◌else◌}
use tavernmx.Common.Text.{lit}
use tavernmx.Common.Result.{Result, ok, err, parse_error, ◌>>=◌}
use tavernmx.Json.{Json, at, or_type_error}
use tavernmx.Messaging.{type_value, type_of, Msg}
use tavernmx.Messaging.Block.{MessageBlock, empty_block, set_payload}

abbrev pub or_parse_error {ℓ} : {A : Type ℓ} → Option A → Result A
or_parse_error none = err parse_error
or_parse_error (some a) = ok a

module _ (json : Json) where
  open json use {Value, object_of, of_int, set_field, push_back, array}

  unfoldable pub message_to_json : Msg json → Result Value
  message_to_json m = do
    v ←
        or_type_error
          (set_field (object_of []) (lit "message_type") (of_int (type_value m.message_type)))
    or_type_error (set_field v (lit "values") m.values)

  -- The loop that pushes the JSON of each message into the array.
  unfoldable pub push_messages : Value → List (Msg json) → Result Value
  unfolding message_to_json
  push_messages group [] = ok group
  push_messages group (m ∷ ms) = do
    v ← message_to_json m
    group' ← or_type_error (push_back group v)
    push_messages group' ms

  -- The template `pack_messages(begin, end)`.
  unfoldable pub pack_messages : List (Msg json) → Result MessageBlock
  unfolding push_messages
  pack_messages ms = do
    group ← push_messages array ms
    ok (set_payload empty_block (json.to_msgpack group))

  -- `pack_messages(const std::vector<Message>&)`: no block for no message, one block otherwise.
  unfoldable pub pack_message_list : List (Msg json) → Result (List MessageBlock)
  unfolding pack_messages
  pack_message_list [] = ok []
  pack_message_list (m ∷ ms) = do block ← pack_messages (m ∷ ms); ok (block ∷ [])

  unfoldable pub pack_message : Msg json → Result MessageBlock
  unfolding push_messages
  pack_message m = do
    group ← push_messages array (m ∷ [])
    ok (set_payload empty_block (json.to_msgpack group))

  -- One round of the loop of `unpack_messages`.
  unfoldable pub json_to_message : Value → Result (Msg json)
  json_to_message v = do
    t ← at json v (lit "message_type")
    n ← or_type_error (json.get_int t)
    values ← at json v (lit "values")
    ok (record { message_type = type_of n; values = values })

  unfoldable pub json_to_messages : List Value → Result (List (Msg json))
  unfolding json_to_message
  json_to_messages [] = ok []
  json_to_messages (v ∷ vs) = do m ← json_to_message v; ms ← json_to_messages vs; ok (m ∷ ms)

  unfoldable pub unpack_messages : MessageBlock → Result (List (Msg json))
  unfolding json_to_messages
  unpack_messages block = if ltb block.payload_size 1 then ok [] else do
    group ← or_parse_error (json.from_msgpack block.payload)
    if json.is_array group then json_to_messages (json.elements group) else ok []
