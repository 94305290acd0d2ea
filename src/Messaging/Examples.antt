-- ===== src/Messaging/Examples.antt =====
-- Tests of messages and blocks.
use tavernmx.Common.{◌≡◌, refl, List, [], ◌∷◌, arith, All}
use tavernmx.Common.Int.{to_int32}
use tavernmx.Common.Text.{lit, text_eq}
use tavernmx.Common.Result.{Result, ok, err}
use tavernmx.Json.Sample.{sample_json}
use tavernmx.Messaging.{Msg, create_room_join, create_chat_send, create_ack, type_of}
use tavernmx.Messaging.Block.{MessageBlock, empty_block, set_payload}
use tavernmx.Messaging.Pack.{pack_messages, push_messages, message_to_json, unpack_messages}
use tavernmx.Messaging.RoundTrip.{IsRead, unpack-pack}

abbrev messages : List (Msg sample_json)
messages =
    create_ack sample_json
    ∷ create_room_join sample_json (lit "den")
    ∷ create_chat_send sample_json (lit "den") (lit "hi")
    ∷ []

abbrev block_of : Result MessageBlock → MessageBlock
block_of (ok b) = b
block_of (err e) = empty_block

abbrev block : MessageBlock
block = block_of (pack_messages sample_json messages)

messages-IsRead : All (λ m. IsRead m.message_type) messages
unfolding type_of to_int32
messages-IsRead = ((refl, refl), ((refl, refl), ((refl, refl), tt)))

unpack-pack_example : unpack_messages sample_json block ≡ ok messages
unfolding pack_messages push_messages message_to_json set_payload text_eq
unpack-pack_example = unpack-pack sample_json messages block messages-IsRead refl (omega arith)
