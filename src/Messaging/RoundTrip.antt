-- ===== src/Messaging/RoundTrip.antt =====
-- Packed messages unpack to themselves.
use native.Mathlib.Nat.{mod-eq_of_lt}
use tavernmx.Common.{
  ◌%◌, ◌^◌, ◌<◌, ◌≡◌, ◌∙◌, refl, sym, ap, subst, ltb-false, true, some, List, [], ◌∷◌, ◌++◌, length,
  append_assoc, append-nil, All,
}
use tavernmx.Common.Int.{to_int32}
use tavernmx.Common.Text.{lit, text_eq}
use tavernmx.Common.Result.{ok}
use tavernmx.Json.{Json}
use tavernmx.Messaging.{MessageType, type_value, type_of, Msg}
use tavernmx.Messaging.Block.{MessageBlock, set_payload}
use tavernmx.Messaging.Pack.{
  message_to_json, push_messages, pack_messages, json_to_message, json_to_messages, unpack_messages,
}

-- The types that a message read from the network can have: values of an `int32_t`.
abbrev pub IsRead : MessageType → Type 0
IsRead t = (type_of (type_value t) ≡ t) × (to_int32 (type_value t) ≡ type_value t)

module _ (json : Json) where
  open json use {Value, is_object, is_array, field, elements}

  record Represents (v : Value) (m : Msg json) : Type 0 where
    object : is_object v ≡ true
    typed : field v (lit "message_type") ≡ some (json.of_int (type_value m.message_type))
    valued : field v (lit "values") ≡ some m.values

  AllRepresent : List Value → List (Msg json) → Type 0
  AllRepresent [] [] = Unit
  AllRepresent (v ∷ vs) (m ∷ ms) = Represents v m × AllRepresent vs ms
  AllRepresent _ _ = ⊥

  message_to_json-Represents :
      (m : Msg json) → (v : Value) × (message_to_json json m ≡ ok v) × Represents v m
  unfolding message_to_json text_eq
  message_to_json-Represents m =
      let (v, e, o, f) =
        json.set_field-object (json.object_of []) (lit "message_type")
          (json.of_int (type_value m.message_type)) (json.is_object-object_of []) in
      let (w, e', o', f') = json.set_field-object v (lit "values") m.values o in
      (
        w,
        rw (e, e'),
        record {
          object = o';
          typed = f' (lit "message_type") ∙ f (lit "message_type");
          valued = f' (lit "values");
        },
      )

  json_to_message-Represents :
      (v : Value) (m : Msg json)
      → Represents v m
      → IsRead m.message_type
      → json_to_message json v ≡ ok m
  unfolding json_to_message
  json_to_message-Represents v m r i =
      rw (r.object, r.typed, json.get_int-of_int (type_value m.message_type) i.1, r.valued, i.0)

  abbrev AllRead : List (Msg json) → Type 0
  AllRead = All (λ m. IsRead m.message_type)

  json_to_messages-Represents :
      (vs : List Value) (ms : List (Msg json))
      → AllRepresent vs ms
      → AllRead ms
      → json_to_messages json vs ≡ ok ms
  unfolding AllRepresent json_to_messages
  json_to_messages-Represents [] [] r i = refl
  json_to_messages-Represents [] (m ∷ ms) r i = absurd r
  json_to_messages-Represents (v ∷ vs) [] r i = absurd r
  json_to_messages-Represents (v ∷ vs) (m ∷ ms) r i =
      rw (json_to_message-Represents v m r.0 i.0, json_to_messages-Represents vs ms r.1 i.1)

  push_messages-AllRepresent :
      (group : Value) (ms : List (Msg json))
      → is_array group ≡ true
      → (g : Value) × (vs : List Value) × (push_messages json group ms ≡ ok g)
        × (is_array g ≡ true)
        × (elements g ≡ elements group ++ vs)
        × AllRepresent vs ms
  unfolding push_messages AllRepresent
  push_messages-AllRepresent group [] a =
      (group, [], refl, a, sym (append-nil (elements group)), tt)
  push_messages-AllRepresent group (m ∷ ms) a =
      let (v, e, r) = message_to_json-Represents m in
      let (group', e', a', l) = json.push_back-array group v a in
      let (g, vs, e'', a'', l', rs) = push_messages-AllRepresent group' ms a' in
      (
        g,
        v ∷ vs,
        rw (e, e', e''),
        a'',
        l' ∙ ap (λ q. q ++ vs) l ∙ append_assoc (elements group) (v ∷ []) vs,
        (r, rs),
      )

  unpack-group :
      (g : Value) (vs : List Value) (ms : List (Msg json))
      → is_array g ≡ true
      → elements g ≡ elements json.array ++ vs
      → AllRepresent vs ms
      → AllRead ms
      → length (json.to_msgpack g) < 2 ^ 32
      → unpack_messages json (record {
        payload_size = length (json.to_msgpack g) % 2 ^ 32;
        payload = json.to_msgpack g;
      })
        ≡ ok ms
  unfolding unpack_messages
  unpack-group g vs ms a l r i small =
      rw
        (
          mod-eq_of_lt {n = length (json.to_msgpack g)} {m = 2 ^ 32} small,
          ltb-false (length (json.to_msgpack g)) 1 (json.to_msgpack_pos g),
          json.from_msgpack-to_msgpack g,
          a,
          l,
          json.elements-array,
        )
        (json_to_messages-Represents vs ms r i)

  -- Packing never throws: any list of messages becomes one block, whose payload size is the length
  -- of its payload modulo 2^32.
  pub pack_messages_total :
      (ms : List (Msg json))
      → (block : MessageBlock) × (pack_messages json ms ≡ ok block)
        × (block.payload_size ≡ length block.payload % 2 ^ 32)
        × (0 < length block.payload)
  unfolding pack_messages set_payload
  pack_messages_total ms =
      let (g, vs, e, a, l, r) = push_messages-AllRepresent json.array ms json.is_array-array in
      (
        record { payload_size = length (json.to_msgpack g) % 2 ^ 32; payload = json.to_msgpack g },
        rw e,
        refl,
        json.to_msgpack_pos g,
      )

  -- Messages of types that can be read, packed into a block of less than 2^32 bytes, are unpacked
  -- from it as they were, in the same order.
  pub unpack-pack :
      (ms : List (Msg json)) (block : MessageBlock)
      → All (λ m. IsRead m.message_type) ms
      → pack_messages json ms ≡ ok block
      → length block.payload < 2 ^ 32
      → unpack_messages json block ≡ ok ms
  unfolding pack_messages set_payload
  unpack-pack ms block i packed small =
      let (g, vs, e, a, l, r) = push_messages-AllRepresent json.array ms json.is_array-array in
      let same : record {
        payload_size = length (json.to_msgpack g) % 2 ^ 32;
        payload = json.to_msgpack g;
      }
          ≡ block =
        cc (packed, e) in
      subst (λ b. unpack_messages json b ≡ ok ms) same
        (unpack-group g vs ms a l r i (subst (λ b. length b.payload < 2 ^ 32) (sym same) small))
