-- ===== src/Connection/Handshake.antt =====
-- The handshake: the start of `client_worker` (src/server/workers/client-worker.cpp), and what the
-- connecting thread of src/client/workers/connectscreen-worker.cpp makes of the answer.
use tavernmx.Common.{
  ℕ, ◌<◌, ◌^◌, ◌≡◌, ◌∙◌, refl, ap, Bool, true, false, Bool-cases, inl, inr, arith, some, List, [],
  ◌∷◌, length, if◌then◌else◌,
}
use tavernmx.Common.Int.{to_int32}
use tavernmx.Common.Text.{Text, lit, text_eq}
use tavernmx.Common.Maps.{lookup}
use tavernmx.Common.Result.{Result, ok, err, Error}
use tavernmx.Json.{Json}
use tavernmx.Messaging.{
  Message, Msg, MessageType, ack, nak, hello, same_type, type_of, text_value, create_ack,
  create_nak, create_hello,
}
use tavernmx.Messaging.Block.{MessageBlock}
use tavernmx.Messaging.Pack.{pack_message, pack_messages, unpack_messages}
use tavernmx.Messaging.RoundTrip.{IsRead, unpack-pack}
use tavernmx.Connection.{
  Poll, Waited, found, timed_out, polling, threw, first_accepted, wait_loop, wait_for,
  wait_for_ack_or_nak,
}

-- How the worker of a client begins: with a user name and a reply, or not at all.
pub data Greeting (V : Type 0) : Type 0 where
  greeted : Text → Message V → Greeting V
  no_hello still_waiting : Greeting V
  failed : Error → Greeting V

-- How an attempt to connect ends; an error text is shown to the user.
pub data Attempt : Type 0 where
  accepted not_acknowledged still_trying : Attempt
  denied : Text → Attempt
  broken : Error → Attempt

ack_not_nak : (t : MessageType) → same_type t ack ≡ true → same_type t nak ≡ false
ack_not_nak ack h = refl
ack_not_nak nak h = absurd (cc)
ack_not_nak t h = ground arith

module _ (json : Json) where
  open json use {Value}

  abbrev greet_as : Result Text → Greeting Value
  greet_as (ok user_name) = greeted user_name (create_ack json)
  greet_as (err e) = failed e

  -- What `client_worker` does with the outcome of `wait_for(HELLO)`.
  unfoldable pub greet : Waited Value → Greeting Value
  greet (found m) = greet_as (text_value json m (lit "user_name"))
  greet timed_out = no_hello
  greet polling = still_waiting
  greet (threw e) = failed e

  abbrev deny : Result Text → Attempt
  deny (ok error) = denied error
  deny (err e) = broken e

  -- What the connecting thread does with the outcome of `wait_for_ack_or_nak()`.
  unfoldable pub conclude : Waited Value → Attempt
  conclude (found m) =
      if same_type m.message_type nak
      then deny (text_value json m (lit "error"))
      else if same_type m.message_type ack
      then accepted
      else not_acknowledged
  conclude timed_out = not_acknowledged
  conclude polling = still_trying
  conclude (threw e) = broken e

  deny-accepted : (r : Result Text) → deny r ≡ accepted → ⊥
  deny-accepted (ok e) h = cc
  deny-accepted (err e) h = cc

  pub conclude_inv :
      (w : Waited Value)
      → conclude w ≡ accepted
      → (m : Msg json) × (w ≡ found m) × (same_type m.message_type ack ≡ true)
  unfolding conclude
  conclude_inv (found m) h = elim (Bool-cases (same_type m.message_type nak)) [
    | inl e ↦ absurd (deny-accepted _ (rw e at h))
    | inr e ↦ (m, refl, ground arith)
  ]
  conclude_inv timed_out h = absurd (cc)
  conclude_inv polling h = absurd (cc)
  conclude_inv (threw e) h = absurd (cc)

  pub conclude_ok :
      (m : Msg json) → same_type m.message_type ack ≡ true → conclude (found m) ≡ accepted
  unfolding conclude
  conclude_ok m h = rw (ack_not_nak m.message_type h, h)

  text_value-pair :
      (t : MessageType) (k v : Text)
      → text_eq k k ≡ true
      → text_value json
          (record { message_type = t; values = json.object_of ((k, json.of_text v) ∷ []) })
          k
        ≡ ok v
  unfolding lookup
  text_value-pair t k v same =
      let (primitive, not_null) = json.primitive-of_text v in
      rw (
        json.is_object-object_of ((k, json.of_text v) ∷ []),
        json.field-object_of ((k, json.of_text v) ∷ []) k,
        same,
        primitive,
        not_null,
        json.get_text-of_text v,
      )

  -- A poll that reads the block of one message which is accepted.
  wait_loop-one :
      (accepts : MessageType → Bool) (limit elapsed : ℕ) (m : Msg json) (b : MessageBlock)
      (rest : List Poll)
      → accepts m.message_type ≡ true
      → unpack_messages json b ≡ ok (m ∷ [])
      → wait_loop json accepts limit (record { block = ok (some b); elapsed = elapsed } ∷ rest)
        ≡ found m
  unfolding wait_loop first_accepted
  wait_loop-one accepts limit elapsed m b rest a u = rw (u, a)

  pub unpack-pack_message :
      (m : Msg json) (b : MessageBlock)
      → IsRead m.message_type
      → pack_message json m ≡ ok b
      → length b.payload < 2 ^ 32
      → unpack_messages json b ≡ ok (m ∷ [])
  unfolding pack_message pack_messages
  unpack-pack_message m b i p small = unpack-pack json (m ∷ []) b (i, tt) p small

  -- The handshake works: a server that waits for a HELLO and receives the block of one greets the
  -- user by the name in it and answers with an ACK; a client that waits for an answer and receives
  -- the block of an ACK is accepted; and one that receives the block of a NAK is denied with the error
  -- text in it. This holds for all names and texts whose blocks are smaller than 2^32 bytes, all time
  -- limits, and whatever could be received afterwards.
  pub handshake :
      (user_name error : Text) (limit elapsed : ℕ) (rest : List Poll) (h a n : MessageBlock)
      → pack_message json (create_hello json user_name) ≡ ok h
      → length h.payload < 2 ^ 32
      → pack_message json (create_ack json) ≡ ok a
      → length a.payload < 2 ^ 32
      → pack_message json (create_nak json error) ≡ ok n
      → length n.payload < 2 ^ 32
      → (greet
            (wait_for json hello limit (record { block = ok (some h); elapsed = elapsed } ∷ rest))
          ≡ greeted user_name (create_ack json))
        × (conclude (
              wait_for_ack_or_nak json limit
                (record { block = ok (some a); elapsed = elapsed } ∷ rest))
            ≡ accepted)
        × (conclude (
              wait_for_ack_or_nak json limit
                (record { block = ok (some n); elapsed = elapsed } ∷ rest))
            ≡ denied error)
  unfolding wait_for wait_for_ack_or_nak greet conclude type_of to_int32 text_eq
  handshake user_name error limit elapsed rest h a n ph sh pa sa pn sn = (
    ap greet
          (wait_loop-one _ limit elapsed _ h rest refl (unpack-pack_message _ h (refl, refl) ph sh))
        ∙ ap greet_as (text_value-pair hello (lit "user_name") user_name refl),
    ap conclude
        (wait_loop-one _ limit elapsed _ a rest refl (unpack-pack_message _ a (refl, refl) pa sa)),
    ap conclude
          (wait_loop-one _ limit elapsed _ n rest refl (unpack-pack_message _ n (refl, refl) pn sn))
        ∙ ap deny (text_value-pair nak (lit "error") error refl),
  )
