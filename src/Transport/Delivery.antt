-- ===== src/Transport/Delivery.antt =====
-- What sending and receiving guarantee: delivery from one end to the other, and the only error.
use tavernmx.Common.{
  ℕ, ◌<◌, ◌^◌, ◌≡◌, refl, arith, ap, length-append, Bool, true, false, some, List, ◌∷◌, ◌++◌,
  length, map, if◌then◌else◌, All,
}
use tavernmx.Common.Result.{ok, transport_error}
use tavernmx.Json.{Json}
use tavernmx.Messaging.{Msg}
use tavernmx.Messaging.Block.{MessageBlock}
use tavernmx.Messaging.Pack.{unpack_messages}
use tavernmx.Messaging.RoundTrip.{IsRead, unpack-pack, pack_messages_total}
use tavernmx.Ssl
use tavernmx.Ssl.{Write, Read}
use tavernmx.Ssl.Receive.{gives, joined, receive-send, length-payload-sent}
use tavernmx.Transport.{
  BaseConnection, Answers, Outcome, returned, threw, blocked, after_sending, after_receiving,
  is_connected, shutdown, send_message_block, receive_message, send_messages,
}

-- If anything is thrown, it is a TransportError.
abbrev pub OnlyTransportError {ℓ} : {A : Type ℓ} → Outcome A → Type 0
OnlyTransportError (returned a) = Unit
OnlyTransportError (threw e) = e ≡ transport_error
OnlyTransportError blocked = Unit

after_sending-Only : (s : Ssl.Sent) → OnlyTransportError (after_sending s)
after_sending-Only (Ssl.Sent.sent bytes) = tt
after_sending-Only Ssl.Sent.send_failed = refl
after_sending-Only Ssl.Sent.blocked = tt

after_receiving-Only : (r : Ssl.Received) → OnlyTransportError (after_receiving r)
after_receiving-Only Ssl.Received.nothing = tt
after_receiving-Only (Ssl.Received.received b) = tt
after_receiving-Only Ssl.Received.failed = refl
after_receiving-Only Ssl.Received.waiting = tt

guarded-Only {ℓ} :
    {A : Type ℓ} (b : Bool) (o : Outcome A)
    → OnlyTransportError o
    → OnlyTransportError (if b then o else threw transport_error)
guarded-Only true o h = h
guarded-Only false o h = refl

is_connected-shutdown : (c : BaseConnection) (a : Answers) → is_connected (shutdown c) a ≡ false
unfolding is_connected Ssl.is_connected shutdown
is_connected-shutdown c a = ground arith

-- Whatever OpenSSL answers, `send_message_block` and `receive_message` throw nothing but a
-- TransportError; and once a connection is shut down it is not connected and both throw, before
-- anything is written or read.
pub transport_errors :
    (c : BaseConnection) (a : Answers) (writes : List Write) (block : MessageBlock) (read : Read)
    (reads : List Read)
    → OnlyTransportError (send_message_block c a writes block)
      × OnlyTransportError (receive_message c a read reads)
      × (is_connected (shutdown c) a ≡ false)
      × (send_message_block (shutdown c) a writes block ≡ threw transport_error)
      × (receive_message (shutdown c) a read reads ≡ threw transport_error)
unfolding send_message_block receive_message
transport_errors c a writes block read reads = (
  guarded-Only (is_connected c a) _ (after_sending-Only (Ssl.send_message writes block)),
  guarded-Only (is_connected c a) _ (after_receiving-Only (Ssl.receive_message read reads)),
  is_connected-shutdown c a,
  rw (is_connected-shutdown c a),
  rw (is_connected-shutdown c a),
)

send_message_block-sent :
    (c : BaseConnection) (a : Answers) (writes : List Write) (block : MessageBlock) (bytes : List ℕ)
    → send_message_block c a writes block ≡ returned bytes
    → Ssl.send_message writes block ≡ Ssl.Sent.sent bytes
unfolding send_message_block
send_message_block-sent c a writes block bytes h = ground arith

module _ (json : Json) where
  -- Delivery: messages of types that can be read, sent in one call of `send_messages` that returns,
  -- make one block at a peer that is connected, whatever retries sending needed and for any cut of the
  -- bytes into reads of which the first goes past the header and the size; and unpacking it gives the
  -- messages, in their order. This holds as long as the block is smaller than 2^32 bytes.
  pub send-receive :
      (sender receiver : BaseConnection) (a b : Answers) (writes : List Write) (m : Msg json)
      (ms : List (Msg json)) (bytes first : List ℕ) (chunks : List (List ℕ))
      → All (λ x. IsRead x.message_type) (m ∷ ms)
      → send_messages json sender a writes (m ∷ ms) ≡ returned bytes
      → length bytes < 2 ^ 32
      → is_connected receiver b ≡ true
      → 8 < length first
      → first ++ joined chunks ≡ bytes
      → (block : MessageBlock) × (receive_message receiver b (gives first) (map gives chunks)
          ≡ returned (some block))
        × (unpack_messages json block ≡ ok (m ∷ ms))
  unfolding send_messages receive_message
  send-receive sender receiver a b writes m ms bytes first chunks i s small up p cut =
      let (block, packed, size, positive) = pack_messages_total json (m ∷ ms) in
      let wrote : send_message_block sender a writes block ≡ returned bytes = rw packed at s in
      let went = send_message_block-sent sender a writes block bytes wrote in
      let some_bytes : 0 < length bytes =
        omega (arith, ap length cut, length-append first (joined chunks)) in
      let fits : length block.payload < 2 ^ 32 =
        omega (arith, length-payload-sent block writes bytes went some_bytes) in
      let exact : block.payload_size ≡ length block.payload = omega arith in
      (
        block,
        rw (up, receive-send block writes bytes first chunks exact (omega arith) went p cut),
        unpack-pack json (m ∷ ms) block i packed fits,
      )
