-- ===== src/Transport.antt =====
-- `BaseConnection` (include/tavernmx/connection.h, src/shared/connection.cpp) over the answers of
-- OpenSSL: sending and receiving blocks and messages, and the mapping of SslError to TransportError.
pub mod Delivery
pub mod Connect
pub mod Steps
pub mod Accepted
mod Examples
use tavernmx.Common.{
  ℕ, ◌≡◌, Bool, true, false, not, Option, none, some, List, [], ◌∷◌, ◌++◌, if◌then◌else◌,
}
use tavernmx.Common.Result.{Result, ok, err, Error, transport_error}
use tavernmx.Json.{Json}
use tavernmx.Messaging.{Msg}
use tavernmx.Messaging.Block.{MessageBlock}
use tavernmx.Messaging.Pack.{pack_message, pack_messages}
use tavernmx.Ssl
use tavernmx.Ssl.{Read, Write, Sent, sent, send_failed, Received, nothing, received, failed}

-- Whether the connection has a BIO.
pub record BaseConnection : Type 0 where
  pub has_bio : Bool

-- What OpenSSL answers when it is asked whether the connection is up.
pub record Answers : Type 0 where
  pub has_ssl : Bool
  pub shut_down : Bool

-- How a call ends, if it does: `blocked` says that the given answers are used up.
pub data Outcome {ℓ} (A : Type ℓ) : Type ℓ where
  returned : A → Outcome A
  threw : Error → Outcome A
  blocked : Outcome A

abbrev pub and_then {ℓ κ} : {A : Type ℓ} {B : Type κ} → Outcome A → (A → Outcome B) → Outcome B
and_then (returned a) f = f a
and_then (threw e) f = threw e
and_then blocked f = blocked

abbrev pub from_result {ℓ} : {A : Type ℓ} → Result A → Outcome A
from_result (ok a) = returned a
from_result (err e) = threw e

unfoldable pub is_connected : BaseConnection → Answers → Bool
unfolding Ssl.is_connected
is_connected c a = Ssl.is_connected (not c.has_bio) a.has_ssl a.shut_down

unfoldable pub shutdown : BaseConnection → BaseConnection
shutdown c = if c.has_bio then record c { has_bio = false } else c

-- An SslError becomes a TransportError.
abbrev pub after_sending : Sent → Outcome (List ℕ)
after_sending (sent bytes) = returned bytes
after_sending send_failed = threw transport_error
after_sending Sent.blocked = blocked

-- The bytes that are written, if the call returns.
unfoldable pub send_message_block :
    BaseConnection → Answers → List Write → MessageBlock → Outcome (List ℕ)
send_message_block c a writes block =
    if is_connected c a
    then after_sending (Ssl.send_message writes block)
    else threw transport_error

abbrev pub after_receiving : Received → Outcome (Option MessageBlock)
after_receiving nothing = returned none
after_receiving (received block) = returned (some block)
after_receiving failed = threw transport_error
after_receiving Received.waiting = blocked

unfoldable pub receive_message :
    BaseConnection → Answers → Read → List Read → Outcome (Option MessageBlock)
receive_message c a read reads =
    if is_connected c a
    then after_receiving (Ssl.receive_message read reads)
    else threw transport_error

-- A call of `send_message_block` in `send_message_blocks`, with the answers that it meets.
pub record SendCall : Type 0 where
  pub answers : Answers
  pub writes : List Write
  pub block : MessageBlock

unfoldable pub send_message_blocks : BaseConnection → List SendCall → Outcome (List ℕ)
send_message_blocks c [] = returned []
send_message_blocks c (s ∷ ss) =
    and_then (send_message_block c s.answers s.writes s.block)
      λ bytes. and_then (send_message_blocks c ss) λ rest. returned (bytes ++ rest)

module _ (json : Json) where
  unfoldable pub send_message : BaseConnection → Answers → List Write → Msg json → Outcome (List ℕ)
  send_message c a writes m =
      and_then (from_result (pack_message json m)) (send_message_block c a writes)

  -- The template `send_messages(begin, end)`: nothing is written for no message.
  unfoldable pub send_messages :
      BaseConnection → Answers → List Write → List (Msg json) → Outcome (List ℕ)
  send_messages c a writes [] = returned []
  send_messages c a writes (m ∷ ms) =
      and_then (from_result (pack_messages json (m ∷ ms))) (send_message_block c a writes)
