-- ===== src/Transport/Connect.antt =====
-- `ServerConnection::connect` (src/client/serverconnection.cpp), and the thread that connects, of
-- src/client/workers/connectscreen-worker.cpp.
use tavernmx.Common.{ℕ, Bool, true, false, Option, none, some, List, [], ◌∷◌, if◌then◌else◌}
use tavernmx.Common.Text.{Text}
use tavernmx.Common.Result.{transport_error, ssl_error}
use tavernmx.Json.{Json}
use tavernmx.Messaging.{create_hello}
use tavernmx.Ssl.{Write, VerifyResult, CertificateError, verify_certificate}
use tavernmx.Connection.{Poll, wait_for_ack_or_nak}
use tavernmx.Connection.Handshake.{
  Attempt, accepted, not_acknowledged, still_trying, denied, broken, conclude,
}
use tavernmx.Transport.{
  BaseConnection, Answers, Outcome, returned, threw, blocked, and_then, is_connected, shutdown,
  send_message,
}

-- A call of `BIO_do_handshake`: whether it gives a positive number, and else `BIO_should_retry`.
pub record Handshake : Type 0 where
  pub done : Bool
  pub should_retry : Bool

-- What OpenSSL answers to `connect`.
pub record Connecting : Type 0 where
  pub before : Answers
  -- Whether `BIO_do_connect_retry` gives 1, and whether the new BIO has an SSL object.
  pub connected : Bool
  pub has_ssl : Bool
  pub handshakes : List Handshake
  pub verified : VerifyResult
  pub has_certificate : Bool
  pub host_matches : Bool

unfoldable pub handshake_loop : List Handshake → Outcome (Unit {0})
handshake_loop [] = blocked
handshake_loop (h ∷ hs) =
    let again = handshake_loop hs in
    if h.done then returned tt else if h.should_retry then again else threw transport_error

abbrev pub after_verifying : Option CertificateError → Outcome (Unit {0})
after_verifying none = returned tt
after_verifying (some e) = threw ssl_error

-- The steps once the TCP connection stands. `get_ssl` throws an SslError if there is no SSL object,
-- and so does `verify_certificate`; a self-signed certificate is not allowed.
unfoldable pub secure : Connecting → Outcome (Unit {0})
unfolding handshake_loop
secure x =
    if x.has_ssl
    then and_then (handshake_loop x.handshakes) (λ _.
      after_verifying (verify_certificate x.verified false x.has_certificate x.host_matches))
    else threw ssl_error

-- The connection afterwards, also where something is thrown: from the first step on it has a BIO.
unfoldable pub connect : BaseConnection → Connecting → BaseConnection × Outcome (Unit {0})
unfolding secure
connect c x =
    if is_connected c x.before
    then (c, returned tt)
    else (record { has_bio = true }, if x.connected then secure x else threw transport_error)

-- What the thread meets: in `connect`, in sending the HELLO, and in waiting for the answer.
pub record Circumstances : Type 0 where
  pub connecting : Connecting
  pub sending : Answers
  pub writes : List Write
  pub polls : List Poll

-- What the thread leaves: the connection, the error text for the user, and the signal that it is done.
pub record Attempted : Type 0 where
  pub connection : BaseConnection
  pub connect_thread_error : Option Text
  pub signalled : Bool

abbrev pub closed : BaseConnection → Option Text → Attempted
closed c e = record { connection = shutdown c; connect_thread_error = e; signalled = true }

abbrev pub running : BaseConnection → Attempted
running c = record { connection = c; connect_thread_error = none; signalled = false }

abbrev pub answered : BaseConnection → Attempt → Attempted
answered c accepted = record { connection = c; connect_thread_error = none; signalled = true }
answered c not_acknowledged = closed c none
answered c still_trying = running c
answered c (denied e) = closed c (some e)
answered c (broken e) = closed c none

-- The `catch` of the thread.
abbrev pub unless_thrown {ℓ} :
    {A : Type ℓ} → BaseConnection → Outcome A → (A → Attempted) → Attempted
unless_thrown c (returned a) f = f a
unless_thrown c (threw e) f = closed c none
unless_thrown c blocked f = running c

module _ (json : Json) where
  unfoldable pub connection_thread : ℕ → Text → BaseConnection → Circumstances → Attempted
  connection_thread limit user_name c x =
      let (c', o) = connect c x.connecting in
      unless_thrown c' o λ _.
        unless_thrown c' (send_message json c' x.sending x.writes (create_hello json user_name))
          λ _. answered c' (conclude json (wait_for_ack_or_nak json limit x.polls))
