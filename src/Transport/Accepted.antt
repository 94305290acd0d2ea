-- ===== src/Transport/Accepted.antt =====
-- When the thread that connects, of src/client/workers/connectscreen-worker.cpp, makes a connection.
use tavernmx.Common.{
  ℕ, ◌<◌, ◌≡◌, ◌≢◌, ◌↔◌, ◌∙◌, refl, ap, Bool, true, false, ◌||◌, Bool-cases, inl, inr, none, some,
  List, [], ◌∷◌, ◌++◌, All, lt→ltb,
}
use tavernmx.Common.Int.{pos}
use tavernmx.Common.Text.{Text}
use tavernmx.Common.Result.{ok}
use tavernmx.Json.{Json}
use tavernmx.Messaging.{Msg, MessageType, ack, nak, same_type, type_value, create_hello}
use tavernmx.Messaging.Pack.{pack_message, pack_messages}
use tavernmx.Messaging.RoundTrip.{pack_messages_total}
use tavernmx.Messaging.Block.{MessageBlock, pack_block}
use tavernmx.Ssl
use tavernmx.Ssl.{
  Write, sent, write_loop, VerifyResult, verify_ok, self_signed_in_chain, self_signed_leaf,
  verify_failed, CertificateError, verify_certificate,
}
use tavernmx.Connection.{Poll, found, received, first_accepted, wait_loop, wait_for_ack_or_nak}
use tavernmx.Connection.Waiting.{FoundIn, here, later, wait_loop-FoundIn}
use tavernmx.Connection.Handshake.{conclude_inv, conclude_ok}
use tavernmx.Transport.{Answers, returned, is_connected, send_message, send_message_block}
use tavernmx.Transport.Connect.{Circumstances, secure, connect, connection_thread}
use tavernmx.Transport.Steps.{
  IsOpen, unless_thrown_inv, answered_inv, Shakes, Shakes-handshake_loop, Writes, write_loop-Writes,
  Writes-write_loop, IsTrusted, secure_inv, int_eq_of, int_ne_of,
}

module _ (json : Json) where
  open json use {Value}

  -- No ACK and no NAK, by the number of its type.
  abbrev IsNoAnswer : Msg json → Type 0
  IsNoAnswer m = (type_value m.message_type ≢ pos 0x1000) × (type_value m.message_type ≢ pos 0x1001)

  -- In one of the polls, the first message that is an ACK or a NAK is an ACK; in those before it there
  -- is neither, and each of them ends before the limit.
  pub data HearsAck (limit : ℕ) : List Poll → Type 0 where
    acknowledged :
        (p : Poll) (ps : List Poll) (skipped rest : List (Msg json)) (answer : Msg json)
        → received json p ≡ ok (skipped ++ answer ∷ rest)
        → All IsNoAnswer skipped
        → type_value answer.message_type ≡ pos 0x1000
        → HearsAck limit (p ∷ ps)
    unanswered :
        (p : Poll) (ps : List Poll) (skipped : List (Msg json))
        → received json p ≡ ok skipped
        → All IsNoAnswer skipped
        → p.elapsed < limit
        → HearsAck limit ps
        → HearsAck limit (p ∷ ps)

  abbrev is_answer : MessageType → Bool
  is_answer t = same_type t ack || same_type t nak

  no_answer : (m : Msg json) → is_answer m.message_type ≡ false → IsNoAnswer m
  no_answer m h = (λ e. absurd (cc (rw e at h)), λ e. absurd (cc (rw e at h)))

  IsNoAnswer-false : (m : Msg json) → IsNoAnswer m → is_answer m.message_type ≡ false
  IsNoAnswer-false m q = rw (
    int_ne_of (type_value m.message_type) 0x1000 q.0,
    int_ne_of (type_value m.message_type) 0x1001 q.1,
  )

  first_accepted-none :
      (ms : List (Msg json)) → first_accepted json is_answer ms ≡ none → All IsNoAnswer ms
  unfolding first_accepted
  first_accepted-none [] e = tt
  first_accepted-none (m ∷ ms) e = elim (Bool-cases (is_answer m.message_type)) [
    | inl a ↦ absurd (cc (rw a at e))
    | inr a ↦ (no_answer m a, first_accepted-none ms (rw a at e))
  ]

  first_accepted-some :
      (ms : List (Msg json)) (m : Msg json)
      → first_accepted json is_answer ms ≡ some m
      → (skipped : List (Msg json)) × (rest : List (Msg json)) × (ms ≡ skipped ++ m ∷ rest)
        × All IsNoAnswer skipped
  unfolding first_accepted
  first_accepted-some [] m e = absurd (cc)
  first_accepted-some (n ∷ ms) m e = elim (Bool-cases (is_answer n.message_type)) [
    | inl a ↦ let same : n ≡ m = cc (rw a at e) in ([], ms, ap (λ x. x ∷ ms) same, tt)
    | inr a ↦
        let (skipped, rest, cut, q) = first_accepted-some ms m (rw a at e) in
        (n ∷ skipped, rest, ap (λ l. n ∷ l) cut, (no_answer n a, q))
  ]

  first_accepted-skip :
      (skipped rest : List (Msg json))
      → All IsNoAnswer skipped
      → first_accepted json is_answer (skipped ++ rest) ≡ first_accepted json is_answer rest
  unfolding first_accepted
  first_accepted-skip [] rest q = refl
  first_accepted-skip (m ∷ skipped) rest q =
      rw (IsNoAnswer-false m q.0) (first_accepted-skip skipped rest q.1)

  no_first : (ms : List (Msg json)) → All IsNoAnswer ms → first_accepted json is_answer ms ≡ none
  unfolding first_accepted
  no_first [] q = refl
  no_first (m ∷ ms) q = rw (IsNoAnswer-false m q.0) (no_first ms q.1)

  FoundIn-HearsAck :
      (limit : ℕ) (m : Msg json) (ps : List Poll)
      → type_value m.message_type ≡ pos 0x1000
      → FoundIn json is_answer limit m ps
      → HearsAck limit ps
  FoundIn-HearsAck limit m _ t (here p ps ms got first) =
      let (skipped, rest, cut, q) = first_accepted-some ms m first in
      acknowledged p ps skipped rest m (got ∙ ap ok cut) q t
  FoundIn-HearsAck limit m _ t (later p ps ms got none_yet soon f) =
      unanswered p ps ms got (first_accepted-none ms none_yet) soon
        (FoundIn-HearsAck limit m ps t f)

  HearsAck-found :
      (limit : ℕ) (ps : List Poll)
      → HearsAck limit ps
      → (m : Msg json) × (wait_for_ack_or_nak json limit ps ≡ found m)
        × (same_type m.message_type ack ≡ true)
  unfolding wait_for_ack_or_nak wait_loop
  HearsAck-found limit _ (acknowledged p ps skipped rest m got q t) =
      let is_ack : same_type m.message_type ack ≡ true = rw t in
      let first : first_accepted json is_answer (skipped ++ m ∷ rest) ≡ some m =
        first_accepted-skip skipped (m ∷ rest) q ∙ (unfold first_accepted in rw is_ack) in
      (m, rw (got, first), is_ack)
  HearsAck-found limit _ (unanswered p ps skipped got q soon a) =
      let (m, w, t) = HearsAck-found limit ps a in
      let none_yet : first_accepted json is_answer skipped ≡ none = no_first skipped q in
      (m, rw (got, none_yet, lt→ltb p.elapsed limit soon) w, t)

  -- All that has to go well for a connection to be made.
  pub record IsAccepted (limit : ℕ) (x : Circumstances) : Type 0 where
    pub tcp : x.connecting.connected ≡ true
    pub ssl : x.connecting.has_ssl ≡ true
    pub shaken : Shakes x.connecting.handshakes
    pub trusted : IsTrusted x.connecting
    pub up : (x.sending.has_ssl ≡ true) × (x.sending.shut_down ≡ false)
    pub greeted : Writes x.writes
    pub heard : HearsAck limit x.polls

  pack_message_total : (m : Msg json) → (block : MessageBlock) × (pack_message json m ≡ ok block)
  unfolding pack_message pack_messages
  pack_message_total m =
      let (block, packed, size, positive) = pack_messages_total json (m ∷ []) in (block, packed)

  sends_iff_up :
      (a : Answers) (writes : List Write) (m : Msg json)
      → ((bytes : List ℕ) × (send_message json (record { has_bio = true }) a writes m
            ≡ returned bytes))
        ↔ ((a.has_ssl ≡ true) × (a.shut_down ≡ false)) × Writes writes
  unfolding send_message send_message_block Ssl.send_message is_connected Ssl.is_connected
  sends_iff_up a writes m =
      let (block, packed) = pack_message_total m in
      elim (Bool-cases a.has_ssl) [
        | inr s ↦ (λ (bytes, e). absurd (cc (rw (packed, s) at e)), λ q. absurd (cc (s, q.0.0)))
        | inl s ↦ elim (Bool-cases a.shut_down) [
          | inl d ↦
              (λ (bytes, e). absurd (cc (rw (packed, s, d) at e)), λ q. absurd (cc (d, q.0.1)))
          | inr d ↦ (
            λ (bytes, e). (
              (s, d),
              write_loop-Writes writes (pack_block block) bytes (rw (packed, s, d) at e),
            ),
            λ q.
                let (bytes, e) = Writes-write_loop writes (pack_block block) q.1 in
                (bytes, rw (packed, s, d, e)),
          )
        ]
      ]

  IsOpen-IsAccepted :
      (limit : ℕ) (user_name : Text) (x : Circumstances)
      → IsOpen (connection_thread json limit user_name (record { has_bio = false }) x)
      → IsAccepted limit x
  unfolding connection_thread connect is_connected Ssl.is_connected wait_for_ack_or_nak
  IsOpen-IsAccepted limit user_name x h =
      let (u, c, h1) = unless_thrown_inv (record { has_bio = true }) _ _ h in
      let (bytes, g, h2) =
        unless_thrown_inv _
          (send_message json (record { has_bio = true }) x.sending x.writes
            (create_hello json user_name))
          _ h1 in
      let (m, w, a) = conclude_inv json _ (answered_inv _ _ h2) in
      let (tcp, ssl, shaken, trusted) = secure_inv x.connecting c in
      let (up, greeted) = (sends_iff_up x.sending x.writes _).0 (bytes, g) in
      record {
        tcp = tcp;
        ssl = ssl;
        shaken = shaken;
        trusted = trusted;
        up = up;
        greeted = greeted;
        heard =
            FoundIn-HearsAck limit m x.polls (int_eq_of _ 0x1000 a)
              (wait_loop-FoundIn json is_answer limit x.polls m w);
      }

  -- The thread that connects, from no connection, leaves an open connection and signals that it is
  -- done exactly if all went well: the TCP connection was made and has TLS; the handshake ended, after
  -- as many retries as it asked for; the chain was verified, with no self-signed certificate in it, a
  -- certificate was presented, and it is for the host; the connection was still up and writing the
  -- HELLO not refused, after as many retries as were asked for; and the first answer that is an ACK or
  -- a NAK was an ACK, with all the polls before it ending within the limit.
  pub connection_thread_iff :
      (limit : ℕ) (user_name : Text) (x : Circumstances)
      → ((connection_thread json limit user_name (record { has_bio = false }) x).signalled ≡ true)
          × ((connection_thread json limit user_name
                (record { has_bio = false })
                x).connection.has_bio
              ≡ true)
        ↔ IsAccepted limit x
  unfolding connection_thread connect secure is_connected Ssl.is_connected verify_certificate
  connection_thread_iff limit user_name x = (
    IsOpen-IsAccepted limit user_name x,
    λ a.
        let (bytes, greeted) =
          (sends_iff_up x.sending x.writes (create_hello json user_name)).1 (a.up, a.greeted) in
        let (m, found_it, is_ack) = HearsAck-found limit x.polls a.heard in
        rw
          (
            a.tcp,
            a.ssl,
            Shakes-handshake_loop _ a.shaken,
            a.trusted.0,
            a.trusted.1,
            a.trusted.2,
            greeted,
            found_it,
            conclude_ok json m is_ack,
          )
          (refl, refl),
  )
