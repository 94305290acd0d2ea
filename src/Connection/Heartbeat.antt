-- ===== src/Connection/Heartbeat.antt =====
-- When a client asks the server for a sign of life, and when it gives up.
use tavernmx.Common.{
  ℕ, ◌+◌, ◌*◌, ◌<◌, ◌≡◌, refl, Bool, true, false, Option, none, some, List, [], ◌∷◌, arith,
  Bool-cases, inl, inr, if◌then◌else◌,
}
use tavernmx.Json.{is_some}
use tavernmx.Connection.{
  Link, heard, Check, goes_on, sends_heartbeat, gives_up, quiet, check_silence, link_round,
}

-- A heartbeat that was sent, was sent after more than the timeout without a message.
abbrev pub SentLate : ℕ → ℕ → Option ℕ → Type 0
SentLate timeout last none = Unit
SentLate timeout last (some sent) = last + timeout < sent

pub record IsWaiting (timeout : ℕ) (l : Link) : Type 0 where
  pub late : SentLate timeout l.last_message_received l.heartbeat_sent
  pub flag : l.waiting_on_server ≡ is_some l.heartbeat_sent

-- The rounds of the loop, each with its time and whether it read a block: the link after them, and
-- how often a heartbeat was sent since a block was last read; or the loop has ended.
pub data Run : Type 0 where
  running : Link → ℕ → Run
  ended : ℕ → Link → Run

abbrev after_check : ℕ → Link → ℕ → Check → Run
after_check now l sent (goes_on l') = running l' sent
after_check now l sent (sends_heartbeat l') = running l' (sent + 1)
after_check now l sent gives_up = ended now l

unfoldable pub one_round : ℕ → ℕ → Bool → Link → ℕ → Run
unfolding link_round
one_round timeout now got_block l sent =
    after_check now (if got_block then heard now l else l) (if got_block then 0 else sent)
      (link_round timeout now got_block l)

-- `ended now l` says at which time the loop ended, and with what link.
unfoldable pub run : ℕ → List (ℕ × Bool) → Run → Run
run timeout [] r = r
run timeout (p ∷ ps) (ended now l) = ended now l
run timeout (p ∷ ps) (running l sent) = run timeout ps (one_round timeout p.0 p.1 l sent)

abbrev count : Option ℕ → ℕ
count none = 0
count (some t) = 1

-- While the loop runs: at most one heartbeat since the last block. Once it has ended: twice the
-- timeout has passed without a message, and a heartbeat went unanswered.
abbrev pub RunGood : ℕ → Run → Type 0
RunGood timeout (running l sent) = IsWaiting timeout l × (sent ≡ count l.heartbeat_sent)
RunGood timeout (ended now l) =
    (l.last_message_received + 2 * timeout < now) × (l.waiting_on_server ≡ true)

check-good :
    (timeout now last : ℕ) (sent : Option ℕ) (flag : Bool)
    → SentLate timeout last sent
    → flag ≡ is_some sent
    → RunGood timeout (
        after_check now
          (record { last_message_received = last; heartbeat_sent = sent; waiting_on_server = flag })
          (count sent)
          (check_silence timeout now (record {
            last_message_received = last;
            heartbeat_sent = sent;
            waiting_on_server = flag;
          })))
unfolding check_silence
check-good timeout now last none flag late f = elim (Bool-cases (quiet timeout now last)) [
  | inl silent ↦ rw silent (record { late = ground arith; flag = refl }, refl)
  | inr recent ↦ rw recent (record { late = tt; flag = f }, refl)
]
check-good timeout now last (some sent) flag late f = elim (Bool-cases (quiet timeout now last)) [
  | inr recent ↦ rw recent (record { late = late; flag = f }, refl)
  | inl silent ↦ elim (Bool-cases (quiet timeout now sent)) [
    | inl unanswered ↦ rw (silent, unanswered) (ground arith, f)
    | inr patient ↦ rw (silent, patient) (record { late = late; flag = f }, refl)
  ]
]

-- What a check finds, at a time and with a link: the link it leaves is in order, or it was silent.
abbrev pub CheckGood : ℕ → ℕ → Link → Check → Type 0
CheckGood timeout now l (goes_on l') = IsWaiting timeout l'
CheckGood timeout now l (sends_heartbeat l') = IsWaiting timeout l'
CheckGood timeout now l gives_up =
    (l.last_message_received + 2 * timeout < now) × (l.waiting_on_server ≡ true)

check-of-run :
    (timeout now : ℕ) (l : Link) (sent : ℕ) (c : Check)
    → RunGood timeout (after_check now l sent c)
    → CheckGood timeout now l c
check-of-run timeout now l sent (goes_on l') h = h.0
check-of-run timeout now l sent (sends_heartbeat l') h = h.0
check-of-run timeout now l sent gives_up h = h

one_round-good :
    (timeout now : ℕ) (got_block : Bool) (l : Link) (sent : ℕ)
    → RunGood timeout (running l sent)
    → RunGood timeout (one_round timeout now got_block l sent)
unfolding one_round link_round
one_round-good timeout now true l sent k = check-good timeout now now none false tt refl
one_round-good timeout now false l sent k = rw k.1 (
    check-good timeout now l.last_message_received l.heartbeat_sent l.waiting_on_server k.0.late
      k.0.flag)

pub link_round-CheckGood :
    (timeout now : ℕ) (got_block : Bool) (l : Link)
    → IsWaiting timeout l
    → CheckGood timeout now
        (if got_block then heard now l else l)
        (link_round timeout now got_block l)
unfolding one_round
link_round-CheckGood timeout now got_block l k =
    check-of-run timeout now _ _ _ (one_round-good timeout now got_block l _ (k, refl))

run-good :
    (timeout : ℕ) (ps : List (ℕ × Bool)) (r : Run)
    → RunGood timeout r
    → RunGood timeout (run timeout ps r)
unfolding run
run-good timeout [] r k = k
run-good timeout (p ∷ ps) (ended now l) k = k
run-good timeout (p ∷ ps) (running l sent) k =
    run-good timeout ps _ (one_round-good timeout p.0 p.1 l sent k)

-- From a fresh connection, whatever the times of the rounds and whichever of them read a block: while
-- the loop runs, at most one heartbeat has been sent since the last block that was read, and the user
-- interface is told to wait exactly if one has; and the loop ends only when more than twice the
-- timeout has passed since the last block.
pub heartbeat_patience :
    (timeout start : ℕ) (ps : List (ℕ × Bool))
    → RunGood timeout (
        run timeout ps (
          running
            (record {
              last_message_received = start;
              heartbeat_sent = none;
              waiting_on_server = false;
            })
            0))
heartbeat_patience timeout start ps =
    run-good timeout ps _ (record { late = tt; flag = refl }, refl)
