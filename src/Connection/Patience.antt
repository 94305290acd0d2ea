-- ===== src/Connection/Patience.antt =====
-- When the thread of the client gives a silent server up.
use tavernmx.Common.{
  ℕ, ◌+◌, ◌*◌, ◌<◌, ◌≡◌, refl, Bool, true, false, Bool-cases, inl, inr, List, [], ◌∷◌,
}
use tavernmx.Common.Result.{Result, ok, err, Ensures, Ensures-bind}
use tavernmx.Json.{Json, is_some}
use tavernmx.Messaging.{Msg}
use tavernmx.Connection.{messages_of, route_all, Link, Check, goes_on, sends_heartbeat, gives_up}
use tavernmx.Connection.Heartbeat.{IsWaiting, CheckGood, link_round-CheckGood}
use tavernmx.Connection.Loops.{
  Thread, Ending, never_greeted, disconnected, shut_down, still_running, silent, threw, LinkRound,
  RoundEnd, goes_round, is_silent, go_on, after_check, message_round, message_loop, new_link,
  server_message_worker,
}

-- What holds of the link when the thread has ended, or still runs.
abbrev pub IsPatient : {V : Type 0} → ℕ → Ending × Thread V × Link → Type 0
IsPatient timeout (silent now, t, l) =
    (l.last_message_received + 2 * timeout < now) × (l.waiting_on_server ≡ true)
IsPatient timeout (never_greeted, t, l) = IsWaiting timeout l
IsPatient timeout (disconnected, t, l) = IsWaiting timeout l
IsPatient timeout (shut_down, t, l) = IsWaiting timeout l
IsPatient timeout (still_running, t, l) = IsWaiting timeout l
IsPatient timeout (threw e, t, l) = IsWaiting timeout l

module _ (json : Json) (timeout : ℕ) where
  open json use {Value}

  abbrev RoundGood : ℕ → RoundEnd Value → Type 0
  RoundGood now (goes_round t l) = IsWaiting timeout l
  RoundGood now (is_silent t l) =
      (l.last_message_received + 2 * timeout < now) × (l.waiting_on_server ≡ true)

  go_on-Good :
      (now : ℕ) (l : Link) (r : Result (Thread Value))
      → IsWaiting timeout l
      → Ensures (RoundGood now) (go_on json l r)
  go_on-Good now l (ok t) h = h
  go_on-Good now l (err e) h = tt

  after_check-Good :
      (now : ℕ) (sends : Bool) (ms : List (Msg json)) (l : Link) (t : Thread Value) (c : Check)
      → CheckGood timeout now l c
      → Ensures (RoundGood now) (after_check json sends ms l t c)
  after_check-Good now sends ms l t (goes_on l') h = go_on-Good now l' _ h
  after_check-Good now sends ms l t (sends_heartbeat l') h = go_on-Good now l' _ h
  after_check-Good now sends ms l t gives_up h = h

  message_round-Good :
      (ndebug : Bool) (x : LinkRound Value) (t : Thread Value) (l : Link)
      → IsWaiting timeout l
      → Ensures (RoundGood x.now) (message_round json ndebug timeout x t l)
  unfolding message_round
  message_round-Good ndebug x t l h = Ensures-bind (RoundGood x.now) x.round.block _ λ block p.
      Ensures-bind (RoundGood x.now) (messages_of json block) _ λ ms q.
        Ensures-bind (RoundGood x.now) (route_all json ndebug ms _) _ λ r e.
          after_check-Good x.now x.round.sends r.send_messages _ _ _
            (link_round-CheckGood timeout x.now (is_some block) l h)

  continue-IsPatient :
      (now : ℕ) (ndebug : Bool) (xs : List (LinkRound Value)) (t : Thread Value) (l : Link)
      (r : Result (RoundEnd Value))
      → IsWaiting timeout l
      → Ensures (RoundGood now) r
      → ((t' : Thread Value) (l' : Link)
          → IsWaiting timeout l'
          → IsPatient timeout (message_loop json ndebug timeout xs t' l'))
      → IsPatient {V = Value} timeout (elim r [
        | ok (goes_round t' l') ↦ message_loop json ndebug timeout xs t' l'
        | ok (is_silent t' l') ↦ (silent now, t', l')
        | err e ↦ (threw e, t, l)
      ])
  continue-IsPatient now ndebug xs t l (ok (goes_round t' l')) h g ih = ih t' l' g
  continue-IsPatient now ndebug xs t l (ok (is_silent t' l')) h g ih = g
  continue-IsPatient now ndebug xs t l (err e) h g ih = h

  message_loop-IsPatient :
      (ndebug : Bool) (xs : List (LinkRound Value)) (t : Thread Value) (l : Link)
      → IsWaiting timeout l
      → IsPatient timeout (message_loop json ndebug timeout xs t l)
  unfolding message_loop
  message_loop-IsPatient ndebug [] t l h = h
  message_loop-IsPatient ndebug (x ∷ xs) t l h = elim (Bool-cases x.round.connected) [
    | inr down ↦ rw down h
    | inl up ↦ elim (Bool-cases x.shutdown_requested) [
      | inl asked ↦ rw (up, asked) h
      | inr unasked ↦
          rw (up, unasked)
            (continue-IsPatient x.now ndebug xs t l _ h (message_round-Good ndebug x t l h)
              (message_loop-IsPatient ndebug xs))
    ]
  ]

  -- Whatever the thread of the client meets, and whenever it ends: it gives the server up only when
  -- more than twice the timeout has passed since a block was last read, with the user told to wait;
  -- and in every other case a heartbeat is pending only if it was sent more than the timeout after the
  -- last block, and the user is told to wait exactly if one is pending.
  pub server_message_worker-IsPatient :
      (ndebug : Bool) (start : ℕ) (request_sends : Bool) (xs : List (LinkRound Value))
      → IsPatient timeout (server_message_worker json ndebug timeout start request_sends xs)
  unfolding server_message_worker
  server_message_worker-IsPatient ndebug start true xs =
      message_loop-IsPatient ndebug xs _ (new_link start) (record { late = tt; flag = refl })
  server_message_worker-IsPatient ndebug start false xs = record { late = tt; flag = refl }
