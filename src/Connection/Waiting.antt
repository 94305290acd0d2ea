-- ===== src/Connection/Waiting.antt =====
-- Waiting for a message of some type.
use tavernmx.Common.{
  ℕ, ◌<◌, ◌≤◌, ◌≡◌, ◌≢◌, ◌∙◌, ap, Bool, none, some, List, [], ◌∷◌, ◌++◌, arith, Bool-cases,
  Option-cases, ltb, ltb-false, inl, inr,
}
use tavernmx.Common.Result.{ok, Result-cases}
use tavernmx.Json.{Json}
use tavernmx.Messaging.{Msg, MessageType}
use tavernmx.Connection.{Poll, found, polling, first_accepted, received, wait_loop}

module _ (json : Json) where
  open json use {Value}

  -- What a wait that finds `m` has seen: rounds without an accepted message, each ending in time, and
  -- then one whose first accepted message is `m`.
  pub data FoundIn (accepts : MessageType → Bool) (limit : ℕ) (m : Msg json)
      : List Poll → Type 0 where
    here :
        (p : Poll) (ps : List Poll) (ms : List (Msg json))
        → received json p ≡ ok ms
        → first_accepted json accepts ms ≡ some m
        → FoundIn accepts limit m (p ∷ ps)
    later :
        (p : Poll) (ps : List Poll) (ms : List (Msg json))
        → received json p ≡ ok ms
        → first_accepted json accepts ms ≡ none
        → p.elapsed < limit
        → FoundIn accepts limit m ps
        → FoundIn accepts limit m (p ∷ ps)

  found_inj : {m n : Msg json} → found m ≡ found n → m ≡ n
  found_inj e = cc

  -- If a wait finds a message, it is the first accepted message of the first round that has one, and
  -- all the rounds before it ended before the limit.
  pub wait_loop-FoundIn :
      (accepts : MessageType → Bool) (limit : ℕ) (ps : List Poll) (m : Msg json)
      → wait_loop json accepts limit ps ≡ found m
      → FoundIn accepts limit m ps
  unfolding wait_loop
  wait_loop-FoundIn accepts limit [] m h = absurd (cc)
  wait_loop-FoundIn accepts limit (p ∷ ps) m h = elim (Result-cases (received json p)) [
    | inr (x, failed) ↦ absurd (cc (rw failed at h))
    | inl (ms, got) ↦ elim (Option-cases (first_accepted json accepts ms)) [
      | inr (n, hit) ↦
          let same : n ≡ m = found_inj (rw (got, hit) at h) in here p ps ms got (hit ∙ ap some same)
      | inl miss ↦ elim (Bool-cases (ltb p.elapsed limit)) [
        | inl more ↦
            later p ps ms got miss (ground arith)
              (wait_loop-FoundIn accepts limit ps m (rw (got, miss, more) at h))
        | inr over ↦ absurd (cc (rw (got, miss, over) at h))
      ]
    ]
  ]

  -- A wait is over, one way or another, at the latest with the first round that ends at or after the
  -- limit; it never polls again after it.
  pub wait_loop_ends :
      (accepts : MessageType → Bool) (limit : ℕ) (before : List Poll) (p : Poll) (rest : List Poll)
      → limit ≤ p.elapsed
      → wait_loop json accepts limit (before ++ p ∷ rest) ≢ polling
  unfolding wait_loop
  wait_loop_ends accepts limit [] p rest late = λ h. elim (Result-cases (received json p)) [
    | inr (x, failed) ↦ absurd (cc (rw failed at h))
    | inl (ms, got) ↦ elim (Option-cases (first_accepted json accepts ms)) [
      | inr (n, hit) ↦ absurd (cc (rw (got, hit) at h))
      | inl miss ↦ absurd (cc (rw (got, miss, ltb-false p.elapsed limit late) at h))
    ]
  ]
  wait_loop_ends accepts limit (b ∷ before) p rest late = λ h.
      elim (Result-cases (received json b)) [
        | inr (x, failed) ↦ absurd (cc (rw failed at h))
        | inl (ms, got) ↦ elim (Option-cases (first_accepted json accepts ms)) [
          | inr (n, hit) ↦ absurd (cc (rw (got, hit) at h))
          | inl miss ↦ elim (Bool-cases (ltb b.elapsed limit)) [
            | inl more ↦ wait_loop_ends accepts limit before p rest late (rw (got, miss, more) at h)
            | inr over ↦ absurd (cc (rw (got, miss, over) at h))
          ]
        ]
      ]
