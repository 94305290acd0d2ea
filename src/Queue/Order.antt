-- ===== src/Queue/Order.antt =====
-- FIFO order of a queue under the calls of any number of threads.
use tavernmx.Common.{
  zero, suc, ◌⊎◌, inl, inr, head?, ◌<◌, ℕ, ◌≡◌, ◌∙◌, refl, sym, ap, Option, none, some, List, [],
  ◌∷◌, ◌++◌, arith, append_assoc, append-nil, length,
}
use tavernmx.Queue.{ThreadSafeQueue, new, push, pop, size}

-- A call by some thread (a number). The mutex makes a run of the program a sequence of calls.
pub data Call {ℓ} (T : Type ℓ) : Type ℓ where
  pushes : ℕ → T → Call T
  pops : ℕ → Call T

module _ {ℓ} {T : Type ℓ} where
  abbrev add_popped : Option T → List T → List T
  add_popped none xs = xs
  add_popped (some x) xs = x ∷ xs

  -- `pop` on an empty queue, and on any other.
  abbrev pub PopCases : ThreadSafeQueue T → Type ℓ
  PopCases q =
      ((q.items ≡ []) × (pop q ≡ (none, new)))
      ⊎ ((x : T) × (rest : List T) × (q.items ≡ x ∷ rest)
          × (pop q ≡ (some x, record { items = rest })))

  pop-items : (xs : List T) → PopCases (record { items = xs })
  unfolding pop
  pop-items [] = inl (refl, refl)
  pop-items (x ∷ rest) = inr (x, rest, refl, refl)

  pub pop-PopCases : (q : ThreadSafeQueue T) → PopCases q
  pop-PopCases q = pop-items q.items

  abbrev push_front : T → Option (List T × ThreadSafeQueue T) → Option (List T × ThreadSafeQueue T)
  push_front x none = none
  push_front x (some (xs, q)) = some (x ∷ xs, q)

  -- The elements popped by a sequence of calls, in their order, and the queue after it.
  pub run : ThreadSafeQueue T → List (Call T) → List T × ThreadSafeQueue T
  run q [] = ([], q)
  run q (pushes thread x ∷ calls) = run (push q x) calls
  run q (pops thread ∷ calls) =
      let (x, q') = pop q in let (xs, last) = run q' calls in (add_popped x xs, last)

  abbrev pub pushed : List (Call T) → List T
  pushed [] = []
  pushed (pushes thread x ∷ calls) = x ∷ pushed calls
  pushed (pops thread ∷ calls) = pushed calls

  run-append :
      (q : ThreadSafeQueue T) (calls : List (Call T))
      → (run q calls).0 ++ (run q calls).1.items ≡ q.items ++ pushed calls
  unfolding run push
  run-append q [] = sym (append-nil q.items)
  run-append q (pushes thread x ∷ calls) =
      run-append (push q x) calls ∙ append_assoc q.items (x ∷ []) (pushed calls)
  run-append q (pops thread ∷ calls) = elim (pop-PopCases q) [
    | inl (e, p) ↦ rw (p, e) (run-append (record { items = [] }) calls)
    | inr (x, rest, e, p) ↦ rw (p, e) (ap (◌∷◌ x) (run-append (record { items = rest }) calls))
  ]

  -- However the calls of the threads interleave, the elements popped, followed by those left in the
  -- queue, are the elements that were in the queue at the start, followed by those pushed, in the
  -- order of the pushes: nothing is lost, repeated or overtaken, and a pop fails only on an empty
  -- queue.
  pub run_fifo :
      (q : ThreadSafeQueue T) (calls : List (Call T))
      → ((run q calls).0 ++ (run q calls).1.items ≡ q.items ++ pushed calls)
        × ((pop q).0 ≡ head? q.items)
  run_fifo q calls = (
    run-append q calls,
    elim (pop-PopCases q) [ inl (e, p) ↦ rw (p, e) | inr (x, rest, e, p) ↦ rw (p, e) ],
  )

  -- `while (x = q.pop())`: the elements taken, and the queue after the loop.
  unfoldable pub drain : ℕ → ThreadSafeQueue T → Option (List T × ThreadSafeQueue T)
  drain zero q = none
  drain (suc fuel) q =
      let (x, q') = pop q in
      let rest = drain fuel q' in elim x [ none ↦ some ([], q') | some y ↦ push_front y rest ]

  drain-items :
      (fuel : ℕ) (xs : List T)
      → length xs < fuel
      → drain fuel (record { items = xs }) ≡ some (xs, new)
  unfolding drain pop
  drain-items zero xs h = absurd (omega arith)
  drain-items (suc fuel) [] h = refl
  drain-items (suc fuel) (x ∷ xs) h = ap (push_front x) (drain-items fuel xs (omega arith))

  -- The loop that pops until nothing is left ends, takes all the elements in their order, and
  -- leaves the queue empty: one round more than `size()` is enough.
  pub drain_all :
      (q : ThreadSafeQueue T) (fuel : ℕ) → size q < fuel → drain fuel q ≡ some (q.items, new)
  unfolding size
  drain_all q fuel h = drain-items fuel q.items h
