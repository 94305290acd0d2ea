-- ===== src/Stack/Order.antt =====
-- LIFO order of a stack: calls above a mark do not touch what lies below it.
use tavernmx.Common.{◌≡◌, refl, Option, none, some, List, [], ◌∷◌, ◌++◌}
use tavernmx.Stack.{ThreadSafeStack, push, pop}

pub data Call {ℓ} (T : Type ℓ) : Type ℓ where
  pushes : T → Call T
  pops : Call T

module _ {ℓ} {T : Type ℓ} where
  -- What each pop of a sequence of calls returns, and the stack after the calls.
  unfoldable pub run : ThreadSafeStack T → List (Call T) → List (Option T) × ThreadSafeStack T
  run s [] = ([], s)
  run s (pushes x ∷ calls) = run (push s x) calls
  run s (pops ∷ calls) = let (x, s') = pop s in let (xs, last) = run s' calls in (x ∷ xs, last)

  abbrev pub under : List T → ThreadSafeStack T → ThreadSafeStack T
  under base s = record { items = s.items ++ base }

  -- No pop in the list found the stack empty.
  abbrev pub AllSome : List (Option T) → Type 0
  AllSome [] = Unit
  AllSome (none ∷ xs) = ⊥
  AllSome (some x ∷ xs) = AllSome xs

  run-items :
      (xs base : List T) (calls : List (Call T))
      → AllSome (run (record { items = xs }) calls).0
      → run (record { items = xs ++ base }) calls
        ≡ ((run (record { items = xs }) calls).0, under base (run (record { items = xs }) calls).1)
  unfolding run push pop
  run-items xs base [] h = refl
  run-items xs base (pushes x ∷ calls) h = run-items (x ∷ xs) base calls h
  run-items [] base (pops ∷ calls) h = absurd h
  run-items (x ∷ xs) base (pops ∷ calls) h = rw (run-items xs base calls h)

  -- Calls that never find their own part of the stack empty return the same elements and leave the
  -- same part, whatever lies below it; and what lies below stays as it was.
  pub run_frame :
      (s : ThreadSafeStack T) (base : List T) (calls : List (Call T))
      → AllSome (run s calls).0
      → run (under base s) calls ≡ ((run s calls).0, under base (run s calls).1)
  run_frame s base calls h = run-items s.items base calls h
