-- ===== src/RingBuffer/Segments.antt =====
-- Runs of filled slots of a ring buffer, and the positions of its iterator.
use native.Mathlib.Nat.{mod-eq_of_lt, mod-eq-sub-mod}
use native.Mathlib.Decide.{dec_lt}
use tavernmx.Common.{
  ℕ, suc, ◌+◌, ◌-◌, ◌%◌, ◌^◌, ◌≤◌, ◌<◌, ◌≡◌, subst, ◌≢◌, ◌∙◌, Option, some, List, [], ◌∷◌, ◌++◌,
  arith, length, set, get_elem?, ltb, if◌then◌else◌, get_elem?-set_ne,
}
use tavernmx.RingBuffer.{next, prev}

-- Position `n`, below twice the capacity, brought into range.
abbrev pub wrap : ℕ → ℕ → ℕ
wrap c n = if ltb n c then n else n - c

module _ {ℓ} {A : Type ℓ} where
  -- The slots from `pos` on hold `xs`.
  abbrev pub Segment : ℕ → List (Option A) → ℕ → List A → Type ℓ
  Segment c slots pos [] = Unit
  Segment c slots pos (x ∷ xs) =
      (get_elem? slots pos ≡ some (some x)) × Segment c slots (wrap c (pos + 1)) xs

  -- The slots before `pos` hold `xs`, the nearest first.
  abbrev pub Behind : ℕ → List (Option A) → ℕ → List A → Type ℓ
  Behind c slots pos [] = Unit
  Behind c slots pos (x ∷ xs) =
      (get_elem? slots (wrap c (pos + c - 1)) ≡ some (some x))
      × Behind c slots (wrap c (pos + c - 1)) xs

pub next-wrap : (c pos : ℕ) → c ≤ 2 ^ 60 → pos < c → next c pos ≡ wrap c (pos + 1)
unfolding next
next-wrap c pos bound h = ground arith

pub prev-wrap : (c pos : ℕ) → c ≤ 2 ^ 60 → pos < c → prev c pos ≡ wrap c (pos + c - 1)
unfolding prev
prev-wrap c pos bound h = ground arith

-- `%` on a position below twice the capacity.
pub mod-wrap : (c n : ℕ) → n < c + c → n % c ≡ wrap c n
mod-wrap c n h = elim (dec_lt n c) [
  | yes p ↦ ground (arith, mod-eq_of_lt p)
  | no p ↦ ground (
    arith,
    mod-eq-sub-mod {n = n} {m = c} (omega arith),
    mod-eq_of_lt {n = n - c} {m = c} (omega arith),
  )
]

pub wrap-lt : (c n : ℕ) → n < c + c → wrap c n < c
wrap-lt c n h = ground arith

pub wrap-wrap :
    (c pos n : ℕ) → pos < c → n < c → wrap c (wrap c (pos + 1) + n) ≡ wrap c (pos + suc n)
wrap-wrap c pos n h k = ground arith

pub wrap-ne : (c pos n : ℕ) → pos < c → 0 < n → n < c → wrap c (pos + n) ≢ pos
wrap-ne c pos n h k l = ground arith

module _ {ℓ} {A : Type ℓ} where
  pub Segment-set :
      (c : ℕ) (slots : List (Option A)) (v : Option A) (pos h : ℕ) (xs : List A)
      → pos < c
      → length xs < c
      → wrap c (pos + length xs) ≡ h
      → Segment c slots pos xs
      → Segment c (set slots h v) pos xs
  Segment-set c slots v pos h [] p l e s = tt
  Segment-set c slots v pos h (x ∷ xs) p l e s = (
    get_elem?-set_ne slots v (ground arith) ∙ s.0,
    Segment-set c slots v (wrap c (pos + 1)) h xs (ground arith) (omega arith)
        (wrap-wrap c pos (length xs) p (omega arith) ∙ e) s.1,
  )

  pub Segment-append :
      (c : ℕ) (slots : List (Option A)) (pos : ℕ) (xs : List A) (v : A)
      → pos < c
      → length xs < c
      → Segment c slots pos xs
      → get_elem? slots (wrap c (pos + length xs)) ≡ some (some v)
      → Segment c slots pos (xs ++ v ∷ [])
  Segment-append c slots pos [] v p l s e =
      (subst (λ q. get_elem? slots q ≡ some (some v)) (ground arith) e, tt)
  Segment-append c slots pos (x ∷ xs) v p l s e = (
    s.0,
    Segment-append c slots (wrap c (pos + 1)) xs v (ground arith) (omega arith) s.1
        (rw (wrap-wrap c pos (length xs) p (omega arith)) e),
  )
