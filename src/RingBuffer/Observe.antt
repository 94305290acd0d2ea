-- ===== src/RingBuffer/Observe.antt =====
-- What the accessors and the iterators of a ring buffer show of the elements that it holds.
use mathlib.Core.List.{reverse_aux}
use native.Mathlib.Nat.{mod-eq_of_lt}
use tavernmx.Common.{
  ℕ, zero, suc, ◌+◌, ◌-◌, ◌^◌, ◌≤◌, ◌<◌, ◌≡◌, subst, ◌∙◌, Option, some, List, [], ◌∷◌, arith,
  length, get_elem?, if◌then◌else◌, head?, reverse, ◌==◌, ==_of_ne, ==_of_eq,
}
use tavernmx.RingBuffer.{
  RingBuffer, iterate, walk, iterate_back, walk_back, empty, full, size, tail_elem, next,
}
use tavernmx.RingBuffer.Segments.{
  wrap, Segment, Behind, mod-wrap, wrap-wrap, wrap-ne, next-wrap, prev-wrap,
}
use tavernmx.RingBuffer.Refine.{Holds}

length-reverse_aux {ℓ} :
    {A : Type ℓ} (xs acc : List A) → length (reverse_aux xs acc) ≡ length xs + length acc
length-reverse_aux [] acc = omega arith
length-reverse_aux (x ∷ xs) acc = omega (arith, length-reverse_aux xs (x ∷ acc))

length-reverse {ℓ} : {A : Type ℓ} (xs : List A) → length (reverse xs) ≡ length xs
length-reverse xs = omega (arith, length-reverse_aux xs [])

module _ {ℓ} {A : Type ℓ} (c : ℕ) where
  walk-Segment :
      (r : RingBuffer A) (xs : List A) (pos fuel : ℕ)
      → c ≤ 2 ^ 60
      → pos < c
      → length xs < c
      → wrap c (pos + length xs) ≡ r.head
      → Segment c r.slots pos xs
      → length xs < fuel
      → walk c fuel r pos ≡ some xs
  unfolding walk
  walk-Segment r xs pos zero b p l e s f = absurd (omega arith)
  walk-Segment r [] pos (suc fuel) b p l e s f = ground arith
  walk-Segment r (x ∷ xs) pos (suc fuel) b p l e s f =
      let rest : walk c fuel r (next c pos) ≡ some xs = rw (next-wrap c pos b p) (
        walk-Segment r xs (wrap c (pos + 1)) fuel b (ground arith) (omega arith)
          (wrap-wrap c pos (length xs) p (omega arith) ∙ e) s.1 (omega arith)) in
      rw (==_of_ne pos r.head (ground (arith, wrap-ne c pos (length (x ∷ xs)) p)), s.0, rest)

  -- A forward walk visits exactly the elements held, oldest first.
  pub iterate-Holds : (r : RingBuffer A) (xs : List A) → Holds c r xs → iterate c r ≡ some xs
  unfolding iterate
  iterate-Holds r xs h =
      walk-Segment r xs r.tail c h.bound h.tail_in h.fits h.head_at h.filled h.fits

  Behind-Segment :
      (slots : List (Option A)) (xs acc : List A) (pos : ℕ)
      → pos < c
      → length xs < c
      → Segment c slots pos xs
      → Behind c slots pos acc
      → Behind c slots (wrap c (pos + length xs)) (reverse_aux xs acc)
  Behind-Segment slots [] acc pos p l s b =
      subst (λ q. Behind c slots q acc) {x = pos} (ground arith) b
  Behind-Segment slots (x ∷ xs) acc pos p l s b =
      subst (λ q. Behind c slots q (reverse_aux xs (x ∷ acc)))
        (wrap-wrap c pos (length xs) p (omega arith))
        (Behind-Segment slots xs (x ∷ acc) (wrap c (pos + 1)) (ground arith) (omega arith) s.1 (
          subst (λ q. (get_elem? slots q ≡ some (some x)) × Behind c slots q acc) {x = pos}
            (ground arith) (s.0, b)))

  pub empty-Holds : (r : RingBuffer A) (xs : List A) → Holds c r xs → empty c r ≡ (length xs == 0)
  unfolding empty
  empty-Holds r xs h = ground (arith, h.head_at, h.fits, h.tail_in)

  pub full-Holds : (r : RingBuffer A) (xs : List A) → Holds c r xs → full c r ≡ (length xs == c - 1)
  unfolding full
  full-Holds r xs h = ground (
    arith,
    mod-wrap c (r.head + 1) (ground (arith, h.head_at, h.fits, h.tail_in)),
    mod-eq_of_lt {n = r.head + 1} {m = 2 ^ 64} (ground (arith, h.head_at, h.fits, h.tail_in)),
    h.head_at,
  )

  -- Size: `Capacity` once full, although one element fewer can be reached.
  pub size-Holds :
      (r : RingBuffer A) (xs : List A)
      → Holds c r xs
      → size c r ≡ (if length xs == c - 1 then c else length xs)
  unfolding size
  size-Holds r xs h = ground (
    arith,
    mod-wrap c (r.head + 1) (ground (arith, h.head_at, h.fits, h.tail_in)),
    mod-eq_of_lt {n = r.head + 1} {m = 2 ^ 64} (ground (arith, h.head_at, h.fits, h.tail_in)),
    h.head_at,
  )

  pub tail_elem-Holds : (r : RingBuffer A) (xs : List A) → Holds c r xs → tail_elem c r ≡ head? xs
  unfolding tail_elem
  tail_elem-Holds r [] h = ground (arith, h.head_at, h.tail_in)
  tail_elem-Holds r (x ∷ xs) h =
      ground (arith, h.filled.0, h.head_at, wrap-ne c r.tail (length (x ∷ xs)) h.tail_in)

  walk_back-Behind :
      (r : RingBuffer A) (xs : List A) (pos fuel : ℕ)
      → c ≤ 2 ^ 60
      → pos < c
      → length xs < c
      → wrap c (r.tail + length xs) ≡ pos
      → r.tail < c
      → Behind c r.slots pos xs
      → length xs < fuel
      → walk_back c fuel r pos ≡ some xs
  unfolding walk_back
  walk_back-Behind r xs pos zero b p l e t s f = absurd (omega arith)
  walk_back-Behind r [] pos (suc fuel) b p l e t s f = rw (==_of_eq pos r.tail (ground arith))
  walk_back-Behind r (x ∷ xs) pos (suc fuel) b p l e t s f =
      let rest : walk_back c fuel r (wrap c (pos + c - 1)) ≡ some xs =
        walk_back-Behind r xs (wrap c (pos + c - 1)) fuel b (ground arith) (omega arith)
          (ground arith) t s.1 (omega arith) in
      rw (
        ==_of_ne pos r.tail (ground (arith, wrap-ne c r.tail (length (x ∷ xs)) t)),
        prev-wrap c pos b p,
        s.0,
        rest,
      )

  -- A reverse walk visits the same elements, newest first.
  pub iterate_back-Holds :
      (r : RingBuffer A) (xs : List A) → Holds c r xs → iterate_back c r ≡ some (reverse xs)
  unfolding iterate_back
  iterate_back-Holds r xs h =
      walk_back-Behind r (reverse xs) r.head c h.bound
        (ground (arith, h.head_at, h.fits, h.tail_in)) (omega (arith, length-reverse xs, h.fits))
        (rw (length-reverse xs) h.head_at) h.tail_in
        (subst (λ q. Behind c r.slots q (reverse xs)) h.head_at
          (Behind-Segment r.slots xs [] r.tail h.tail_in h.fits h.filled tt))
        (omega (arith, length-reverse xs, h.fits))
