-- ===== src/RingBuffer/Refine.antt =====
-- The ring buffer against its specification: the last `Capacity - 1` elements inserted.

use native.Mathlib.Nat.{mod-eq_of_lt}
use native.Mathlib.Decide.{ℕ_discrete}
use tavernmx.Common.{
  ℕ, ◌+◌, ◌-◌, ◌^◌, ◌≤◌, ◌<◌, ◌≡◌, ap, subst, ◌∙◌, none, some, List, [], ◌∷◌, ◌++◌, arith, length,
  set, drop, if◌then◌else◌, get_elem?-set_self, length-set, length-replicate, length-append,
  length-drop, length-map, drop-append, drop-drop, append-nil, append_assoc, ◌==◌, sym,
}
use tavernmx.RingBuffer.{RingBuffer, new, insert, reset}
use tavernmx.RingBuffer.Segments.{wrap, Segment, mod-wrap, Segment-set, Segment-append}

-- `r` holds `xs`, oldest first, in consecutive slots that start at the tail and end at the head.
pub record Holds {ℓ} {A : Type ℓ} (c : ℕ) (r : RingBuffer A) (xs : List A) : Type ℓ where
  pub bound : c ≤ 2 ^ 60
  pub slot_count : length r.slots ≡ c
  pub tail_in : r.tail < c
  pub fits : length xs < c
  pub head_at : wrap c (r.tail + length xs) ≡ r.head
  pub filled : Segment c r.slots r.tail xs

-- The last `n` elements.
unfoldable pub last_n {ℓ} : {A : Type ℓ} → ℕ → List A → List A
last_n n xs = drop (length xs - n) xs

module _ {ℓ} {A : Type ℓ} (c : ℕ) where
  pub new-Holds : 0 < c → c ≤ 2 ^ 60 → Holds {A = A} c (new c) []
  unfolding new
  new-Holds h b = record {
    bound = b;
    slot_count = length-replicate c none;
    tail_in = h;
    fits = h;
    head_at = ground arith;
    filled = tt;
  }

  head_in : (r : RingBuffer A) (xs : List A) → Holds c r xs → r.head < c
  head_in r xs h = ground (arith, h.tail_in, h.fits, h.head_at)

  -- The written slot extends the segment.
  Segment-insert :
      (r : RingBuffer A) (xs : List A) (v : A)
      → Holds c r xs
      → Segment c (set r.slots r.head (some v)) r.tail (xs ++ v ∷ [])
  Segment-insert r xs v h =
      Segment-append c _ r.tail xs v h.tail_in h.fits
        (Segment-set c r.slots (some v) r.tail r.head xs h.tail_in h.fits h.head_at h.filled)
        (rw h.head_at (
          get_elem?-set_self r.slots r.head (some v) (omega (arith, h.slot_count, head_in r xs h))))

  -- `increment` in terms of `wrap`.
  insert_lem :
      (r : RingBuffer A) (v : A)
      → c ≤ 2 ^ 60
      → r.head < c
      → r.tail < c
      → insert c r v ≡ record {
        slots = set r.slots r.head (some v);
        head = wrap c (r.head + 1);
        tail = if r.tail == wrap c (r.head + 1) then wrap c (r.tail + 1) else r.tail;
      }
  unfolding insert
  insert_lem r v b p q = ground (
    arith,
    mod-eq_of_lt {n = r.head + 1} {m = 2 ^ 64} (omega arith),
    mod-eq_of_lt {n = r.tail + 1} {m = 2 ^ 64} (omega arith),
    mod-wrap c (r.head + 1) (omega arith),
    mod-wrap c (r.tail + 1) (omega arith),
  )

  -- With a free slot besides the one written, the tail stays.
  pub insert_room :
      (r : RingBuffer A) (xs : List A) (v : A)
      → Holds c r xs
      → length xs + 1 < c
      → Holds c (insert c r v) (xs ++ v ∷ [])
  insert_room r xs v h room = rw (insert_lem r v h.bound (head_in r xs h) h.tail_in) (
      subst
        (λ q.
          Holds c
            (record { slots = set r.slots r.head (some v); head = wrap c (r.head + 1); tail = q })
            (xs ++ v ∷ []))
        {x = r.tail} (ground (arith, h.head_at))
        (record {
          bound = h.bound;
          slot_count = length-set r.slots r.head (some v) ∙ h.slot_count;
          tail_in = h.tail_in;
          fits = omega (arith, length-append xs (v ∷ []));
          head_at = ground (arith, length-append xs (v ∷ []), h.head_at);
          filled = Segment-insert r xs v h;
        }))

  -- Without one, the tail moves on and the oldest element is dropped.
  pub insert_full :
      (r : RingBuffer A) (x : A) (xs : List A) (v : A)
      → Holds c r (x ∷ xs)
      → length (x ∷ xs) + 1 ≡ c
      → Holds c (insert c r v) (xs ++ v ∷ [])
  insert_full r x xs v h room = rw (insert_lem r v h.bound (head_in r (x ∷ xs) h) h.tail_in) (
      subst
        (λ q.
          Holds c
            (record { slots = set r.slots r.head (some v); head = wrap c (r.head + 1); tail = q })
            (xs ++ v ∷ []))
        {x = wrap c (r.tail + 1)} (ground (arith, h.head_at))
        (record {
          bound = h.bound;
          slot_count = length-set r.slots r.head (some v) ∙ h.slot_count;
          tail_in = ground (arith, h.tail_in);
          fits = omega (arith, length-append xs (v ∷ []));
          head_at = ground (arith, length-append xs (v ∷ []), h.head_at);
          filled = (Segment-insert r (x ∷ xs) v h).1;
        }))

  -- A buffer of capacity 1 stays empty.
  insert_one :
      (r : RingBuffer A) (v : A) → Holds {A = A} c r [] → 1 ≡ c → Holds {A = A} c (insert c r v) []
  insert_one r v h one = rw (insert_lem r v h.bound (head_in r [] h) h.tail_in) (record {
    bound = h.bound;
    slot_count = length-set r.slots r.head (some v) ∙ h.slot_count;
    tail_in = ground (arith, h.tail_in);
    fits = h.fits;
    head_at = ground (arith, h.head_at, h.tail_in);
    filled = tt;
  })

  last_n_room :
      (xs : List A) (v : A) → length xs + 1 < c → last_n (c - 1) (xs ++ v ∷ []) ≡ xs ++ v ∷ []
  unfolding last_n
  last_n_room xs v h =
      ap (λ n. drop n (xs ++ v ∷ [])) {y = 0} (omega (arith, length-append xs (v ∷ [])))

  last_n_full :
      (x : A) (xs : List A) (v : A)
      → length (x ∷ xs) + 1 ≡ c
      → last_n (c - 1) (x ∷ (xs ++ v ∷ [])) ≡ xs ++ v ∷ []
  unfolding last_n
  last_n_full x xs v h =
      ap (λ n. drop n (x ∷ (xs ++ v ∷ []))) {y = 1} (omega (arith, length-append xs (v ∷ [])))

  last_n_one : (v : A) → 1 ≡ c → last_n (c - 1) (v ∷ []) ≡ []
  unfolding last_n
  last_n_one v h = ap (λ n. drop n (v ∷ [])) {y = 1} (omega arith)

  -- `insert` appends and keeps the last `Capacity - 1` elements.
  pub insert-Holds :
      (r : RingBuffer A) (xs : List A) (v : A)
      → Holds c r xs
      → Holds c (insert c r v) (last_n (c - 1) (xs ++ v ∷ []))
  insert-Holds r [] v h = elim (ℕ_discrete 1 c) [
    | yes e ↦ rw (last_n_one v e) (insert_one r v h e)
    | no ne ↦
        let room : 1 < c = omega (arith, h.fits) in
        rw (last_n_room [] v room) (insert_room r [] v h room)
  ]
  insert-Holds r (x ∷ xs) v h = elim (ℕ_discrete (length (x ∷ xs) + 1) c) [
    | yes e ↦ rw (last_n_full x xs v e) (insert_full r x xs v h e)
    | no ne ↦
        let room : length (x ∷ xs) + 1 < c = omega (arith, h.fits) in
        rw (last_n_room (x ∷ xs) v room) (insert_room r (x ∷ xs) v h room)
  ]

  last_n-append : (n : ℕ) (xs ys : List A) → last_n n (last_n n xs ++ ys) ≡ last_n n (xs ++ ys)
  unfolding last_n
  last_n-append n xs ys = rw (sym (drop-append (length xs - n) xs ys (omega arith))) (
      rw (drop-drop _ (length xs - n) (xs ++ ys)) (
        ap (λ k. drop k (xs ++ ys))
          (omega (arith, length-drop (length xs - n) (xs ++ ys), length-append xs ys))))

  -- A sequence of insertions, the first first.
  unfoldable pub insert_all : RingBuffer A → List A → RingBuffer A
  insert_all r [] = r
  insert_all r (v ∷ vs) = insert_all (insert c r v) vs

  last_n_all : (xs : List A) → length xs < c → last_n (c - 1) xs ≡ xs
  unfolding last_n
  last_n_all xs h = ap (λ k. drop k xs) {y = 0} (omega arith)

  pub insert_all-Holds :
      (r : RingBuffer A) (xs vs : List A)
      → Holds c r xs
      → Holds c (insert_all r vs) (last_n (c - 1) (xs ++ vs))
  unfolding insert_all
  insert_all-Holds r xs [] h = rw (append-nil xs, last_n_all xs h.fits) h
  insert_all-Holds r xs (v ∷ vs) h =
      subst (Holds c (insert_all (insert c r v) vs))
        (last_n-append (c - 1) (xs ++ v ∷ []) vs
          ∙ ap (last_n (c - 1)) (append_assoc xs (v ∷ []) vs))
        (insert_all-Holds (insert c r v) (last_n (c - 1) (xs ++ v ∷ [])) vs (insert-Holds r xs v h))

  -- `reset` empties the buffer wherever its tail stands.
  pub reset-Holds : (r : RingBuffer A) (xs : List A) → Holds c r xs → Holds c (reset c r) []
  unfolding reset
  reset-Holds r xs h = record {
    bound = h.bound;
    slot_count = length-map (λ _. none) r.slots ∙ h.slot_count;
    tail_in = h.tail_in;
    fits = omega (arith, h.tail_in);
    head_at = ground (arith, h.tail_in);
    filled = tt;
  }
