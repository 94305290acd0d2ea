-- ===== src/RingBuffer/History.antt =====
-- A ring buffer after any sequence of insertions, as a client sees it.
use tavernmx.Common.{
  ℕ, ◌-◌, ◌^◌, ◌≤◌, ◌<◌, ◌≡◌, sym, ◌∙◌, some, List, [], arith, length, ◌==◌, if◌then◌else◌, head?,
  reverse,
}
use tavernmx.RingBuffer.{
  RingBuffer, new, reset, iterate, iterate_back, empty, full, size, tail_elem, next, prev,
}
use tavernmx.RingBuffer.Refine.{Holds, last_n, new-Holds, insert_all, insert_all-Holds, reset-Holds}
use tavernmx.RingBuffer.Observe.{
  iterate-Holds, iterate_back-Holds, size-Holds, tail_elem-Holds, empty-Holds, full-Holds,
}

-- The iterator's `++` and `--` undo one another and stay within the array.
pub next-prev :
    (c pos : ℕ)
    → c ≤ 2 ^ 60
    → pos < c
    → (prev c (next c pos) ≡ pos)
      × (next c (prev c pos) ≡ pos)
      × (next c pos < c)
      × (prev c pos < c)
unfolding next prev
next-prev c pos b p = ground arith

-- The buffer that starts empty and takes `vs`.
abbrev pub filled_with {ℓ} : {A : Type ℓ} → ℕ → List A → RingBuffer A
filled_with c vs = insert_all c (new c) vs

module _ {ℓ} {A : Type ℓ} (c : ℕ) (pos : 0 < c) (bound : c ≤ 2 ^ 60) where
  filled_with-Holds : (vs : List A) → Holds c (filled_with c vs) (last_n (c - 1) vs)
  filled_with-Holds vs = insert_all-Holds c (new c) [] vs (new-Holds c pos bound)

  -- After any insertions, the walk from `begin()` to `end()` visits exactly the last
  -- `Capacity - 1` of the inserted elements, oldest first, and the walk from `rbegin()` to `rend()`
  -- visits them in the reverse order.
  pub iterate-insert_all :
      (vs : List A)
      → (iterate c (filled_with c vs) ≡ some (last_n (c - 1) vs))
        × (iterate_back c (filled_with c vs) ≡ some (reverse (last_n (c - 1) vs)))
  iterate-insert_all vs =
      (iterate-Holds c _ _ (filled_with-Holds vs), iterate_back-Holds c _ _ (filled_with-Holds vs))

  -- After any insertions: `tail()` is the oldest element that is kept; `empty()` holds exactly if
  -- none is kept, `full()` exactly if `Capacity - 1` are; and `size()` is the number kept, except in
  -- a full buffer, where it is `Capacity`.
  pub accessors-insert_all :
      (vs : List A)
      → (tail_elem c (filled_with c vs) ≡ head? (last_n (c - 1) vs))
        × (empty c (filled_with c vs) ≡ (length (last_n (c - 1) vs) == 0))
        × (full c (filled_with c vs) ≡ (length (last_n (c - 1) vs) == c - 1))
        × (size c (filled_with c vs)
            ≡ (if length (last_n (c - 1) vs) == c - 1 then c else length (last_n (c - 1) vs)))
  accessors-insert_all vs =
      let h = filled_with-Holds vs in
      (tail_elem-Holds c _ _ h, empty-Holds c _ _ h, full-Holds c _ _ h, size-Holds c _ _ h)

  -- `reset` forgets every element that was inserted before it, and only those: what is inserted
  -- after it is visited as from a fresh buffer.
  pub iterate-reset :
      (us vs : List A)
      → iterate c (insert_all c (reset c (filled_with c us)) vs) ≡ iterate c (filled_with c vs)
  iterate-reset us vs =
      iterate-Holds c _ _ (insert_all-Holds c _ [] vs (reset-Holds c _ _ (filled_with-Holds us)))
      ∙ sym (iterate-Holds c _ _ (filled_with-Holds vs))
