-- ===== src/RingBuffer/Examples.antt =====
-- Ring buffers of a few numbers: tests from tests/ringbuffer.cpp, and the laws at inputs.
use tavernmx.Common.{ℕ, ◌≡◌, refl, some, List, [], ◌∷◌, arith}
use tavernmx.RingBuffer.{new, insert, iterate, iterate_back, tail_elem}
use tavernmx.RingBuffer.Refine.{insert_all, last_n}
use tavernmx.RingBuffer.History.{iterate-insert_all}

abbrev fifteen : List ℕ
fifteen = 0 ∷ 1 ∷ 2 ∷ 3 ∷ 4 ∷ 5 ∷ 6 ∷ 7 ∷ 8 ∷ 9 ∷ 10 ∷ 11 ∷ 12 ∷ 13 ∷ 14 ∷ []

wrapped_test : tail_elem 10 (insert_all 10 (new 10) fifteen) ≡ some 6
unfolding insert_all insert tail_elem new
wrapped_test = refl

iterate-insert_all_example :
    (iterate 4 (insert_all 4 (new 4) fifteen) ≡ some (12 ∷ 13 ∷ 14 ∷ []))
    × (iterate_back 4 (insert_all 4 (new 4) fifteen) ≡ some (14 ∷ 13 ∷ 12 ∷ []))
unfolding last_n
iterate-insert_all_example = iterate-insert_all 4 (omega arith) (omega arith) fifteen
