-- ===== src/Queue/Examples.antt =====
-- Tests of the queue.
use tavernmx.Common.{ℕ, ◌≡◌, head?, List, [], ◌∷◌, ◌++◌}
use tavernmx.Queue.{ThreadSafeQueue, pop}
use tavernmx.Queue.Order.{Call, pushes, pops, run, pushed, run_fifo}

abbrev two : ThreadSafeQueue ℕ
two = record { items = 4 ∷ 5 ∷ [] }

-- Thread 1 pushes and thread 2 pops.
abbrev calls : List (Call ℕ)
calls = pushes 1 6 ∷ pops 2 ∷ pops 2 ∷ pushes 1 7 ∷ []

run_fifo_example :
    ((run two calls).0 ++ (run two calls).1.items ≡ two.items ++ pushed calls)
    × ((pop two).0 ≡ head? two.items)
run_fifo_example = run_fifo two calls
