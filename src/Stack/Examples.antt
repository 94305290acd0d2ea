-- ===== src/Stack/Examples.antt =====
-- Tests of the stack.
use tavernmx.Common.{ℕ, List, [], ◌∷◌}
use tavernmx.Stack.{ThreadSafeStack}
use tavernmx.Stack.Order.{Call, pushes, pops}

abbrev two : ThreadSafeStack ℕ
two = record { items = 4 ∷ 5 ∷ [] }

abbrev calls : List (Call ℕ)
calls = pushes 6 ∷ pops ∷ pops ∷ pushes 7 ∷ []
