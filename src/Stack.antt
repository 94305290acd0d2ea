-- ===== src/Stack.antt =====
-- include/tavernmx/stack.h: ThreadSafeStack<T>. The `std::stack` is the list of its elements, top
-- first. Every method holds the mutex for its whole body, so a call is one atomic step.
pub mod Order
mod Examples
use tavernmx.Common.{
  ℕ, Bool, true, false, Option, none, some, List, [], ◌∷◌, length, head?, if◌then◌else◌,
}

pub record ThreadSafeStack {ℓ} (T : Type ℓ) : Type ℓ where
  pub items : List T

module _ {ℓ} {T : Type ℓ} where
  abbrev pub new : ThreadSafeStack T
  new = record { items = [] }

  -- `push` (both overloads) and `emplace`.
  unfoldable pub push : ThreadSafeStack T → T → ThreadSafeStack T
  push s item = record { items = item ∷ s.items }

  unfoldable pub empty : ThreadSafeStack T → Bool
  empty s = elim s.items [ [] ↦ true | _ ∷ _ ↦ false ]

  -- `top()` of an empty stack is undefined: `none`.
  unfoldable pub top : ThreadSafeStack T → Option T
  top s = head? s.items

  unfoldable pub pop : ThreadSafeStack T → Option T × ThreadSafeStack T
  pop s = elim s.items [ [] ↦ (none, s) | x ∷ rest ↦ (some x, record { items = rest }) ]

  unfoldable pub size : ThreadSafeStack T → ℕ
  size s = length s.items

  -- `operator=` on `*this` and `other`, and what each holds after it; `same` says that they are one
  -- object. A moved-from `std::deque` is left empty.
  unfoldable pub copy_assign :
      Bool → ThreadSafeStack T → ThreadSafeStack T → ThreadSafeStack T × ThreadSafeStack T
  copy_assign same this other = if same then (this, other) else (other, other)

  unfoldable pub move_assign :
      Bool → ThreadSafeStack T → ThreadSafeStack T → ThreadSafeStack T × ThreadSafeStack T
  move_assign same this other = if same then (this, other) else (other, new)
