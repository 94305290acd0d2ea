-- ===== src/Queue.antt =====
-- include/tavernmx/queue.h: ThreadSafeQueue<T>. The `std::queue` is the list of its elements,
-- front first. Every method holds the mutex for its whole body, so a call is one atomic step.
pub mod Order
mod Examples
use tavernmx.Common.{
  ℕ, Bool, true, false, Option, none, some, List, [], ◌∷◌, ◌++◌, length, head?, if◌then◌else◌,
}

pub record ThreadSafeQueue {ℓ} (T : Type ℓ) : Type ℓ where
  pub items : List T

module _ {ℓ} {T : Type ℓ} where
  -- The default constructor.
  abbrev pub new : ThreadSafeQueue T
  new = record { items = [] }

  -- `push` (both overloads) and `emplace` add the element at the end.
  unfoldable pub push : ThreadSafeQueue T → T → ThreadSafeQueue T
  push q item = record { items = q.items ++ item ∷ [] }

  unfoldable pub empty : ThreadSafeQueue T → Bool
  empty q = elim q.items [ [] ↦ true | _ ∷ _ ↦ false ]

  -- `front()` of an empty queue is undefined: `none`.
  unfoldable pub front : ThreadSafeQueue T → Option T
  front q = head? q.items

  unfoldable pub pop : ThreadSafeQueue T → Option T × ThreadSafeQueue T
  pop q = elim q.items [ [] ↦ (none, q) | x ∷ rest ↦ (some x, record { items = rest }) ]

  unfoldable pub size : ThreadSafeQueue T → ℕ
  size q = length q.items

  -- `operator=` on `*this` and `other`, and what each holds after it. `same` says that they are one
  -- object. A moved-from `std::deque` is left empty.
  unfoldable pub copy_assign :
      Bool → ThreadSafeQueue T → ThreadSafeQueue T → ThreadSafeQueue T × ThreadSafeQueue T
  copy_assign same this other = if same then (this, other) else (other, other)

  unfoldable pub move_assign :
      Bool → ThreadSafeQueue T → ThreadSafeQueue T → ThreadSafeQueue T × ThreadSafeQueue T
  move_assign same this other = if same then (this, other) else (other, new)
