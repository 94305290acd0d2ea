-- ===== src/RingBuffer.antt =====
-- include/tavernmx/ringbuffer.h: the class template RingBuffer<T, Capacity> and its Iterator.
-- `_data` is the list `slots`, a null pointer is `none`; a read through a null pointer or out of
-- range is `none` too. `Capacity` is the first argument; `size_t` arithmetic wraps at 2^64.
mod Segments
pub mod Refine
pub mod Observe
pub mod History
mod Examples
use tavernmx.Common.{
  ℕ, zero, suc, ◌-◌, ◌%◌, Bool, Option, none, some, List, [], ◌∷◌, map, replicate, set, get_elem?,
  ◌==◌, leb, add_size, sub_size, if◌then◌else◌,
}

pub record RingBuffer {ℓ} (A : Type ℓ) : Type ℓ where
  pub slots : List (Option A)
  pub head : ℕ
  pub tail : ℕ

abbrev push_front {ℓ} : {A : Type ℓ} → Option A → Option (List A) → Option (List A)
push_front (some x) (some xs) = some (x ∷ xs)
push_front _ _ = none

abbrev flatten_option {ℓ} : {A : Type ℓ} → Option (Option A) → Option A
flatten_option none = none
flatten_option (some o) = o

-- `Iterator::operator++`, `Iterator::operator--`: the new position.
unfoldable pub next : ℕ → ℕ → ℕ
next capacity pos = if add_size pos 1 == capacity then 0 else add_size pos 1

unfoldable pub prev : ℕ → ℕ → ℕ
prev capacity pos = if pos == 0 then sub_size capacity 1 else pos - 1

module _ {ℓ} {A : Type ℓ} (capacity : ℕ) where
  -- The default constructor.
  unfoldable pub new : RingBuffer A
  new = record { slots = replicate capacity none; head = 0; tail = 0 }

  -- `*_data[_pos]`
  pub deref : RingBuffer A → ℕ → Option A
  deref r pos = flatten_option (get_elem? r.slots pos)

  unfoldable pub empty : RingBuffer A → Bool
  empty r = r.head == r.tail

  unfoldable pub full : RingBuffer A → Bool
  full r = add_size r.head 1 % capacity == r.tail

  -- `T* tail()`
  unfoldable pub tail_elem : RingBuffer A → Option A
  unfolding empty deref
  tail_elem r = if empty r then none else deref r r.tail

  unfoldable pub increment : RingBuffer A → RingBuffer A
  increment r =
      let head = add_size r.head 1 % capacity in
      if r.tail == head
      then record r { head = head; tail = add_size r.tail 1 % capacity }
      else record r { head = head }

  -- The three overloads differ in how the element is made, not in what is stored.
  unfoldable pub insert : RingBuffer A → A → RingBuffer A
  unfolding increment
  insert r value = increment (record r { slots = set r.slots r.head (some value) })

  unfoldable pub reset : RingBuffer A → RingBuffer A
  reset r = record r { slots = map (λ _. none) r.slots; head = r.tail }

  unfoldable pub size : RingBuffer A → ℕ
  unfolding full
  size r =
      if full r
      then capacity
      else if leb r.tail r.head
      then r.head - r.tail
      else sub_size (add_size capacity r.head) r.tail

  -- A range-based `for` over the buffer, from `begin()` to `end()`: the elements visited. A null
  -- dereference stops the walk with `none`, and so does fuel that runs out.
  unfoldable pub walk : ℕ → RingBuffer A → ℕ → Option (List A)
  unfolding deref next
  walk zero r pos = none
  walk (suc fuel) r pos =
      let rest = walk fuel r (next capacity pos) in
      if pos == r.head then some [] else push_front (deref r pos) rest

  unfoldable pub iterate : RingBuffer A → Option (List A)
  unfolding walk
  iterate r = walk capacity r r.tail

  -- The same from `rbegin()` to `rend()`: a reverse iterator reads the element before its position.
  unfoldable pub walk_back : ℕ → RingBuffer A → ℕ → Option (List A)
  unfolding deref prev
  walk_back zero r pos = none
  walk_back (suc fuel) r pos =
      let rest = walk_back fuel r (prev capacity pos) in
      if pos == r.tail then some [] else push_front (deref r (prev capacity pos)) rest

  unfoldable pub iterate_back : RingBuffer A → Option (List A)
  unfolding walk_back
  iterate_back r = walk_back capacity r r.head
