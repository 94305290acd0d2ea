-- ===== src/Rooms/Names.antt =====
-- The rules for room names that include/tavernmx/room.h states.
use tavernmx.Common.{
  ℕ, ◌≤◌, ◌≡◌, ◌⊎◌, ◌↔◌, refl, true, ◌||◌, [], ◌∷◌, arith, length, all_of, All, ◌==◌,
}
use tavernmx.Common.Text.{Text, isalnum}
use tavernmx.Rooms.{is_valid_room_name, max_room_name_size, front, back}

-- The rules of the comment on `is_valid_room_name`, as it states them.
pub record IsRoomName (name : Text) : Type 0 where
  pub not_empty : 1 ≤ length name
  pub not_larger : length name ≤ max_room_name_size
  pub characters : All (λ c. (isalnum c ≡ true) ⊎ (c ≡ b'-')) name
  pub begins : isalnum (front name) ≡ true
  pub ends : isalnum (back name) ≡ true

all_of-All :
    (s : Text)
    → (all_of (λ c. isalnum c || c == b'-') s ≡ true) ↔ All (λ c. (isalnum c ≡ true) ⊎ (c ≡ b'-')) s
all_of-All [] = (λ _. tt, λ _. refl)
all_of-All (c ∷ s) = ground (arith, all_of-All s)

All-front : (P : ℕ → Type 0) (c : ℕ) (s : Text) → All P (c ∷ s) → P c × P (back (c ∷ s))
All-front P c [] h = (h.0, h.0)
All-front P c (d ∷ s) h = (h.0, (All-front P d s h.1).1)

-- `is_valid_room_name` accepts exactly the names that the documented rules allow: 1 to
-- MAX_ROOM_NAME_SIZE characters, each alphanumeric or a hyphen, the first and the last alphanumeric.
pub is_valid_room_name_iff : (name : Text) → (is_valid_room_name name ≡ true) ↔ IsRoomName name
unfolding is_valid_room_name
is_valid_room_name_iff [] = (λ h. cc, λ h. absurd (omega (arith, h.not_empty)))
is_valid_room_name_iff (c ∷ s) = (
  λ h.
      let parts = (all_of-All (c ∷ s)).0 (ground arith) in
      let ends = All-front _ c s parts in
      record {
        not_empty = omega arith;
        not_larger = ground arith;
        characters = parts;
        begins = ground (arith, ends.0);
        ends = ground (arith, ends.1);
      },
  λ h. ground (arith, (all_of-All (c ∷ s)).1 h.characters, h.not_larger, h.begins, h.ends),
)
