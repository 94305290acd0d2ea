-- ===== src/Rooms.antt =====
-- include/tavernmx/room.h and src/shared/room.cpp: room names, the class Room, and the class
-- template RoomManager<T>. A `std::shared_ptr<T>` that the manager returns points into
-- `active_rooms`; a change through it is `update_room` at the room's name.
pub mod Names
pub mod Manager
pub mod Views
mod Examples
use tavernmx.Common.{
  refl, ℕ, suc, ◌≡◌, Bool, true, false, ◌&&◌, ◌||◌, not, Option, none, some, List, [], ◌∷◌, ◌++◌,
  map, ◌-◌, length, all_of, any_of, ltb, ◌==◌, if◌then◌else◌,
}
use tavernmx.Common.Text.{Text, text_eq, is_empty, isalnum}

abbrev pub max_room_name_size : ℕ
max_room_name_size = 25

-- `front()` and `back()`; of an empty string they are undefined, and are not called there.
abbrev pub front : Text → ℕ
front [] = 0
front (c ∷ s) = c

abbrev pub back : Text → ℕ
back [] = 0
back (c ∷ []) = c
back (c ∷ d ∷ s) = back (d ∷ s)

unfoldable pub is_valid_room_name : Text → Bool
is_valid_room_name room_name =
    if is_empty room_name || ltb max_room_name_size (length room_name)
    then false
    else if front room_name == b'-' || back room_name == b'-'
    then false
    else all_of (λ c. isalnum c || c == b'-') room_name

pub record Room : Type 0 where
  pub room_name : Text
  pub destroy_requested : Bool

-- `explicit Room(std::string_view room_name)`
abbrev pub new_room : Text → Room
new_room name = record { room_name = name; destroy_requested = false }

abbrev pub request_destroy : Room → Room
request_destroy r = record r { destroy_requested = true }

-- The concept IsRoom: a class derived from Room that can be made from a name.
pub record IsRoom {ℓ} (T : Type ℓ) : Type ℓ where
  pub base : T → Room
  pub with_base : T → Room → T
  pub make : Text → T
  pub base-make : (name : Text) → base (make name) ≡ new_room name
  pub base-with_base : (t : T) (r : Room) → base (with_base t r) ≡ r

pub record RoomManager {ℓ} (T : Type ℓ) : Type ℓ where
  pub active_rooms : List T
  pub room_names : List Text

-- The class Room itself.
instance abbrev pub plain_room : IsRoom Room
plain_room = record {
  base = λ t. t;
  with_base = λ t r. r;
  make = new_room;
  base-make = λ name. refl;
  base-with_base = λ t r. refl;
}

module _ {ℓ} {T : Type ℓ} ⦃room : IsRoom T⦄ where
  abbrev pub name_of : T → Text
  name_of t = (room.base t).room_name

  abbrev pub is_destroy_requested : T → Bool
  is_destroy_requested t = (room.base t).destroy_requested

  -- The default constructor.
  abbrev pub no_rooms : RoomManager T
  no_rooms = record { active_rooms = []; room_names = [] }

  -- `create_room`: the room, if it was created, and the manager after the call.
  unfoldable pub create_room : RoomManager T → Text → Option T × RoomManager T
  create_room m name =
      if not (is_valid_room_name name)
      then (none, m)
      else if any_of (text_eq name) m.room_names
      then (none, m)
      else (
        some (room.make name),
        record {
          active_rooms = m.active_rooms ++ room.make name ∷ [];
          room_names = m.room_names ++ name ∷ [];
        },
      )

  unfoldable pub find_room : Text → List T → Option T
  find_room name [] = none
  find_room name (t ∷ ts) = if text_eq (name_of t) name then some t else find_room name ts

  -- `operator[]`
  unfoldable pub get : RoomManager T → Text → Option T
  unfolding find_room
  get m name = find_room name m.active_rooms

  -- A change of the first room of that name.
  unfoldable pub change_room : Text → (T → T) → List T → List T
  change_room name f [] = []
  change_room name f (t ∷ ts) =
      if text_eq (name_of t) name then f t ∷ ts else t ∷ change_room name f ts

  -- A change made through the pointer that `operator[]` returns for `name`.
  unfoldable pub update_room : RoomManager T → Text → (T → T) → RoomManager T
  unfolding change_room
  update_room m name f = record m { active_rooms = change_room name f m.active_rooms }

  abbrev pub clear : RoomManager T → RoomManager T
  clear m = no_rooms

  -- `std::erase_if` by `is_destroy_requested`: what is left.
  unfoldable pub kept_rooms : List T → List T
  kept_rooms [] = []
  kept_rooms (t ∷ ts) =
      let rest = kept_rooms ts in if is_destroy_requested t then rest else t ∷ rest

  unfoldable pub remove_destroyed_rooms : RoomManager T → RoomManager T
  unfolding kept_rooms
  remove_destroyed_rooms m =
      let kept = kept_rooms m.active_rooms in
      if ltb 0 (length m.active_rooms - length kept)
      then record { active_rooms = kept; room_names = map name_of kept }
      else record m { active_rooms = kept }

  abbrev pub size : RoomManager T → ℕ
  size m = length m.active_rooms
