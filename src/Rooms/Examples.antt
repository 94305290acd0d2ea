-- ===== src/Rooms/Examples.antt =====
-- The laws of rooms at a few names.
use tavernmx.Common.{◌≡◌, refl, ◌↔◌, true, none, some, List, [], ◌∷◌, map}
use tavernmx.Common.Text.{Text, lit, text_eq}
use tavernmx.Rooms.{
  Room, new_room, request_destroy, no_rooms, create_room, get, update_room, remove_destroyed_rooms,
  is_valid_room_name, plain_room,
}
use tavernmx.Rooms.Names.{IsRoomName, is_valid_room_name_iff}
use tavernmx.Rooms.Manager.{
  IsValid, Op, creates, updates, removes_destroyed, run, step, manager-IsValid,
}
use tavernmx.Rooms.Views.{get-create_room}

abbrev lobby : Text
lobby = lit "lobby"

abbrev den : Text
den = lit "dragons-den"

abbrev two_rooms : List (Op Room)
two_rooms =
    creates lobby
    ∷ creates den
    ∷ creates lobby
    ∷ updates lobby request_destroy
    ∷ removes_destroyed
    ∷ creates (lit "-bad")
    ∷ []

one_left : map (λ r. r.room_name) (run no_rooms two_rooms).active_rooms ≡ den ∷ []
unfolding run step create_room update_room remove_destroyed_rooms is_valid_room_name text_eq
one_left = refl

is_valid_room_name_iff_example : (is_valid_room_name den ≡ true) ↔ IsRoomName den
is_valid_room_name_iff_example = is_valid_room_name_iff den

manager-IsValid_example : IsValid (run no_rooms two_rooms)
manager-IsValid_example = manager-IsValid two_rooms ((λ t. refl), tt)

abbrev both : List (Op Room)
both = creates lobby ∷ creates den ∷ []

two-IsValid : IsValid (run no_rooms both)
two-IsValid = manager-IsValid _ tt

get-create_room_example :
    ((create_room (run no_rooms both) lobby).0 ≡ none)
    × (get (create_room (run no_rooms both) lobby).1 den ≡ some (new_room den))
    × ((create_room (run no_rooms both) lobby).1 ≡ run no_rooms both)
unfolding run step create_room get is_valid_room_name text_eq
get-create_room_example = get-create_room (run no_rooms both) lobby den two-IsValid
