-- ===== src/Client/Each.antt =====
-- What holds of each room of a client, and how the operations of its manager (src/shared/room.cpp) keep
-- it.
use tavernmx.Common.{
  ◌≡◌, some, List, [], ◌∷◌, length, any_of, All, All-append, Bool-cases, inl, inr, ltb, ◌-◌, subst,
}
use tavernmx.Common.Text.{Text, text_eq, text_eq_of}
use tavernmx.Messaging.{}
use tavernmx.Rooms.{
  RoomManager, find_room, change_room, create_room, remove_destroyed_rooms, name_of, kept_rooms,
  is_valid_room_name,
}
use tavernmx.Rooms.Manager.{All-kept_rooms}
use tavernmx.Client.{ClientRoom, client_room, new_client_room}
use tavernmx.Client.Update.{}

pub All-weaken {ℓ κ} :
    {P : ClientRoom → Type ℓ} {Q : ClientRoom → Type κ}
    → ((r : ClientRoom) → P r → Q r)
    → (rs : List ClientRoom) → All P rs
    → All Q rs
All-weaken f [] h = tt
All-weaken f (r ∷ rs) h = (f r h.0, All-weaken f rs h.1)

-- A change of one room keeps what holds of all, if it does so for that room.
pub change-All :
    (P : ClientRoom → Type 0) (f : ClientRoom → ClientRoom) (n : Text) (rs : List ClientRoom)
    → ((r : ClientRoom) → name_of r ≡ n → P r → P (f r))
    → All P rs
    → All P (change_room n f rs)
unfolding change_room
change-All P f n [] g h = tt
change-All P f n (r ∷ rs) g h = elim (Bool-cases (text_eq (name_of r) n)) [
  | inl e ↦ rw e (g r (text_eq_of (name_of r) n e) h.0, h.1)
  | inr e ↦ rw e (h.0, change-All P f n rs g h.1)
]

pub remove-All :
    (P : ClientRoom → Type 0) (m : RoomManager ClientRoom)
    → All P m.active_rooms
    → All P (remove_destroyed_rooms m).active_rooms
unfolding remove_destroyed_rooms
remove-All P m h =
    elim (Bool-cases (ltb 0 (length m.active_rooms - length (kept_rooms m.active_rooms)))) [
      | inl e ↦
          rw e (
            All-weaken (λ r q. q.0) (kept_rooms m.active_rooms) (All-kept_rooms P m.active_rooms h))
      | inr e ↦
          rw e (
            All-weaken (λ r q. q.0) (kept_rooms m.active_rooms) (All-kept_rooms P m.active_rooms h))
    ]

pub create-All :
    (P : ClientRoom → Type 0) (m : RoomManager ClientRoom) (n : Text)
    → P (new_client_room n)
    → All P m.active_rooms
    → All P (create_room m n).1.active_rooms
unfolding create_room
create-All P m n p h = elim (Bool-cases (is_valid_room_name n)) [
  | inr e ↦ rw e h
  | inl e ↦ elim (Bool-cases (any_of (text_eq n) m.room_names)) [
    | inl e' ↦ rw (e, e') h
    | inr e' ↦ rw (e, e') (All-append P m.active_rooms (new_client_room n ∷ []) h (p, tt))
  ]
]

pub find-All :
    (P : ClientRoom → Type 0) (n : Text) (rs : List ClientRoom) (r : ClientRoom)
    → find_room n rs ≡ some r
    → All P rs
    → P r
unfolding find_room
find-All P n [] r e h = absurd (cc)
find-All P n (t ∷ ts) r e h = elim (Bool-cases (text_eq (name_of t) n)) [
  | inl q ↦ subst P (cc (rw q at e)) h.0
  | inr q ↦ find-All P n ts r (rw q at e) h.1
]
