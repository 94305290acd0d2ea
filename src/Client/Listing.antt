-- ===== src/Client/Listing.antt =====
-- Names, rooms and marks of the client's room manager.
use tavernmx.Common.{
  ℕ, zero, suc, ◌<◌, ◌≡◌, refl, subst, true, false, not, none, some, List, [], ◌∷◌, any_of,
  get_elem?, length, arith, All, All-append, Bool-cases, Option-cases, inl, inr,
}
use tavernmx.Common.Text.{Text, text_eq, text_eq_refl}
use tavernmx.Messaging.{}
use tavernmx.Rooms
use tavernmx.Rooms.{
  RoomManager, find_room, create_room, update_room, remove_destroyed_rooms, no_rooms, name_of,
  is_destroy_requested, kept_rooms, is_valid_room_name,
}
use tavernmx.Rooms.Manager.{IsValid, create_room-cases, All-kept_rooms}
use tavernmx.Rooms.Views.{is_none, any_of-find}
use tavernmx.Client.{ClientRoom, client_room, index_of}
use tavernmx.Client.Update.{}
use tavernmx.Client.Consistent.{Unmarked}

pub index_of-none :
    (n : Text) (ns : List Text) → index_of n ns ≡ none → any_of (text_eq n) ns ≡ false
unfolding index_of
index_of-none n [] h = refl
index_of-none n (k ∷ ns) h = elim (Bool-cases (text_eq n k)) [
  | inl e ↦ absurd (cc (rw e at h))
  | inr e ↦ elim (Option-cases (index_of n ns)) [
    | inl gone ↦ rw e (index_of-none n ns gone)
    | inr (j, found) ↦ absurd (cc (rw (e, found) at h))
  ]
]

pub get_elem-any_of :
    (n : Text) (ns : List Text) (i : ℕ) → get_elem? ns i ≡ some n → any_of (text_eq n) ns ≡ true
get_elem-any_of n [] i h = absurd (cc)
get_elem-any_of n (k ∷ ns) zero h = let same : k ≡ n = cc in rw (same, text_eq_refl n)
get_elem-any_of n (k ∷ ns) (suc i) h = elim (Bool-cases (text_eq n k)) [
  | inl e ↦ rw e
  | inr e ↦ rw e (get_elem-any_of n ns i h)
]

pub create_room-Unmarked :
    (rooms : RoomManager ClientRoom) (n : Text)
    → IsValid rooms
    → Unmarked rooms
    → Unmarked (create_room rooms n).1
create_room-Unmarked rooms n v u = elim (create_room-cases rooms n v) [
  | inl e ↦ rw e u
  | inr (fresh, e) ↦ rw e (All-append _ rooms.active_rooms _ u (refl, tt))
]

pub find-unmarked :
    (n : Text) (ts : List ClientRoom) (r : ClientRoom)
    → find_room n ts ≡ some r
    → All (λ t. is_destroy_requested t ≡ false) ts
    → is_destroy_requested r ≡ false
unfolding find_room
find-unmarked n [] r e u = absurd (cc)
find-unmarked n (t ∷ ts) r e u = elim (Bool-cases (text_eq (name_of t) n)) [
  | inl q ↦
      let same : t ≡ r = cc (rw q at e) in subst (λ x. is_destroy_requested x ≡ false) same u.0
  | inr q ↦ find-unmarked n ts r (rw q at e) u.1
]

All-second : (P Q : ClientRoom → Type 0) (ts : List ClientRoom) → All (λ t. P t × Q t) ts → All Q ts
All-second P Q [] h = tt
All-second P Q (t ∷ ts) h = (h.0.1, All-second P Q ts h.1)

All-any : (ts : List ClientRoom) → All {0, 0} (λ t. Unit) ts
All-any [] = tt
All-any (t ∷ ts) = (tt, All-any ts)

pub kept-Unmarked :
    (ts : List ClientRoom) → All (λ t. is_destroy_requested t ≡ false) (kept_rooms ts)
kept-Unmarked ts =
    All-second (λ t. Unit) _ (kept_rooms ts) (All-kept_rooms (λ t. Unit) ts (All-any ts))

pub picked :
    (i : ℕ) (ns : List Text)
    → i < length ns
    → get_elem? ns i ≡ some (elim (get_elem? ns i) [ none ↦ [] | some n ↦ n ])
picked i [] h = absurd (omega arith)
picked zero (n ∷ ns) h = refl
picked (suc i) (n ∷ ns) h = picked i ns (omega arith)

-- Whether a name is in the name list, and whether it has a room, come to the same.
pub listed-get :
    (m : RoomManager ClientRoom) (n : Text)
    → IsValid m
    → not (any_of (text_eq n) m.room_names) ≡ is_none (Rooms.get m n)
unfolding Rooms.get
listed-get m n v = rw v.mirror (any_of-find n m.active_rooms)
