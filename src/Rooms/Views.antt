-- ===== src/Rooms/Views.antt =====
-- A manager as a map from names to rooms: what `operator[]` returns after each operation.
use mathlib.Core.Option
use mathlib.Core.Bool.{false≢true}
use tavernmx.Common.{
  ◌≡◌, ◌≢◌, ◌∙◌, sym, ap, subst, refl, inl, inr, Bool, true, false, ◌&&◌, not, Option, none, some,
  List, [], ◌∷◌, ◌++◌, All, any_of, if◌then◌else◌, Bool-cases,
}
use tavernmx.Common.Text.{Text, text_eq, text_eq_comm, text_eq_of, text_ne_of, text_eq-false}
use tavernmx.Rooms.{
  IsRoom, RoomManager, name_of, is_destroy_requested, create_room, is_valid_room_name, get,
  find_room, change_room, update_room, kept_rooms, remove_destroyed_rooms,
}
use tavernmx.Rooms.Manager.{IsValid, Distinct, names, KeepsName, remove_destroyed_lem}

abbrev pub is_none {ℓ} : {A : Type ℓ} → Option A → Bool
is_none none = true
is_none (some x) = false

module _ {ℓ} {T : Type ℓ} ⦃room : IsRoom T⦄ where
  pub any_of-find :
      (n : Text) (ts : List T) → not (any_of (text_eq n) (names ts)) ≡ is_none (find_room n ts)
  unfolding find_room
  any_of-find n [] = refl
  any_of-find n (t ∷ ts) = elim (Bool-cases (text_eq (name_of t) n)) [
    | inl e ↦ rw (text_eq_comm n (name_of t), e)
    | inr e ↦ rw (text_eq_comm n (name_of t), e) (any_of-find n ts)
  ]

  find-append :
      (j n : Text) (ts : List T)
      → is_none (find_room n ts) ≡ true
      → find_room j (ts ++ room.make n ∷ [])
        ≡ (if text_eq n j then some (room.make n) else find_room j ts)
  unfolding find_room
  find-append j n [] h =
      ap (λ r. if text_eq r.room_name j then some (room.make n) else none) (room.base-make n)
  find-append j n (t ∷ ts) h = elim (Bool-cases (text_eq (name_of t) n)) [
    | inl e ↦ absurd (false≢true (rw e at h))
    | inr e ↦ elim (Bool-cases (text_eq (name_of t) j)) [
      | inr e' ↦ rw e' (find-append j n ts (rw e at h))
      | inl e' ↦ rw (
        e',
        text_eq-false n j (λ q. text_ne_of (name_of t) n e (text_eq_of (name_of t) j e' ∙ sym q)),
      )
    ]
  ]

  -- `create_room` of a valid name that no room has returns one fresh room under that name, puts it
  -- behind the other rooms and its name behind the other names, and changes what no other name finds;
  -- in any other case it returns nothing and leaves the manager as it was.
  pub get-create_room :
      (m : RoomManager T) (n j : Text)
      → IsValid m
      → let accepted = is_valid_room_name n && is_none (get m n) in
        ((create_room m n).0 ≡ (if accepted then some (room.make n) else none))
        × (get (create_room m n).1 j
            ≡ (if accepted && text_eq n j then some (room.make n) else get m j))
        × ((create_room m n).1 ≡ (
            if accepted
            then record {
              active_rooms = m.active_rooms ++ room.make n ∷ [];
              room_names = m.room_names ++ n ∷ [];
            }
            else m))
  unfolding create_room get
  get-create_room m n j v =
      let seen : not (any_of (text_eq n) m.room_names) ≡ is_none (find_room n m.active_rooms) =
        rw v.mirror (any_of-find n m.active_rooms) in
      elim (Bool-cases (is_valid_room_name n)) [
        | inr bad ↦ (rw bad, rw bad, rw bad)
        | inl good ↦ elim (Bool-cases (any_of (text_eq n) m.room_names)) [
          | inl old ↦
              let taken : is_none (find_room n m.active_rooms) ≡ false = sym (rw old at seen) in
              (rw (good, old, taken), rw (good, old, taken), rw (good, old, taken))
          | inr new ↦
              let free : is_none (find_room n m.active_rooms) ≡ true = sym (rw new at seen) in
              (
                rw (good, new, free),
                rw (good, new, free) (find-append j n m.active_rooms free),
                rw (good, new, free),
              )
        ]
      ]

  find-change_room :
      (n j : Text) (f : T → T) (ts : List T)
      → KeepsName f
      → find_room j (change_room n f ts)
        ≡ (if text_eq n j then Option.map f (find_room j ts) else find_room j ts)
  unfolding find_room change_room
  find-change_room n j f [] k = elim (Bool-cases (text_eq n j)) [ inl e ↦ rw e | inr e ↦ rw e ]
  find-change_room n j f (t ∷ ts) k = elim (Bool-cases (text_eq (name_of t) n)) [
    | inl e ↦ elim (Bool-cases (text_eq n j)) [
      | inl e' ↦
          let same : text_eq (name_of t) j ≡ true = rw (← text_eq_of n j e') e in
          rw (e, e', k t, same)
      | inr e' ↦
          let other : text_eq (name_of t) j ≡ false = rw (text_eq_of (name_of t) n e) e' in
          rw (e, e', k t, other)
    ]
    | inr e ↦ elim (Bool-cases (text_eq (name_of t) j)) [
      | inl e' ↦
          let other : text_eq n j ≡ false =
            text_eq-false n j
              (λ q. text_ne_of (name_of t) n e (text_eq_of (name_of t) j e' ∙ sym q)) in
          rw (e, e', other)
      | inr e' ↦ rw (e, e') (find-change_room n j f ts k)
    ]
  ]

  find-none : (j : Text) (ts : List T) → All (λ k. j ≢ k) (names ts) → find_room j ts ≡ none
  unfolding find_room
  find-none j [] h = refl
  find-none j (t ∷ ts) h = rw (text_eq-false (name_of t) j (λ q. h.0 (sym q))) (find-none j ts h.1)

  abbrev pub unless_destroyed : Option T → Option T
  unless_destroyed none = none
  unless_destroyed (some t) = if is_destroy_requested t then none else some t

  find-kept :
      (j : Text) (ts : List T)
      → Distinct (names ts)
      → find_room j (kept_rooms ts) ≡ unless_destroyed (find_room j ts)
  unfolding find_room kept_rooms
  find-kept j [] d = refl
  find-kept j (t ∷ ts) d = elim (Bool-cases (text_eq (name_of t) j)) [
    | inl e ↦ elim (Bool-cases (is_destroy_requested t)) [
      | inl gone ↦
          rw (e, gone)
            (find-kept j ts d.1
              ∙ ap unless_destroyed (
                  find-none j ts (subst (λ q. All (λ k. q ≢ k) (names ts)) (text_eq_of _ j e) d.0)))
      | inr here ↦ rw (e, here, find_room) (rw e)
    ]
    | inr e ↦ elim (Bool-cases (is_destroy_requested t)) [
      | inl gone ↦ rw (e, gone) (find-kept j ts d.1)
      | inr here ↦ rw (e, here, find_room) (rw e (find-kept j ts d.1))
    ]
  ]

  -- A change made through the room pointer of one name, and the removal of the rooms marked for
  -- destruction, as `operator[]` shows them: the first affects that name alone, and the second makes
  -- exactly the marked rooms disappear.
  pub get-update_remove :
      (m : RoomManager T) (n j : Text) (f : T → T)
      → IsValid m
      → KeepsName f
      → (get (update_room m n f) j ≡ (if text_eq n j then Option.map f (get m j) else get m j))
        × (get (remove_destroyed_rooms m) j ≡ unless_destroyed (get m j))
  unfolding get update_room
  get-update_remove m n j f v k = (
    find-change_room n j f m.active_rooms k,
    rw (remove_destroyed_lem m v) (find-kept j m.active_rooms v.distinct),
  )
