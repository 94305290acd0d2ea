-- ===== src/Client/Relisting.antt =====
-- The messages that change the room list keep the invariant of the chat window.
use mathlib.Core.Bool.{false≢true}
use tavernmx.Common.{
  ◌≡◌, ◌≢◌, ◌∙◌, refl, sym, ap, subst, true, false, not, some, List, [], ◌∷◌, any_of, Bool-cases,
  Option-cases, inl, inr,
}
use tavernmx.Common.Text.{Text, lit, text_eq, text_eq-false, text_ne_of}
use tavernmx.Common.Result.{Ensures, Ensures-bind, Ensures-ok}
use tavernmx.Json.{Json, or_type_error}
use tavernmx.Messaging.{Msg, text_value}
use tavernmx.Rooms
use tavernmx.Rooms.{
  RoomManager, find_room, create_room, update_room, remove_destroyed_rooms, no_rooms, name_of,
  is_destroy_requested, kept_rooms, is_valid_room_name,
}
use tavernmx.Rooms.Manager.{
  IsValid, no_rooms-IsValid, create_room-IsValid, create_room-cases, update_room-IsValid,
  remove_destroyed-IsValid, remove_destroyed_lem,
}
use tavernmx.Rooms.Views.{get-update_remove, unless_destroyed, is_none}
use tavernmx.Client.{ClientRoom, client_room, update_rooms}
use tavernmx.Client.Update.{
  Client, mark_destroyed, show_rooms, select, issue_room_join_if_needed, create_rooms, on_room_list,
  created, on_room_create, without_room, on_room_destroy,
}
use tavernmx.Client.Consistent.{
  Unmarked, IsShown, SelectionJoined, IsSteady, select-cases, show_rooms-IsShown, select-IsShown,
  issue-lem,
}
use tavernmx.Client.Listing.{
  index_of-none, get_elem-any_of, create_room-Unmarked, find-unmarked, kept-Unmarked, listed-get,
}

module _ (json : Json) where
  open json use {Value}

  create_rooms-lem :
      (rooms : RoomManager ClientRoom) (vs : List Value)
      → IsValid rooms
      → Unmarked rooms
      → Ensures (λ r. IsValid r × Unmarked r) (create_rooms json rooms vs)
  unfolding create_rooms
  create_rooms-lem rooms [] v u = (v, u)
  create_rooms-lem rooms (x ∷ xs) v u =
      Ensures-bind _ (or_type_error (json.get_text x)) _ (λ name e.
        create_rooms-lem (create_room rooms name).1 xs (create_room-IsValid rooms name v)
          (create_room-Unmarked rooms name v u))

  -- A new list of rooms: what was selected is selected again if it can be, and is joined.
  relisted-lem :
      (current : Text) (c : Client Value)
      → IsValid c.rooms
      → Unmarked c.rooms
      → let d = select current (show_rooms c) in
        Ensures IsSteady (issue_room_join_if_needed json d.screen.current_room_name d)
  relisted-lem current c v u =
      issue-lem json _ (select-IsShown current (show_rooms c) (show_rooms-IsShown c v u))

  pub on_room_list-lem :
      (m : Msg json) (c : Client Value) → Ensures IsSteady (on_room_list json m c)
  unfolding on_room_list
  on_room_list-lem m c =
      let rooms = create_rooms json no_rooms (json.elements m.values) in
      Ensures-bind IsSteady rooms _ (λ r e.
        let (v, u) =
          Ensures-ok (λ q. IsValid q × Unmarked q) rooms
            (create_rooms-lem no_rooms (json.elements m.values) no_rooms-IsValid tt) e in
        relisted-lem c.screen.current_room_name (record c { rooms = r }) v u)

  created-lem :
      (name : Text) (c : Client Value)
      → IsSteady c
      → Ensures IsSteady (created json c.screen.current_room_name c (create_room c.rooms name))
  unfolding created
  created-lem name c k =
      let v = create_room-IsValid c.rooms name k.0.rooms_valid in
      let u = create_room-Unmarked c.rooms name k.0.rooms_valid k.0.unmarked in
      elim (create_room-cases c.rooms name k.0.rooms_valid) [
        | inl e ↦ rw e k
        | inr (fresh, e) ↦ rw e (relisted-lem c.screen.current_room_name _ (rw e at v) (rw e at u))
      ]

  pub on_room_create-lem :
      (m : Msg json) (c : Client Value) → IsSteady c → Ensures IsSteady (on_room_create json m c)
  unfolding on_room_create
  on_room_create-lem m c k =
      Ensures-bind IsSteady (text_value json m (lit "room_name")) _ (λ name e. created-lem name c k)

  -- The selected room is known, wherever any room is.
  selected-known :
      (c : Client Value) (n : Text) (room : ClientRoom)
      → IsShown c
      → Rooms.get c.rooms n ≡ some room
      → is_none (Rooms.get c.rooms c.screen.current_room_name) ≡ false
  unfolding Rooms.get
  selected-known c n room k found = elim k.selected [
    | inl (no_names, none_selected) ↦
        let no_rooms_listed : c.rooms.room_names ≡ [] = sym k.shown ∙ no_names in
        let unknown : true ≡ is_none (Rooms.get c.rooms n) =
          rw no_rooms_listed at (listed-get c.rooms n k.rooms_valid) in
        absurd (false≢true (sym (rw found at unknown)))
    | inr at_index ↦
        let listed : any_of (text_eq c.screen.current_room_name) c.screen.room_names ≡ true =
          get_elem-any_of c.screen.current_room_name c.screen.room_names _ at_index in
        sym (listed-get c.rooms c.screen.current_room_name k.rooms_valid)
        ∙ ap not (subst (λ l. any_of (text_eq c.screen.current_room_name) l ≡ true) k.shown listed)
  ]

  -- The room that was selected survives the destruction of another.
  get-without_room :
      (n j : Text) (rooms : RoomManager ClientRoom)
      → IsValid rooms
      → j ≢ n
      → Rooms.get (without_room n rooms) j ≡ unless_destroyed (Rooms.get rooms j)
  get-without_room n j rooms v ne =
      let marked = update_room rooms n mark_destroyed in
      let v' = update_room-IsValid rooms n mark_destroyed (λ t. refl) v in
      let other : text_eq n j ≡ false = text_eq-false n j (λ q. ne (sym q)) in
      let same : Rooms.get marked j ≡ Rooms.get rooms j =
        (get-update_remove rooms n j mark_destroyed v (λ t. refl)).0 ∙ rw other in
      (get-update_remove marked n j (λ t. t) v' (λ t. refl)).1 ∙ ap unless_destroyed same

  survives :
      (m : Msg json) (n j : Text) (rooms : RoomManager ClientRoom) (r : ClientRoom)
      → IsValid rooms
      → Unmarked rooms
      → j ≢ n
      → Rooms.get rooms j ≡ some r
      → Rooms.get (without_room n rooms) j ≡ some r
  unfolding Rooms.get
  survives m n j rooms r v u ne found =
      let here = find-unmarked j rooms.active_rooms r found u in
      get-without_room n j rooms v ne ∙ rw (found, here) refl

  without_room-Unmarked :
      (n : Text) (rooms : RoomManager ClientRoom) → IsValid rooms → Unmarked (without_room n rooms)
  without_room-Unmarked n rooms v =
      let marked = update_room rooms n mark_destroyed in
      let v' = update_room-IsValid rooms n mark_destroyed (λ t. refl) v in
      rw (remove_destroyed_lem marked v') (kept-Unmarked marked.active_rooms)

  -- The room list without a room, and the selected room selected again.
  reselected-lem :
      (m : Msg json) (n : Text) (room : ClientRoom) (c : Client Value)
      → IsSteady c
      → Rooms.get c.rooms n ≡ some room
      → c.screen.current_room_name ≢ n
      → IsShown (show_rooms (record c { rooms = without_room n c.rooms }))
      → IsSteady (
          select c.screen.current_room_name
            (show_rooms (record c { rooms = without_room n c.rooms })))
  unfolding update_rooms
  reselected-lem m n room c k found ne shown =
      let current = c.screen.current_room_name in
      let listed = show_rooms (record c { rooms = without_room n c.rooms }) in
      let known = selected-known c n room k.0 found in
      elim (Option-cases (Rooms.get c.rooms current)) [
        | inl gone ↦ absurd (false≢true (sym (rw gone at known)))
        | inr (chosen, at_current) ↦
            let kept =
              survives m n current c.rooms chosen k.0.rooms_valid k.0.unmarked ne at_current in
            elim (select-cases current listed.screen) [
              | inl (unlisted, same) ↦
                  let found_no : any_of (text_eq current) (without_room n c.rooms).room_names
                      ≡ false =
                    index_of-none current _ unlisted in
                  let agree = listed-get (without_room n c.rooms) current shown.rooms_valid in
                  absurd (false≢true (sym (rw (found_no, kept) at agree)))
              | inr (i, found_at, to) ↦ (
                select-IsShown current listed shown,
                subst (λ s. SelectionJoined (record listed { screen = s })) (sym to)
                    (λ r e. k.1 r (at_current ∙ (sym kept ∙ e))),
              )
            ]
      ]

  pub on_room_destroy-lem :
      (m : Msg json) (c : Client Value) → IsSteady c → Ensures IsSteady (on_room_destroy json m c)
  unfolding on_room_destroy
  on_room_destroy-lem m c k =
      Ensures-bind IsSteady (text_value json m (lit "room_name")) _ (λ name e.
        elim (Option-cases (Rooms.get c.rooms name)) [
          | inl gone ↦ rw gone k
          | inr (room, found) ↦
              let marked_valid =
                update_room-IsValid c.rooms name mark_destroyed (λ t. refl) k.0.rooms_valid in
              let shown =
                show_rooms-IsShown (record c { rooms = without_room name c.rooms })
                  (remove_destroyed-IsValid _ marked_valid)
                  (without_room-Unmarked name c.rooms k.0.rooms_valid) in
              elim (Bool-cases (text_eq c.screen.current_room_name name)) [
                | inl same ↦ rw (found, same) (issue-lem json _ shown)
                | inr other ↦
                    rw (found, other)
                      (reselected-lem m name room c k found (text_ne_of _ name other) shown)
              ]
        ])
