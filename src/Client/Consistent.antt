-- ===== src/Client/Consistent.antt =====
-- What the chat window shows agrees with the rooms that the client knows, and the selected room is
-- joined: the invariant, and how selecting and joining establish it.
use tavernmx.Common.{
  ℕ, zero, suc, ◌≡◌, ◌∙◌, refl, sym, ap, subst, true, false, none, some, List, [], ◌∷◌, get_elem?,
  All, Bool-cases, Option-cases, ◌⊎◌, inl, inr,
}
use tavernmx.Common.Text.{Text, text_eq, text_eq_of, text_eq_refl, is_empty}
use tavernmx.Common.Result.{Ensures}
use tavernmx.Json.{Json}
use tavernmx.Messaging.{}
use tavernmx.Rooms
use mathlib.Core.Bool.{false≢true}
use tavernmx.Rooms.Views.{get-update_remove}
use tavernmx.Rooms.{
  RoomManager, find_room, change_room, is_destroy_requested, is_valid_room_name, create_room,
  update_room, remove_destroyed_rooms, no_rooms, name_of,
}
use tavernmx.Rooms.Manager.{names, IsValid, update_room-IsValid}
use tavernmx.Client.{
  ClientRoom, client_room, ChatScreen, index_of, select_room_by_name, update_rooms,
}
use tavernmx.Client.Update.{
  Client, set_joined, show_rooms, select, join_and_ask, issue_room_join_if_needed,
}

-- The selected index and name belong together; without rooms no name is selected.
abbrev pub Selected : ChatScreen → Type 0
Selected s =
    ((s.room_names ≡ []) × (s.current_room_name ≡ []))
    ⊎ (get_elem? s.room_names s.current_room_index ≡ some s.current_room_name)

-- No room waits for its removal.
abbrev pub Unmarked : RoomManager ClientRoom → Type 0
Unmarked m = All (λ t. is_destroy_requested t ≡ false) m.active_rooms

-- The room list shown is the name list of the manager, which is valid.
pub record IsShown {V : Type 0} (c : Client V) : Type 0 where
  pub rooms_valid : IsValid c.rooms
  pub unmarked : Unmarked c.rooms
  pub shown : c.screen.room_names ≡ c.rooms.room_names
  pub selected : Selected c.screen

-- The selected room, if there is one, has been joined.
abbrev pub SelectionJoined : {V : Type 0} → Client V → Type 0
SelectionJoined c =
    (r : ClientRoom) → Rooms.get c.rooms c.screen.current_room_name ≡ some r → r.is_joined ≡ true

-- Both parts of the invariant.
abbrev pub IsSteady : {V : Type 0} → Client V → Type 0
IsSteady c = IsShown c × SelectionJoined c

index_of-get :
    (name : Text) (names : List Text) (i : ℕ)
    → index_of name names ≡ some i
    → get_elem? names i ≡ some name
unfolding index_of
index_of-get name [] i h = absurd (cc)
index_of-get name (n ∷ ns) i h = elim (Bool-cases (text_eq name n)) [
  | inl e ↦
      let at_0 : zero ≡ i = cc (rw e at h) in
      subst (λ k. get_elem? (n ∷ ns) k ≡ some name) at_0 (ap some (sym (text_eq_of name n e)))
  | inr e ↦ elim (Option-cases (index_of name ns)) [
    | inl gone ↦ absurd (cc (rw (e, gone) at h))
    | inr (j, found) ↦
        let later : suc j ≡ i = cc (rw (e, found) at h) in
        subst (λ k. get_elem? (n ∷ ns) k ≡ some name) later (index_of-get name ns j found)
  ]
]

update_rooms-Selected : (names : List Text) (s : ChatScreen) → Selected (update_rooms names s)
unfolding update_rooms
update_rooms-Selected [] s = inl (refl, refl)
update_rooms-Selected (n ∷ ns) s = inr refl

-- Selecting a name that is not listed changes nothing.
pub select-cases :
    (name : Text) (s : ChatScreen)
    → ((index_of name s.room_names ≡ none) × (select_room_by_name name s ≡ s))
      ⊎ ((i : ℕ) × (index_of name s.room_names ≡ some i)
          × (select_room_by_name name s
              ≡ record s { current_room_index = i; current_room_name = name }))
unfolding select_room_by_name
select-cases name s = elim (Option-cases (index_of name s.room_names)) [
  | inl gone ↦ inl (gone, rw (select_room_by_name, gone))
  | inr (i, found) ↦ inr (i, found, rw (select_room_by_name, found))
]

joined-Unmarked :
    (n : Text) (ts : List ClientRoom)
    → All (λ t. is_destroy_requested t ≡ false) ts
    → All (λ t. is_destroy_requested t ≡ false) (change_room n set_joined ts)
unfolding change_room
joined-Unmarked n [] h = tt
joined-Unmarked n (t ∷ ts) h = elim (Bool-cases (text_eq (name_of t) n)) [
  | inl e ↦ rw e h
  | inr e ↦ rw e (h.0, joined-Unmarked n ts h.1)
]

empty-invalid : (n : Text) → is_empty n ≡ true → is_valid_room_name n ≡ true → ⊥
unfolding is_valid_room_name
empty-invalid n e v = false≢true (rw e at v)

-- A room that is found has the name that was looked for, and that name is valid.
find-name :
    (n : Text) (ts : List ClientRoom) (r : ClientRoom)
    → find_room n ts ≡ some r
    → All (λ k. is_valid_room_name k ≡ true) (names ts)
    → (name_of r ≡ n) × (is_valid_room_name n ≡ true)
unfolding find_room
find-name n [] r e v = absurd (cc)
find-name n (t ∷ ts) r e v = elim (Bool-cases (text_eq (name_of t) n)) [
  | inl q ↦
      let same : t ≡ r = cc (rw q at e) in
      (
        ap name_of (sym same) ∙ text_eq_of (name_of t) n q,
        subst (λ k. is_valid_room_name k ≡ true) (text_eq_of (name_of t) n q) v.0,
      )
  | inr q ↦ find-name n ts r (rw q at e) v.1
]

module _ {V : Type 0} where
  -- A new room list on the screen.
  pub show_rooms-IsShown :
      (c : Client V) → IsValid c.rooms → Unmarked c.rooms → IsShown (show_rooms c)
  unfolding update_rooms
  show_rooms-IsShown c v u = record {
    rooms_valid = v;
    unmarked = u;
    shown = refl;
    selected = update_rooms-Selected c.rooms.room_names c.screen;
  }

  pub select-IsShown : (name : Text) (c : Client V) → IsShown c → IsShown (select name c)
  select-IsShown name c k = elim (select-cases name c.screen) [
    | inl (gone, same) ↦ subst (λ s. IsShown (record c { screen = s })) (sym same) k
    | inr (i, found, to) ↦
        subst (λ s. IsShown (record c { screen = s })) (sym to)
          (record {
            rooms_valid = k.rooms_valid;
            unmarked = k.unmarked;
            shown = k.shown;
            selected = inr (index_of-get name c.screen.room_names i found);
          })
  ]

module _ (json : Json) where
  open json use {Value}

  join_and_ask-lem :
      (room : ClientRoom) (c : Client Value)
      → IsShown c
      → Rooms.get c.rooms c.screen.current_room_name ≡ some room
      → Ensures IsSteady (join_and_ask json room c)
  unfolding join_and_ask update_room Rooms.get
  join_and_ask-lem room c k found =
      let name = c.screen.current_room_name in
      let named = (find-name name c.rooms.active_rooms room found k.rooms_valid.valid).0 in
      let after = (get-update_remove c.rooms name name set_joined k.rooms_valid (λ t. refl)).0 in
      (
        record {
          rooms_valid =
              update_room-IsValid c.rooms (name_of room) set_joined (λ t. refl) k.rooms_valid;
          unmarked = joined-Unmarked (name_of room) c.rooms.active_rooms k.unmarked;
          shown = k.shown;
          selected = k.selected;
        },
        λ r e.
            let at_name : Rooms.get (update_room c.rooms name set_joined) name ≡ some r =
              subst (λ q. Rooms.get (update_room c.rooms q set_joined) name ≡ some r) named e in
            let to : Rooms.get (update_room c.rooms name set_joined) name ≡ some (set_joined room) =
              after ∙ rw (text_eq_refl name, found) refl in
            let same : set_joined room ≡ r = cc (at_name, to) in ap (λ q. q.is_joined) (sym same),
      )

  -- Whatever is selected is joined afterwards.
  pub issue-lem :
      (c : Client Value)
      → IsShown c
      → Ensures IsSteady (issue_room_join_if_needed json c.screen.current_room_name c)
  unfolding issue_room_join_if_needed Rooms.get
  issue-lem c k =
      let name = c.screen.current_room_name in
      let named = find-name name c.rooms.active_rooms in
      elim (Bool-cases (is_empty name)) [
        | inl none_given ↦
            rw none_given
              (k, λ r e. absurd (empty-invalid name none_given (named r e k.rooms_valid.valid).1))
        | inr given ↦ elim (Option-cases (Rooms.get c.rooms name)) [
          | inl gone ↦ rw (given, gone) (k, λ r e. absurd (cc (gone, e)))
          | inr (room, found) ↦ elim (Bool-cases room.is_joined) [
            | inl joined ↦ rw (given, found, joined) (k, λ r e. cc (found, e, joined))
            | inr fresh ↦ rw (given, found, fresh) (join_and_ask-lem room c k found)
          ]
        ]
      ]
