-- ===== src/Rooms/Manager.antt =====
-- The invariant of RoomManager<T>, kept by every operation.
use tavernmx.Common.{
  suc, ◌-◌, ◌≤◌, ◌≡◌, ◌≢◌, ◌∙◌, sym, ap, subst, refl, inl, inr, ◌⊎◌, true, false, none, some, List,
  [], ◌∷◌, ◌++◌, map, arith, length, All, All-append, any_of, ltb, Bool-cases,
}
use mathlib.Core.List.{map-append}
use tavernmx.Common.Text.{Text, text_eq, text_eq_iff}
use tavernmx.Rooms.{
  IsRoom, RoomManager, name_of, is_destroy_requested, no_rooms, create_room, is_valid_room_name,
  change_room, update_room, kept_rooms, remove_destroyed_rooms, clear,
}

-- No name occurs twice.
abbrev pub Distinct : List Text → Type 0
Distinct [] = Unit
Distinct (n ∷ ns) = All (λ k. n ≢ k) ns × Distinct ns

module _ {ℓ} {T : Type ℓ} ⦃room : IsRoom T⦄ where
  -- The name list mirrors the rooms; names are valid and distinct.
  pub record IsValid (m : RoomManager T) : Type ℓ where
    pub mirror : m.room_names ≡ map name_of m.active_rooms
    pub distinct : Distinct (map name_of m.active_rooms)
    pub valid : All (λ n. is_valid_room_name n ≡ true) (map name_of m.active_rooms)

  pub no_rooms-IsValid : IsValid no_rooms
  no_rooms-IsValid = record { mirror = refl; distinct = tt; valid = tt }

any_of-All : (n : Text) (ns : List Text) → any_of (text_eq n) ns ≡ false → All (λ k. n ≢ k) ns
any_of-All n [] h = tt
any_of-All n (k ∷ ns) h = (ground (arith, text_eq_iff n k), any_of-All n ns (ground arith))

Distinct-append :
    (n : Text) (ns : List Text) → Distinct ns → All (λ k. n ≢ k) ns → Distinct (ns ++ n ∷ [])
Distinct-append n [] d a = (tt, tt)
Distinct-append n (k ∷ ns) d a =
    (All-append _ ns (n ∷ []) d.0 ((λ e. a.0 (sym e)), tt), Distinct-append n ns d.1 a.1)

abbrev pub names {ℓ} : {T : Type ℓ} ⦃room : IsRoom T⦄ → List T → List Text
names = map name_of

All-names-kept {ℓ} :
    {T : Type ℓ} ⦃room : IsRoom T⦄ (P : Text → Type 0) (ts : List T)
    → All P (names ts)
    → All P (names (kept_rooms ts))
unfolding kept_rooms
All-names-kept P [] h = tt
All-names-kept P (t ∷ ts) h = elim (Bool-cases (is_destroy_requested t)) [
  | inl gone ↦ rw gone (All-names-kept P ts h.1)
  | inr here ↦ rw here (h.0, All-names-kept P ts h.1)
]

module _ {ℓ} {T : Type ℓ} ⦃room : IsRoom T⦄ where
  pub names-append : (ts : List T) (n : Text) → names (ts ++ room.make n ∷ []) ≡ names ts ++ n ∷ []
  names-append ts n =
      map-append name_of ts (room.make n ∷ [])
      ∙ ap (λ r. names ts ++ r.room_name ∷ []) (room.base-make n)

  added-IsValid :
      (m : RoomManager T) (n : Text)
      → is_valid_room_name n ≡ true
      → any_of (text_eq n) m.room_names ≡ false
      → IsValid m
      → IsValid (record {
        active_rooms = m.active_rooms ++ room.make n ∷ [];
        room_names = m.room_names ++ n ∷ [];
      })
  added-IsValid m n good new v = record {
    mirror = ap (λ ns. ns ++ n ∷ []) v.mirror ∙ sym (names-append m.active_rooms n);
    distinct = rw (names-append m.active_rooms n) (
        Distinct-append n _ v.distinct
          (any_of-All n _ (subst (λ ns. any_of (text_eq n) ns ≡ false) v.mirror new)));
    valid = rw (names-append m.active_rooms n) (All-append _ _ (n ∷ []) v.valid (good, tt));
  }

  pub create_room-IsValid : (m : RoomManager T) (n : Text) → IsValid m → IsValid (create_room m n).1
  unfolding create_room
  create_room-IsValid m n v = elim (Bool-cases (is_valid_room_name n)) [
    | inr bad ↦ rw bad v
    | inl good ↦ elim (Bool-cases (any_of (text_eq n) m.room_names)) [
      | inl old ↦ rw (good, old) v
      | inr new ↦ rw (good, new) (added-IsValid m n good new v)
    ]
  ]

  -- The two outcomes of `create_room`.
  pub create_room-cases :
      (m : RoomManager T) (n : Text)
      → IsValid m
      → (create_room m n ≡ (none, m))
        ⊎ (All (λ k. n ≢ k) (names m.active_rooms)
            × (create_room m n ≡ (
              some (room.make n),
              record {
                active_rooms = m.active_rooms ++ room.make n ∷ [];
                room_names = m.room_names ++ n ∷ [];
              },
            )))
  unfolding create_room
  create_room-cases m n v = elim (Bool-cases (is_valid_room_name n)) [
    | inr bad ↦ inl (rw bad)
    | inl good ↦ elim (Bool-cases (any_of (text_eq n) m.room_names)) [
      | inl old ↦ inl (rw (good, old))
      | inr new ↦ inr (
        any_of-All n _ (subst (λ ns. any_of (text_eq n) ns ≡ false) v.mirror new),
        rw (good, new),
      )
    ]
  ]

  -- `f` leaves the names of the rooms as they are.
  abbrev pub KeepsName : (T → T) → Type ℓ
  KeepsName f = (t : T) → name_of (f t) ≡ name_of t

  pub names-change_room :
      (n : Text) (f : T → T) (ts : List T) → KeepsName f → names (change_room n f ts) ≡ names ts
  unfolding change_room
  names-change_room n f [] h = refl
  names-change_room n f (t ∷ ts) h = elim (Bool-cases (text_eq (name_of t) n)) [
    | inl e ↦ rw e (ap (λ k. k ∷ names ts) (h t))
    | inr e ↦ rw e (ap (◌∷◌ (name_of t)) (names-change_room n f ts h))
  ]

  pub update_room-IsValid :
      (m : RoomManager T) (n : Text) (f : T → T)
      → KeepsName f
      → IsValid m
      → IsValid (update_room m n f)
  unfolding update_room
  update_room-IsValid m n f h v =
      let same = names-change_room n f m.active_rooms h in
      record {
        mirror = v.mirror ∙ sym same;
        distinct = rw same v.distinct;
        valid = rw same v.valid;
      }

  pub All-kept_rooms :
      (P : T → Type 0) (ts : List T)
      → All P ts
      → All (λ t. P t × (is_destroy_requested t ≡ false)) (kept_rooms ts)
  unfolding kept_rooms
  All-kept_rooms P [] h = tt
  All-kept_rooms P (t ∷ ts) h = elim (Bool-cases (is_destroy_requested t)) [
    | inl gone ↦ rw gone (All-kept_rooms P ts h.1)
    | inr here ↦ rw here ((h.0, here), All-kept_rooms P ts h.1)
  ]

  Distinct-kept : (ts : List T) → Distinct (names ts) → Distinct (names (kept_rooms ts))
  unfolding kept_rooms
  Distinct-kept [] d = tt
  Distinct-kept (t ∷ ts) d = elim (Bool-cases (is_destroy_requested t)) [
    | inl gone ↦ rw gone (Distinct-kept ts d.1)
    | inr here ↦ rw here (All-names-kept _ ts d.0, Distinct-kept ts d.1)
  ]

  length-kept-le : (ts : List T) → length (kept_rooms ts) ≤ length ts
  unfolding kept_rooms
  length-kept-le [] = omega arith
  length-kept-le (t ∷ ts) = elim (Bool-cases (is_destroy_requested t)) [
    | inl gone ↦ rw gone (omega (arith, length-kept-le ts))
    | inr here ↦ rw here (omega (arith, length-kept-le ts))
  ]

  -- Where the count says that nothing was erased, nothing was.
  kept_all : (ts : List T) → length ts ≤ length (kept_rooms ts) → kept_rooms ts ≡ ts
  unfolding kept_rooms
  kept_all [] h = refl
  kept_all (t ∷ ts) h = elim (Bool-cases (is_destroy_requested t)) [
    | inl gone ↦
        let k : suc (length ts) ≤ length (kept_rooms ts) = rw gone at h in
        absurd (omega (arith, length-kept-le ts))
    | inr here ↦
        let k : suc (length ts) ≤ suc (length (kept_rooms ts)) = rw here at h in
        rw here (ap (◌∷◌ t) (kept_all ts (omega arith)))
  ]

  -- Both branches of `remove_destroyed_rooms` give the mirrored list.
  pub remove_destroyed_lem :
      (m : RoomManager T)
      → IsValid m
      → remove_destroyed_rooms m ≡ record {
        active_rooms = kept_rooms m.active_rooms;
        room_names = names (kept_rooms m.active_rooms);
      }
  unfolding remove_destroyed_rooms
  remove_destroyed_lem m v =
      elim (Bool-cases (ltb 0 (length m.active_rooms - length (kept_rooms m.active_rooms)))) [
        | inl some_gone ↦ rw some_gone
        | inr none_gone ↦
            let all : kept_rooms m.active_rooms ≡ m.active_rooms =
              kept_all m.active_rooms (ground arith) in
            rw none_gone (λ i. record {
              active_rooms = kept_rooms m.active_rooms;
              room_names = (v.mirror ∙ ap names (sym all)) i;
            })
      ]

  pub remove_destroyed-IsValid :
      (m : RoomManager T) → IsValid m → IsValid (remove_destroyed_rooms m)
  remove_destroyed-IsValid m v = rw (remove_destroyed_lem m v) (record {
    mirror = refl;
    distinct = Distinct-kept m.active_rooms v.distinct;
    valid = All-names-kept _ m.active_rooms v.valid;
  })

-- What a program does with a manager. A change through a room pointer comes with its function.
pub data Op {ℓ} (T : Type ℓ) : Type ℓ where
  creates : Text → Op T
  updates : Text → (T → T) → Op T
  removes_destroyed : Op T
  clears : Op T

module _ {ℓ} {T : Type ℓ} ⦃room : IsRoom T⦄ where
  unfoldable pub step : RoomManager T → Op T → RoomManager T
  step m (creates n) = (create_room m n).1
  step m (updates n f) = update_room m n f
  step m removes_destroyed = remove_destroyed_rooms m
  step m clears = clear m

  unfoldable pub run : RoomManager T → List (Op T) → RoomManager T
  run m [] = m
  run m (op ∷ ops) = run (step m op) ops

  -- No operation renames a room.
  abbrev pub NoRename : List (Op T) → Type ℓ
  NoRename [] = Unit
  NoRename (updates n f ∷ ops) = KeepsName f × NoRename ops
  NoRename (creates n ∷ ops) = NoRename ops
  NoRename (removes_destroyed ∷ ops) = NoRename ops
  NoRename (clears ∷ ops) = NoRename ops

  run-IsValid :
      (m : RoomManager T) (ops : List (Op T)) → NoRename ops → IsValid m → IsValid (run m ops)
  unfolding run step
  run-IsValid m [] k v = v
  run-IsValid m (creates n ∷ ops) k v =
      run-IsValid (step m (creates n)) ops k (create_room-IsValid m n v)
  run-IsValid m (updates n f ∷ ops) k v =
      run-IsValid (step m (updates n f)) ops k.1 (update_room-IsValid m n f k.0 v)
  run-IsValid m (removes_destroyed ∷ ops) k v =
      run-IsValid (step m removes_destroyed) ops k (remove_destroyed-IsValid m v)
  run-IsValid m (clears ∷ ops) k v = run-IsValid (step m clears) ops k no_rooms-IsValid

  -- Whatever calls a program makes on a manager that starts empty, as long as none renames a room:
  -- the name list is the list of the rooms' names in order, no two rooms share a name, and every
  -- name is valid.
  pub manager-IsValid : (ops : List (Op T)) → NoRename ops → IsValid (run no_rooms ops)
  manager-IsValid ops k = run-IsValid no_rooms ops k no_rooms-IsValid
