-- ===== src/Server/Settled.antt =====
-- Every round of the server worker keeps its invariant and leaves nothing pending.
use tavernmx.Common.{
  ℕ, ◌≡◌, ◌∙◌, refl, sym, ap, Bool, true, false, List, [], ◌∷◌, map, All, All-append, Bool-cases,
  inl, inr,
}
use tavernmx.Common.Int.{ℤ}
use tavernmx.Common.Text.{Text}
use tavernmx.Common.Result.{Ensures, ok, Ensures-bind, Ensures-ok}
use tavernmx.Json.{Json}
use tavernmx.Queue
use tavernmx.Rooms.{no_rooms, create_room, RoomManager, name_of, kept_rooms}
use tavernmx.Rooms.Manager.{
  no_rooms-IsValid, create_room-IsValid, create_room-cases, IsValid, names,
  remove_destroyed-IsValid, remove_destroyed_lem, All-kept_rooms,
}
use tavernmx.Server.{ClientConnection, ServerRoom, server_room, clean_expired_clients, keep_alive}
use tavernmx.Server.History.{RoomHistory}
use tavernmx.Server.Worker.{Worker}
use tavernmx.Server.Round.{
  Input, run_rounds, create_initial_rooms, started, gather, notify, distribute, distribute_events,
  room_events_to_messages, erase_all, clean_up, round,
}
use tavernmx.Server.Sound.{NoRepeat, JoinedOnce, IsBuffer, IsSound, keep_alive-NoRepeat, All-erase}
use tavernmx.Server.Invariant.{gather-IsSound}

-- A room after its events were passed on.
unfoldable pub settle : (ℕ → Bool) → ServerRoom → ServerRoom
settle alive r = record (clean_expired_clients alive r) { events = Queue.new }

-- No event waits in a room, every client in it still exists, and no room is marked.
abbrev pub IsSettled : (ℕ → Bool) → ServerRoom → Type 0
IsSettled alive r =
    (r.events.items ≡ [])
    × All (λ c. alive c ≡ true) r.joined_clients
    × (r.base.destroy_requested ≡ false)

keep_alive-All : (alive : ℕ → Bool) (cs : List ℕ) → All (λ c. alive c ≡ true) (keep_alive alive cs)
unfolding keep_alive
keep_alive-All alive [] = tt
keep_alive-All alive (c ∷ cs) = elim (Bool-cases (alive c)) [
  | inl e ↦ rw e (e, keep_alive-All alive cs)
  | inr e ↦ rw e (keep_alive-All alive cs)
]

names-settle : (alive : ℕ → Bool) (rs : List ServerRoom) → names (map (settle alive) rs) ≡ names rs
unfolding settle clean_expired_clients
names-settle alive [] = refl
names-settle alive (r ∷ rs) = ap (◌∷◌ (name_of r)) (names-settle alive rs)

-- What holds of each room before it is removed or kept.
abbrev AtRest : (ℕ → Bool) → ServerRoom → Type 0
AtRest alive r =
    NoRepeat r.joined_clients × (r.events.items ≡ []) × All (λ c. alive c ≡ true) r.joined_clients

settle-AtRest :
    (alive : ℕ → Bool) (rs : List ServerRoom)
    → JoinedOnce rs
    → All (AtRest alive) (map (settle alive) rs)
unfolding settle clean_expired_clients
settle-AtRest alive [] j = tt
settle-AtRest alive (r ∷ rs) j = (
  (keep_alive-NoRepeat alive r.joined_clients j.0, refl, keep_alive-All alive r.joined_clients),
  settle-AtRest alive rs j.1,
)

All-erase_all : (ns : List Text) (h : RoomHistory) → All IsBuffer h → All IsBuffer (erase_all ns h)
unfolding erase_all
All-erase_all [] h a = a
All-erase_all (n ∷ ns) h a = All-erase_all ns _ (All-erase n h a)

All-regroup :
    (alive : ℕ → Bool) (rs : List ServerRoom)
    → All (λ r. AtRest alive r × (r.base.destroy_requested ≡ false)) rs
    → JoinedOnce rs × All (IsSettled alive) rs
All-regroup alive [] h = (tt, tt)
All-regroup alive (r ∷ rs) h =
    let rest = All-regroup alive rs h.1 in
    let ((once, quiet, live), here) = h.0 in ((once, rest.0), ((quiet, live, here), rest.1))

module _ (json : Json) where
  open json use {Value}

  -- Step 2b cleans each room and empties its queue.
  distribute-rooms :
      (alive : ℕ → Bool) (rs : List ServerRoom) (cs : List (ClientConnection Value))
      → (distribute json alive rs cs).0 ≡ map (settle alive) rs
  unfolding distribute room_events_to_messages settle
  distribute-rooms alive [] cs = refl
  distribute-rooms alive (r ∷ rs) cs = ap (◌∷◌ (settle alive r)) (distribute-rooms alive rs _)

  -- The rooms that steps 2 and 3 leave.
  after-rooms :
      (alive : ℕ → Bool) (w : Worker Value)
      → IsSound w
      → let w' = clean_up json (distribute_events json alive (notify json w)) in
        IsSound w' × All (IsSettled alive) w'.rooms.active_rooms
  unfolding clean_up distribute_events notify
  after-rooms alive w s =
      let rooms = w.rooms.active_rooms in
      let settled = map (settle alive) rooms in
      let same = names-settle alive rooms in
      let m : RoomManager ServerRoom = record w.rooms { active_rooms = settled } in
      let v : IsValid m = record {
        mirror = s.rooms_valid.mirror ∙ sym same;
        distinct = rw same s.rooms_valid.distinct;
        valid = rw same s.rooms_valid.valid;
      } in
      let (once, quiet) =
        All-regroup alive (kept_rooms settled)
          (All-kept_rooms (AtRest alive) settled (settle-AtRest alive rooms s.joined_once)) in
      rw (distribute-rooms alive rooms _, remove_destroyed_lem m v)
        (
          record {
            rooms_valid = rw⁻¹ (remove_destroyed_lem m v) (remove_destroyed-IsValid m v);
            joined_once = once;
            histories = All-erase_all w.destroyed_rooms w.room_history s.histories;
          },
          quiet,
        )

  -- A round that throws nothing and starts in a sound state (the name list mirrors the rooms, names
  -- are valid and distinct, no client is joined to a room twice, every history buffer is one that
  -- insertions reach) ends in a sound state in which, moreover, no event waits in a room, only
  -- clients that still exist are joined, and no room is marked for destruction.
  pub round-IsSound :
      (ndebug : Bool) (now : ℕ → ℕ → ℤ) (alive : ℕ → Bool) (w w' : Worker Value)
      → IsSound w
      → round json ndebug now alive w ≡ ok w'
      → IsSound w' × All (IsSettled alive) w'.rooms.active_rooms
  unfolding round
  round-IsSound ndebug now alive w w' s e =
      let start : Worker Value = record w { new_rooms = []; destroyed_rooms = [] } in
      let started : IsSound start = record {
        rooms_valid = s.rooms_valid;
        joined_once = s.joined_once;
        histories = s.histories;
      } in
      Ensures-ok (λ v. IsSound v × All (IsSettled alive) v.rooms.active_rooms) _
        (Ensures-bind _ (gather json ndebug now w.clients start) _ (λ g e'.
          after-rooms alive g
            (Ensures-ok IsSound _ (gather-IsSound json ndebug now w.clients start started) e')))
        e

created_joined :
    (rooms : RoomManager ServerRoom) (ns : List Text)
    → IsValid rooms
    → JoinedOnce rooms.active_rooms
    → IsValid (create_initial_rooms rooms ns)
      × JoinedOnce (create_initial_rooms rooms ns).active_rooms
unfolding create_initial_rooms
created_joined rooms [] v j = (v, j)
created_joined rooms (n ∷ ns) v j =
    let v' : IsValid (create_room rooms n).1 = create_room-IsValid rooms n v in
    elim (create_room-cases rooms n v) [
      | inl e ↦ created_joined (create_room rooms n).1 ns v' (rw e j)
      | inr (fresh, e) ↦
          created_joined (create_room rooms n).1 ns v'
            (rw e (All-append _ rooms.active_rooms _ j (tt, tt)))
    ]

module _ (json : Json) where
  open json use {Value}

  run_rounds-IsSound :
      (ndebug : Bool) (is : List (Input json)) (w : Worker Value)
      → IsSound w
      → Ensures IsSound (run_rounds json ndebug is w)
  unfolding run_rounds
  run_rounds-IsSound ndebug [] w s = s
  run_rounds-IsSound ndebug (i ∷ is) w s =
      let v : Worker Value = record w { clients = i.connections } in
      let sound : IsSound v = record {
        rooms_valid = s.rooms_valid;
        joined_once = s.joined_once;
        histories = s.histories;
      } in
      Ensures-bind IsSound (round json ndebug i.now i.alive v) _ (λ w' e.
        run_rounds-IsSound ndebug is w' (round-IsSound json ndebug i.now i.alive v w' sound e).0)

  -- Whatever rooms the configuration names, and whatever the connections send in any number of rounds,
  -- as long as none throws, the server worker is in a sound state: the name list is the list of the
  -- rooms' names, every name is valid and no two rooms share one, no client is joined to a room
  -- twice, and every history buffer is one that insertions reach.
  pub worker-IsSound :
      (ndebug : Bool) (initial_rooms : List Text) (is : List (Input json)) (w : Worker Value)
      → run_rounds json ndebug is (started initial_rooms) ≡ ok w
      → IsSound w
  worker-IsSound ndebug initial_rooms is w e =
      let (v, j) = created_joined no_rooms initial_rooms no_rooms-IsValid tt in
      Ensures-ok IsSound _
        (run_rounds-IsSound ndebug is (started initial_rooms)
          (record { rooms_valid = v; joined_once = j; histories = tt }))
        e
