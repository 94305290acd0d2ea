-- ===== src/Server/Sound.antt =====
-- The invariant of the server worker between two messages, and how rooms and histories keep it.
use tavernmx.Common.{
  ℕ, ◌≡◌, ◌≢◌, sym, ap, Bool, false, List, [], ◌∷◌, ◌++◌, arith, All, All-append, any_of, ◌==◌,
  Bool-cases, inl, inr,
}
use tavernmx.Common.Text.{Text, text_eq, text_eq-false, text_eq_refl}
use tavernmx.RingBuffer.{RingBuffer}
use tavernmx.RingBuffer.Refine.{Holds, new-Holds, insert-Holds}
use tavernmx.Json.{lookup}
use tavernmx.Rooms.{name_of, change_room}
use tavernmx.Rooms.Manager.{IsValid, names}
use tavernmx.Server.{RoomEvent, ServerRoom, server_room, new_server_room, join, keep_alive}
use tavernmx.Server.History.{
  RoomHistory, chat_room_history_size, buffer_of, put, erase, insert_event_into_room_history,
}
use tavernmx.Server.Worker.{Worker}

-- No client occurs twice.
abbrev pub NoRepeat : List ℕ → Type 0
NoRepeat [] = Unit
NoRepeat (c ∷ cs) = All (λ d. c ≢ d) cs × NoRepeat cs

abbrev pub JoinedOnce : List ServerRoom → Type 0
JoinedOnce = All (λ r. NoRepeat r.joined_clients)

-- A history buffer in a state that insertions can reach.
abbrev pub IsBuffer : Text × RingBuffer RoomEvent → Type 0
IsBuffer p = (xs : List RoomEvent) × Holds chat_room_history_size p.1 xs

pub record IsSound {V : Type 0} (w : Worker V) : Type 0 where
  pub rooms_valid : IsValid w.rooms
  pub joined_once : JoinedOnce w.rooms.active_rooms
  pub histories : All IsBuffer w.room_history

not_joined : (id : ℕ) (cs : List ℕ) → any_of (λ c. c == id) cs ≡ false → All (λ c. c ≢ id) cs
not_joined id [] h = tt
not_joined id (c ∷ cs) h = (ground arith, not_joined id cs (ground arith))

NoRepeat-append :
    (id : ℕ) (cs : List ℕ) → NoRepeat cs → All (λ c. c ≢ id) cs → NoRepeat (cs ++ id ∷ [])
NoRepeat-append id [] n a = (tt, tt)
NoRepeat-append id (c ∷ cs) n a =
    (All-append _ cs (id ∷ []) n.0 (a.0, tt), NoRepeat-append id cs n.1 a.1)

-- `join` adds a client once, however often it is called.
pub join-NoRepeat :
    (id : ℕ) (r : ServerRoom) → NoRepeat r.joined_clients → NoRepeat (join id r).joined_clients
unfolding join
join-NoRepeat id r n = elim (Bool-cases (any_of (λ c. c == id) r.joined_clients)) [
  | inl old ↦ rw old n
  | inr new ↦ rw new (NoRepeat-append id r.joined_clients n (not_joined id r.joined_clients new))
]

All-keep :
    (P : ℕ → Type 0) (alive : ℕ → Bool) (cs : List ℕ) → All P cs → All P (keep_alive alive cs)
unfolding keep_alive
All-keep P alive [] h = tt
All-keep P alive (c ∷ cs) h = elim (Bool-cases (alive c)) [
  | inl e ↦ rw e (h.0, All-keep P alive cs h.1)
  | inr e ↦ rw e (All-keep P alive cs h.1)
]

pub keep_alive-NoRepeat :
    (alive : ℕ → Bool) (cs : List ℕ) → NoRepeat cs → NoRepeat (keep_alive alive cs)
unfolding keep_alive
keep_alive-NoRepeat alive [] n = tt
keep_alive-NoRepeat alive (c ∷ cs) n = elim (Bool-cases (alive c)) [
  | inl e ↦ rw e (All-keep _ alive cs n.0, keep_alive-NoRepeat alive cs n.1)
  | inr e ↦ rw e (keep_alive-NoRepeat alive cs n.1)
]

pub All-change_room :
    (P : ServerRoom → Type 0) (n : Text) (f : ServerRoom → ServerRoom) (ts : List ServerRoom)
    → ((t : ServerRoom) → P t → P (f t))
    → All P ts
    → All P (change_room n f ts)
unfolding change_room
All-change_room P n f [] k h = tt
All-change_room P n f (t ∷ ts) k h = elim (Bool-cases (text_eq (name_of t) n)) [
  | inl e ↦ rw e (k t h.0, h.1)
  | inr e ↦ rw e (h.0, All-change_room P n f ts k h.1)
]

-- A change of the room that was added last reaches that room and no other.
pub change_added :
    (n : Text) (f : ServerRoom → ServerRoom) (ts : List ServerRoom)
    → All (λ k. n ≢ k) (names ts)
    → change_room n f (ts ++ new_server_room n ∷ []) ≡ ts ++ f (new_server_room n) ∷ []
unfolding change_room
change_added n f [] h = rw (text_eq_refl n)
change_added n f (t ∷ ts) h =
    rw (text_eq-false (name_of t) n (λ e. h.0 (sym e))) (ap (◌∷◌ t) (change_added n f ts h.1))

All-put :
    (name : Text) (b : RingBuffer RoomEvent) (h : RoomHistory)
    → IsBuffer (name, b)
    → All IsBuffer h
    → All IsBuffer (put name b h)
unfolding put
All-put name b [] i a = (i, tt)
All-put name b ((n, c) ∷ h) i a = elim (Bool-cases (text_eq n name)) [
  | inl e ↦ rw e (i, a.1)
  | inr e ↦ rw e (a.0, All-put name b h i a.1)
]

pub All-erase : (name : Text) (h : RoomHistory) → All IsBuffer h → All IsBuffer (erase name h)
unfolding erase
All-erase name [] a = tt
All-erase name ((n, c) ∷ h) a = elim (Bool-cases (text_eq n name)) [
  | inl e ↦ rw e a.1
  | inr e ↦ rw e (a.0, All-erase name h a.1)
]

pub lookup-IsBuffer :
    (name : Text) (h : RoomHistory)
    → All IsBuffer h
    → (xs : List RoomEvent) × Holds chat_room_history_size (buffer_of (lookup name h)) xs
unfolding lookup
lookup-IsBuffer name [] a = ([], new-Holds chat_room_history_size (omega arith) (omega arith))
lookup-IsBuffer name ((n, c) ∷ h) a = elim (Bool-cases (text_eq n name)) [
  | inl e ↦ rw e a.0
  | inr e ↦ rw e (lookup-IsBuffer name h a.1)
]

pub insert_event-IsBuffer :
    (name : Text) (event : RoomEvent) (h : RoomHistory)
    → All IsBuffer h
    → All IsBuffer (insert_event_into_room_history h name event)
unfolding insert_event_into_room_history
insert_event-IsBuffer name event h a =
    let (xs, held) = lookup-IsBuffer name h a in
    All-put name _ h (_, insert-Holds chat_room_history_size _ xs event held) a
