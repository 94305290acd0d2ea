-- ===== src/Client.antt =====
-- The client: include/tavernmx/client-rooms.h, and the state and operations of ChatWindowScreen
-- (include/tavernmx/client-ui.h, src/client/client-ui/chatwindow.cpp). The mutex of the history is
-- held for the whole of each operation on it. A room name is kept without the `#` in front of it.
pub mod Update
pub mod Consistent
pub mod Listing
pub mod Relisting
pub mod Handlers
pub mod Each
pub mod Asked
pub mod Session
pub mod Commands
pub mod Color
mod Examples
use mathlib.Core.Option
use tavernmx.Common.{
  ℕ, suc, ◌+◌, ◌≡◌, refl, Bool, true, false, Option, none, some, List, [], ◌∷◌, ◌++◌, map, any_of,
  get_elem?, set, replicate, length, if◌then◌else◌,
}
use tavernmx.Common.Maps.{lookup, put}
use tavernmx.Common.Text.{Text, text_eq}
use tavernmx.RingBuffer
use tavernmx.RingBuffer.{RingBuffer}
use tavernmx.Json.{is_some}
use tavernmx.Rooms.{Room, IsRoom, new_room}
use tavernmx.Server.{RoomEvent}

pub record ClientRoomEvent : Type 0 where
  pub event : RoomEvent
  pub timestamp_text : Text

pub record ClientRoom : Type 0 where
  pub base : Room
  pub is_joined : Bool

abbrev pub new_client_room : Text → ClientRoom
new_client_room name = record { base = new_room name; is_joined = false }

instance abbrev pub client_room : IsRoom ClientRoom
client_room = record {
  base = λ t. t.base;
  with_base = λ t r. record t { base = r };
  make = new_client_room;
  base-make = λ name. refl;
  base-with_base = λ t r. refl;
}

abbrev pub chat_room_history_size : ℕ
chat_room_history_size = 1000

abbrev pub History : Type 0
History = List (Text × RingBuffer ClientRoomEvent)

-- The fields of ChatWindowScreen that its operations use. `room_names_size` is the length of the
-- list of names.
pub record ChatScreen : Type 0 where
  pub current_room_index : ℕ
  pub current_room_name : Text
  pub chat_input : Text
  pub room_names : List Text
  pub chat_room_history : History
  pub reset_scroll_pos : Bool

abbrev pub new_chat_screen : ChatScreen
new_chat_screen = record {
  current_room_index = 0;
  current_room_name = [];
  chat_input = [];
  room_names = [];
  chat_room_history = [];
  reset_scroll_pos = false;
}

-- The loop of `select_room_by_name`: the first index at which the name stands.
unfoldable pub index_of : Text → List Text → Option ℕ
index_of name [] = none
index_of name (n ∷ ns) =
    let later = Option.map suc (index_of name ns) in if text_eq name n then some 0 else later

unfoldable pub select_room_by_name : Text → ChatScreen → ChatScreen
unfolding index_of
select_room_by_name name s = elim (index_of name s.room_names) [
  | none ↦ s
  | some i ↦ record s { current_room_index = i; current_room_name = name }
]

-- `std::erase_if` on the history: what is left are the rooms in the list.
unfoldable pub keep_listed : List Text → History → History
keep_listed names [] = []
keep_listed names ((n, b) ∷ h) =
    let rest = keep_listed names h in if any_of (text_eq n) names then (n, b) ∷ rest else rest

abbrev pub first_name : List Text → Text
first_name [] = []
first_name (n ∷ ns) = n

unfoldable pub update_rooms : List Text → ChatScreen → ChatScreen
unfolding keep_listed
update_rooms names s = record s {
  room_names = names;
  current_room_index = 0;
  current_room_name = first_name names;
  chat_room_history = keep_listed names s.chat_room_history;
}

-- The array that `update_rooms` allocates for the label of a room, and its writes: `#`, then
-- `std::strcpy` with the terminating NUL. A write past the end of the array is `none`.
abbrev pub write : Option (List ℕ) → ℕ → ℕ → Option (List ℕ)
write none i c = none
write (some a) i c = if is_some (get_elem? a i) then some (set a i c) else none

unfoldable pub copy_string : Option (List ℕ) → ℕ → Text → Option (List ℕ)
copy_string a i [] = write a i 0
copy_string a i (c ∷ cs) = copy_string (write a i c) (i + 1) cs

unfoldable pub room_label : Text → Option (List ℕ)
unfolding copy_string
room_label name = copy_string (write (some (replicate (length name + 1) 0)) 0 b'#') 1 name

abbrev pub history_of : Option (RingBuffer ClientRoomEvent) → RingBuffer ClientRoomEvent
history_of none = RingBuffer.new chat_room_history_size
history_of (some b) = b

unfoldable pub insert_chat_history_event : Text → ClientRoomEvent → ChatScreen → ChatScreen
insert_chat_history_event name event s = record s {
  chat_room_history =
      put name
        (RingBuffer.insert chat_room_history_size (history_of (lookup name s.chat_room_history))
          event)
        s.chat_room_history;
  reset_scroll_pos = text_eq name s.current_room_name;
}

unfoldable pub insert_events :
    RingBuffer ClientRoomEvent → List ClientRoomEvent → RingBuffer ClientRoomEvent
insert_events b [] = b
insert_events b (e ∷ es) = insert_events (RingBuffer.insert chat_room_history_size b e) es

-- A room that has a history gets a new buffer; for one that has none, an empty buffer is made and
-- reset.
abbrev pub emptied : Option (RingBuffer ClientRoomEvent) → RingBuffer ClientRoomEvent
emptied (some b) = RingBuffer.new chat_room_history_size
emptied none = RingBuffer.reset chat_room_history_size (RingBuffer.new chat_room_history_size)

unfoldable pub rewrite_chat_history : Text → List ClientRoomEvent → ChatScreen → ChatScreen
unfolding insert_events
rewrite_chat_history name events s = record s {
  chat_room_history =
      put name (insert_events (emptied (lookup name s.chat_room_history)) events)
        s.chat_room_history;
  reset_scroll_pos = text_eq name s.current_room_name;
}

-- The list box of `render`: the user picks an entry.
unfoldable pub pick_room : ℕ → ChatScreen → ChatScreen
pick_room i s = record s {
  current_room_index = i;
  current_room_name = elim (get_elem? s.room_names i) [ none ↦ [] | some name ↦ name ];
  reset_scroll_pos = true;
}
