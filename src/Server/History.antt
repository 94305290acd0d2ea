-- ===== src/Server/History.antt =====
-- The chat history of src/server/workers/server-worker.cpp: a map from room names to ring buffers.
use tavernmx.Common.{ℕ, Bool, Option, none, some, List, [], ◌∷◌, if◌then◌else◌}
unfoldable pub use tavernmx.Common.Maps.{put, erase}
use tavernmx.Common.Int.{pos, to_int32, int_eq}
use tavernmx.Common.Text.{Text}
use tavernmx.Common.Result.{Result, ok, ◌>>=◌}
use tavernmx.RingBuffer
use tavernmx.RingBuffer.{RingBuffer}
use tavernmx.Json.{Json, lookup, or_undefined}
use tavernmx.Messaging.{Msg, create_room_history}
use tavernmx.Messaging.History.{add_room_history_event}
use tavernmx.Server.{RoomEvent}

abbrev pub chat_room_history_size : ℕ
chat_room_history_size = 1000

-- `std::unordered_map`; the program never iterates over it. No key occurs twice.
abbrev pub RoomHistory : Type 0
RoomHistory = List (Text × RingBuffer RoomEvent)

abbrev pub no_history : RingBuffer RoomEvent
no_history = RingBuffer.new chat_room_history_size

abbrev pub buffer_of : Option (RingBuffer RoomEvent) → RingBuffer RoomEvent
buffer_of none = no_history
buffer_of (some b) = b

-- A missing entry is made first.
unfoldable pub insert_event_into_room_history : RoomHistory → Text → RoomEvent → RoomHistory
insert_event_into_room_history h name event =
    put name (RingBuffer.insert chat_room_history_size (buffer_of (lookup name h)) event) h

-- The events that a range-based `for` over a room's buffer visits; none without a buffer.
abbrev pub events_of : Option (RingBuffer RoomEvent) → Result (List RoomEvent)
events_of none = ok []
events_of (some b) = or_undefined (RingBuffer.iterate chat_room_history_size b)

module _ (json : Json) where
  -- The loop over the events of one room, oldest first; it stops once the message counts
  -- `max_event_count` events.
  unfoldable pub pack_events : Bool → ℕ → Msg json → List RoomEvent → Result (Msg json)
  pack_events ndebug max_event_count m [] = ok m
  pack_events ndebug max_event_count m (e ∷ es) = do
    (count, m') ←
        add_room_history_event json ndebug m (to_int32 e.timestamp) e.origin_user_name e.event_text
    let rest = pack_events ndebug max_event_count m' es
    if int_eq count (pos max_event_count) then ok m' else rest

  unfoldable pub get_room_history : Bool → RoomHistory → Text → ℕ → Result (Msg json)
  unfolding pack_events
  get_room_history ndebug h name max_event_count = do
    m ← create_room_history json name 0
    events ← events_of (lookup name h)
    pack_events ndebug max_event_count m events
