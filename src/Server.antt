-- ===== src/Server.antt =====
-- include/tavernmx/server.h: client connections and server rooms. A connection is known by a number,
-- its id: a `std::weak_ptr` to it is the id, and `alive` tells the ids whose object still exists.
pub mod History
pub mod Worker
pub mod Round
pub mod Sound
pub mod Invariant
pub mod Settled
pub mod Delivery
pub mod Malformed
pub mod Remembered
pub mod Packing
pub mod Reply
pub mod Total
pub mod Manager
pub mod Program
pub mod Capacity
pub mod Failing
mod Examples
mod HistoryExamples
mod ManagerExamples
mod ProgramExamples
use tavernmx.Common.{
  ℕ, ◌≡◌, refl, Bool, true, false, Option, none, some, List, [], ◌∷◌, ◌++◌, any_of, ◌==◌,
  if◌then◌else◌,
}
use tavernmx.Common.Int.{ℤ}
use tavernmx.Common.Text.{Text}
use tavernmx.Messaging.{Message}
use tavernmx.Queue
use tavernmx.Queue.{ThreadSafeQueue}
use tavernmx.Rooms.{Room, IsRoom, new_room, request_destroy}

-- `struct RoomEvent` of include/tavernmx/room.h; the timestamp counts seconds from the epoch.
pub record RoomEvent : Type 0 where
  pub timestamp : ℤ
  pub origin_user_name : Text
  pub event_text : Text

-- The fields of ClientConnection that the workers use; the BIO is in `tavernmx.Ssl`.
pub record ClientConnection (V : Type 0) : Type 0 where
  pub id : ℕ
  pub connected_user_name : Text
  pub messages_in : ThreadSafeQueue (Message V)
  pub messages_out : ThreadSafeQueue (Message V)

pub record ServerRoom : Type 0 where
  pub base : Room
  pub events : ThreadSafeQueue RoomEvent
  pub joined_clients : List ℕ

abbrev pub new_server_room : Text → ServerRoom
new_server_room name = record { base = new_room name; events = Queue.new; joined_clients = [] }

instance abbrev pub server_room : IsRoom ServerRoom
server_room = record {
  base = λ t. t.base;
  with_base = λ t r. record t { base = r };
  make = new_server_room;
  base-make = λ name. refl;
  base-with_base = λ t r. refl;
}

-- The ids that `alive` accepts.
unfoldable pub keep_alive : (ℕ → Bool) → List ℕ → List ℕ
keep_alive alive [] = []
keep_alive alive (c ∷ cs) = let rest = keep_alive alive cs in if alive c then c ∷ rest else rest

unfoldable pub clean_expired_clients : (ℕ → Bool) → ServerRoom → ServerRoom
unfolding keep_alive
clean_expired_clients alive r = record r { joined_clients = keep_alive alive r.joined_clients }

unfoldable pub join : ℕ → ServerRoom → ServerRoom
join client r =
    if any_of (λ c. c == client) r.joined_clients
    then r
    else record r { joined_clients = r.joined_clients ++ client ∷ [] }

-- `room->joined_clients.emplace_back(client)`
abbrev pub add_client : ℕ → ServerRoom → ServerRoom
add_client client r = record r { joined_clients = r.joined_clients ++ client ∷ [] }

-- `room->request_destroy()` and `room->events.push(event)`
abbrev pub mark_destroyed : ServerRoom → ServerRoom
mark_destroyed r = record r { base = request_destroy r.base }

abbrev pub push_event : RoomEvent → ServerRoom → ServerRoom
push_event event r = record r { events = Queue.push r.events event }
