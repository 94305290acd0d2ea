-- ===== src/Server/Round.antt =====
-- The steps of one round of the loop of `server_worker`, in its order.
use tavernmx.Common.{ℕ, ◌+◌, Bool, List, [], ◌∷◌, map, if◌then◌else◌}
use tavernmx.Common.Int.{ℤ, to_int32}
use tavernmx.Common.Text.{Text}
use tavernmx.Common.Result.{Result, ok, ◌>>=◌}
use tavernmx.Json.{Json}
use tavernmx.Messaging.{Message, Msg, create_room_create, create_room_destroy, create_chat_echo}
use tavernmx.Queue
use tavernmx.Rooms.{RoomManager, no_rooms, create_room, remove_destroyed_rooms}
use tavernmx.Server.{RoomEvent, ClientConnection, ServerRoom, server_room, clean_expired_clients}
use tavernmx.Server.History.{RoomHistory, erase}
use tavernmx.Server.Worker.{Worker, change_client, push_out, handle}

-- Erase each of the names.
unfoldable pub erase_all : List Text → RoomHistory → RoomHistory
erase_all [] h = h
erase_all (name ∷ names) h = erase_all names (erase name h)

module _ {V : Type 0} where
  -- `client->messages_in.pop()`
  abbrev pop_in : ClientConnection V → ClientConnection V
  pop_in c = record c { messages_in = (Queue.pop c.messages_in).1 }

  abbrev pub take_message : ℕ → Worker V → Worker V
  take_message id w = record w { clients = change_client id pop_in w.clients }

  -- The same message pushed to every client of the snapshot.
  abbrev pub push_all : Message V → List (ClientConnection V) → List (ClientConnection V)
  push_all m cs = map (push_out m) cs

  -- One message for each of the names, to every client.
  unfoldable pub announce :
      (Text → Message V) → List Text → List (ClientConnection V) → List (ClientConnection V)
  announce create [] cs = cs
  announce create (name ∷ names) cs = announce create names (push_all (create name) cs)

  -- All messages, in their order, pushed to one client.
  abbrev pub push_messages : List (Message V) → ClientConnection V → ClientConnection V
  push_messages [] c = c
  push_messages (m ∷ ms) c = push_messages ms (push_out m c)

  -- The clients joined to a room, each locked if it still exists. One that is not in the snapshot has
  -- no place in the model, and nothing reads what is pushed to it.
  unfoldable pub push_joined :
      (ℕ → Bool) → List ℕ → List (Message V) → List (ClientConnection V) → List (ClientConnection V)
  push_joined alive [] ms cs = cs
  push_joined alive (id ∷ ids) ms cs =
      push_joined alive ids ms (if alive id then change_client id (push_messages ms) cs else cs)

module _ (json : Json) where
  open json use {Value}

  -- `while (msg = client->messages_in.pop())`, on the messages that the queue holds; `now` is the time
  -- at which each of them is handled, by its index.
  unfoldable pub serve :
      Bool → (ℕ → ℤ) → ℕ → Text → List (Msg json) → Worker Value → Result (Worker Value)
  serve ndebug now id user [] w = ok w
  serve ndebug now id user (m ∷ ms) w = do
    w' ← handle json ndebug (now 0) id user m (take_message id w)
    serve ndebug (λ i. now (i + 1)) id user ms w'

  -- Step 1. `now` takes the position of a client in the snapshot and the index of its message.
  unfoldable pub gather :
      Bool → (ℕ → ℕ → ℤ) → List (ClientConnection Value) → Worker Value → Result (Worker Value)
  unfolding serve
  gather ndebug now [] w = ok w
  gather ndebug now (c ∷ cs) w = do
    w' ← serve ndebug (now 0) c.id c.connected_user_name c.messages_in.items w
    gather ndebug (λ i. now (i + 1)) cs w'

  -- Step 2a.
  unfoldable pub notify : Worker Value → Worker Value
  unfolding announce
  notify w = record w {
    clients =
        announce (create_room_destroy json) w.destroyed_rooms
          (announce (create_room_create json) w.new_rooms w.clients);
  }

  abbrev pub echo : Text → RoomEvent → Msg json
  echo name e = create_chat_echo json name e.event_text e.origin_user_name (to_int32 e.timestamp)

  -- `room_events_to_messages`: a message for each event that is popped until the queue is empty.
  unfoldable pub room_events_to_messages : ServerRoom → List (Msg json) × ServerRoom
  room_events_to_messages room =
      (map (echo room.base.room_name) room.events.items, record room { events = Queue.new })

  -- Step 2b: the rooms after it, and the clients.
  unfoldable pub distribute :
      (ℕ → Bool)
      → List ServerRoom
      → List (ClientConnection Value)
      → List ServerRoom × List (ClientConnection Value)
  unfolding room_events_to_messages push_joined clean_expired_clients
  distribute alive [] cs = ([], cs)
  distribute alive (r ∷ rs) cs =
      let cleaned = clean_expired_clients alive r in
      let (ms, r') = room_events_to_messages cleaned in
      let (rs', cs') = distribute alive rs (push_joined alive r'.joined_clients ms cs) in
      (r' ∷ rs', cs')

  unfoldable pub distribute_events : (ℕ → Bool) → Worker Value → Worker Value
  unfolding distribute
  distribute_events alive w =
      let (rooms, clients) = distribute alive w.rooms.active_rooms w.clients in
      record w { rooms = record w.rooms { active_rooms = rooms }; clients = clients }

  -- Step 3.
  unfoldable pub clean_up : Worker Value → Worker Value
  unfolding erase_all
  clean_up w = record w {
    rooms = remove_destroyed_rooms w.rooms;
    room_history = erase_all w.destroyed_rooms w.room_history;
  }

  -- A round: the lists of new and destroyed rooms start empty.
  unfoldable pub round : Bool → (ℕ → ℕ → ℤ) → (ℕ → Bool) → Worker Value → Result (Worker Value)
  unfolding gather notify distribute_events clean_up
  round ndebug now alive w = do
    gathered ← gather ndebug now w.clients (record w { new_rooms = []; destroyed_rooms = [] })
    ok (clean_up (distribute_events alive (notify gathered)))

  -- What a round starts from besides the worker's own variables: the times at which messages are handled,
  -- which connection objects exist, and the snapshot of the connections.
  pub record Input : Type 0 where
    pub now : ℕ → ℕ → ℤ
    pub alive : ℕ → Bool
    pub connections : List (ClientConnection Value)

  -- The loop of `server_worker`, for the rounds that are given.
  unfoldable pub run_rounds : Bool → List Input → Worker Value → Result (Worker Value)
  unfolding round
  run_rounds ndebug [] w = ok w
  run_rounds ndebug (i ∷ is) w = do
    w' ← round ndebug i.now i.alive (record w { clients = i.connections })
    run_rounds ndebug is w'

-- The loop over `config.initial_rooms`: a name that is invalid or taken is only logged.
unfoldable pub create_initial_rooms : RoomManager ServerRoom → List Text → RoomManager ServerRoom
create_initial_rooms rooms [] = rooms
create_initial_rooms rooms (name ∷ names) = create_initial_rooms (create_room rooms name).1 names

abbrev pub started : {V : Type 0} → List Text → Worker V
started initial_rooms = record {
  rooms = create_initial_rooms no_rooms initial_rooms;
  room_history = [];
  clients = [];
  new_rooms = [];
  destroyed_rooms = [];
}
