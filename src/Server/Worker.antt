-- ===== src/Server/Worker.antt =====
-- `server_worker` of src/server/workers/server-worker.cpp: one round of its loop.
use tavernmx.Common.{
  ℕ, Bool, not, Option, none, some, List, [], ◌∷◌, ◌++◌, ◌==◌, leb, if◌then◌else◌,
}
use tavernmx.Common.Int.{ℤ, pos, negsuc}
use tavernmx.Common.Text.{Text, lit, is_empty}
use tavernmx.Common.Result.{Result, ok, ◌>>=◌}
use tavernmx.Json.{Json}
use tavernmx.Messaging.{
  Message, Msg, room_list, room_create, room_join, room_destroy, room_history, chat_send,
  text_value, int_value, create_room_list, room_history_max_entries,
}
use tavernmx.Queue
use tavernmx.Rooms
use tavernmx.Rooms.{RoomManager, create_room, update_room, remove_destroyed_rooms}
use tavernmx.Server.{
  RoomEvent, ClientConnection, ServerRoom, server_room, join, add_client, mark_destroyed,
  push_event,
}
use tavernmx.Server.History.{RoomHistory, insert_event_into_room_history, get_room_history}

-- The variables of `server_worker`: the clients are those of the round's snapshot.
pub record Worker (V : Type 0) : Type 0 where
  pub rooms : RoomManager ServerRoom
  pub room_history : RoomHistory
  pub clients : List (ClientConnection V)
  pub new_rooms : List Text
  pub destroyed_rooms : List Text

-- A change of the connection with the id.
unfoldable pub change_client :
    {V : Type 0}
    → ℕ
    → (ClientConnection V → ClientConnection V)
    → List (ClientConnection V)
    → List (ClientConnection V)
change_client id f [] = []
change_client id f (c ∷ cs) = if c.id == id then f c ∷ cs else c ∷ change_client id f cs

module _ {V : Type 0} where
  abbrev pub push_out : Message V → ClientConnection V → ClientConnection V
  push_out m c = record c { messages_out = Queue.push c.messages_out m }

  -- `client->messages_out.push(m)`
  unfoldable pub send_to : ℕ → Message V → Worker V → Worker V
  unfolding change_client
  send_to id m w = record w { clients = change_client id (push_out m) w.clients }

  abbrev pub with_rooms : Worker V → RoomManager ServerRoom → Worker V
  with_rooms w rooms = record w { rooms = rooms }

  -- What ROOM_CREATE does with the outcome of `create_room`.
  abbrev pub created : ℕ → Text → Worker V → Option ServerRoom × RoomManager ServerRoom → Worker V
  created id name w (none, rooms) = with_rooms w rooms
  created id name w (some room, rooms) = record w {
    rooms = update_room rooms name (add_client id);
    new_rooms = w.new_rooms ++ name ∷ [];
  }

module _ (json : Json) where
  open json use {Value}

  unfoldable pub on_room_list : ℕ → Worker Value → Result (Worker Value)
  on_room_list id w = do m ← create_room_list json w.rooms.room_names; ok (send_to id m w)

  unfoldable pub on_room_create : ℕ → Msg json → Worker Value → Result (Worker Value)
  on_room_create id m w = do
    name ← text_value json m (lit "room_name")
    ok (if not (is_empty name) then created id name w (create_room w.rooms name) else w)

  unfoldable pub on_room_join : ℕ → Msg json → Worker Value → Result (Worker Value)
  on_room_join id m w = do
    name ← text_value json m (lit "room_name")
    ok (elim (Rooms.get w.rooms name) [
      | none ↦ w
      | some room ↦ with_rooms w (update_room w.rooms name (join id))
    ])

  unfoldable pub on_room_destroy : Msg json → Worker Value → Result (Worker Value)
  on_room_destroy m w = do
    name ← text_value json m (lit "room_name")
    ok (elim (Rooms.get w.rooms name) [
      | none ↦ w
      | some room ↦ record w {
        rooms = update_room w.rooms name mark_destroyed;
        destroyed_rooms = w.destroyed_rooms ++ name ∷ [];
      }
    ])

  -- `event_count >= 0 && event_count <= ROOM_HISTORY_MAX_ENTRIES`: the count, if it is in range.
  abbrev pub count_in_range : ℤ → Option ℕ
  count_in_range (negsuc n) = none
  count_in_range (pos n) = if leb n room_history_max_entries then some n else none

  -- Both a known room and a count in range are needed for a reply.
  unfoldable pub history_reply :
      Bool → ℕ → Text → Worker Value → Option ServerRoom → Option ℕ → Result (Worker Value)
  history_reply ndebug id name w (some room) (some event_count) = do
    reply ← get_room_history json ndebug w.room_history name event_count
    ok (send_to id reply w)
  history_reply ndebug id name w _ _ = ok w

  unfoldable pub on_room_history : Bool → ℕ → Msg json → Worker Value → Result (Worker Value)
  on_room_history ndebug id m w = do
    name ← text_value json m (lit "room_name")
    event_count ← int_value json m (lit "event_count")
    history_reply ndebug id name w (Rooms.get w.rooms name) (count_in_range event_count)

  unfoldable pub on_chat_send : ℤ → ℕ → Text → Msg json → Worker Value → Result (Worker Value)
  on_chat_send now id user m w = do
    name ← text_value json m (lit "room_name")
    elim (Rooms.get w.rooms name) [
      | none ↦ ok w
      | some room ↦ do
        text ← text_value json m (lit "text")
        let event : RoomEvent = record {
          timestamp = now;
          origin_user_name = user;
          event_text = text;
        }
        ok (record w {
          rooms = update_room w.rooms name (push_event event);
          room_history = insert_event_into_room_history w.room_history name event;
        })
    ]

  -- The `switch` over one message that the client `id`, whose user is `user`, sent. `now` is the time
  -- that an event made here is stamped with.
  unfoldable pub handle : Bool → ℤ → ℕ → Text → Msg json → Worker Value → Result (Worker Value)
  unfolding on_room_list on_room_create on_room_join on_room_destroy on_room_history on_chat_send
      history_reply
  handle ndebug now id user m w = elim m.message_type [
    | room_list ↦ on_room_list id w
    | room_create ↦ on_room_create id m w
    | room_join ↦ on_room_join id m w
    | room_destroy ↦ on_room_destroy m w
    | room_history ↦ on_room_history ndebug id m w
    | chat_send ↦ on_chat_send now id user m w
    | _ ↦ ok w
  ]
