-- ===== src/Client/Update.antt =====
-- src/client/workers/chatwindow-worker.cpp: the handlers of the chat window. `format_time` is the
-- library fmt's rendering of a time, which the handlers only store.
use tavernmx.Common.{
  ℕ, Bool, true, ◌&&◌, not, Option, none, some, List, [], ◌∷◌, head?, ◌==◌, if◌then◌else◌,
}
use tavernmx.Common.Int.{ℤ, pos}
use tavernmx.Common.Text.{Text, lit, text_eq, is_empty}
use tavernmx.Common.Result.{Result, ok, ◌>>=◌}
use tavernmx.Json.{Json, contains, at, value_int, value_text, or_type_error, or_undefined}
use tavernmx.Messaging.{
  Message, Msg, room_list, room_create, room_destroy, room_history, chat_echo, text_value,
  int_value, create_room_join, create_room_history, create_room_create, create_room_destroy,
  create_chat_send, room_history_max_entries,
}
use tavernmx.Messaging.History.{assert}
use tavernmx.Queue
use tavernmx.Queue.{ThreadSafeQueue}
use tavernmx.Rooms
use tavernmx.Rooms.{
  RoomManager, create_room, update_room, remove_destroyed_rooms, request_destroy,
  is_valid_room_name, name_of, no_rooms, clear,
}
use tavernmx.Util.{tokenize_string, str_tolower}
use tavernmx.Client.{
  ClientRoom, client_room, ClientRoomEvent, ChatScreen, select_room_by_name, update_rooms,
  insert_chat_history_event, rewrite_chat_history, pick_room,
}

-- The variables of the handlers: `client_rooms`, the screen, and the queue of messages to send.
pub record Client (V : Type 0) : Type 0 where
  pub rooms : RoomManager ClientRoom
  pub screen : ChatScreen
  pub messages_out : ThreadSafeQueue (Message V)

abbrev pub set_joined : ClientRoom → ClientRoom
set_joined r = record r { is_joined = true }

abbrev pub mark_destroyed : ClientRoom → ClientRoom
mark_destroyed r = record r { base = request_destroy r.base }

-- The rooms without the one that was destroyed.
abbrev pub without_room : Text → RoomManager ClientRoom → RoomManager ClientRoom
without_room name rooms = remove_destroyed_rooms (update_room rooms name mark_destroyed)

module _ {V : Type 0} where
  abbrev pub send : Message V → Client V → Client V
  send m c = record c { messages_out = Queue.push c.messages_out m }

  -- `update_rooms(client_rooms.room_names())`
  abbrev pub show_rooms : Client V → Client V
  show_rooms c = record c { screen = update_rooms c.rooms.room_names c.screen }

  abbrev pub select : Text → Client V → Client V
  select name c = record c { screen = select_room_by_name name c.screen }

module _ {V : Type 0} where
  abbrev pub clear_input : Client V → Client V
  clear_input c = record c { screen = record c.screen { chat_input = [] } }

module _ (json : Json) where
  open json use {Value}

  -- Joins the room that is given, and asks for its history.
  unfoldable pub join_and_ask : ClientRoom → Client Value → Result (Client Value)
  join_and_ask room c = do
    let name = name_of room
    ask ← create_room_history json name room_history_max_entries
    ok (
        send ask (record (send (create_room_join json name) c) {
          rooms = update_room c.rooms name set_joined;
        }))

  unfoldable pub issue_room_join_if_needed : Text → Client Value → Result (Client Value)
  unfolding join_and_ask
  issue_room_join_if_needed name c = if is_empty name then ok c else elim (Rooms.get c.rooms name) [
    | none ↦ ok c
    | some room ↦ if room.is_joined then ok c else join_and_ask room c
  ]

  unfoldable pub event_json_to_room_event : Bool → (ℤ → Text) → Value → Result ClientRoomEvent
  event_json_to_room_event ndebug format_time v =
      assert ndebug (contains json v (lit "timestamp") && contains json v (lit "user_name")) (do
        timestamp ← value_int json v (lit "timestamp") (pos 0)
        user_name ← value_text json v (lit "user_name") []
        text ← value_text json v (lit "text") []
        ok (record {
          event = record { timestamp = timestamp; origin_user_name = user_name; event_text = text };
          timestamp_text = format_time timestamp;
        }))

  unfoldable pub to_events : Bool → (ℤ → Text) → List Value → Result (List ClientRoomEvent)
  unfolding event_json_to_room_event
  to_events ndebug format_time [] = ok []
  to_events ndebug format_time (v ∷ vs) = do
    e ← event_json_to_room_event ndebug format_time v
    es ← to_events ndebug format_time vs
    ok (e ∷ es)

  -- A count that is not the number of events is only logged.
  unfoldable pub room_history_message_to_events :
      Bool → (ℤ → Text) → Msg json → Result (List ClientRoomEvent)
  unfolding to_events
  room_history_message_to_events ndebug format_time m = do
    event_count ← int_value json m (lit "event_count")
    if contains json m.values (lit "events")
        then (do
          events ← at json m.values (lit "events")
          to_events ndebug format_time (json.elements events))
        else ok []

  -- The loop over the items of a ROOM_LIST.
  unfoldable pub create_rooms :
      RoomManager ClientRoom → List Value → Result (RoomManager ClientRoom)
  create_rooms rooms [] = ok rooms
  create_rooms rooms (v ∷ vs) = do
    name ← or_type_error (json.get_text v)
    create_rooms (create_room rooms name).1 vs

  unfoldable pub on_room_list : Msg json → Client Value → Result (Client Value)
  unfolding create_rooms issue_room_join_if_needed
  on_room_list m c = do
    rooms ← create_rooms (clear c.rooms) (json.elements m.values)
    let listed = select c.screen.current_room_name (show_rooms (record c { rooms = rooms }))
    issue_room_join_if_needed listed.screen.current_room_name listed

  -- What ROOM_CREATE does with the outcome of `create_room`.
  unfoldable pub created :
      Text → Client Value → Option ClientRoom × RoomManager ClientRoom → Result (Client Value)
  unfolding issue_room_join_if_needed
  created current c (none, rooms) = ok (record c { rooms = rooms })
  created current c (some room, rooms) =
      let listed = select current (show_rooms (record c { rooms = rooms })) in
      issue_room_join_if_needed listed.screen.current_room_name listed

  unfoldable pub on_room_create : Msg json → Client Value → Result (Client Value)
  unfolding created
  on_room_create m c = do
    name ← text_value json m (lit "room_name")
    created c.screen.current_room_name c (create_room c.rooms name)

  unfoldable pub on_room_destroy : Msg json → Client Value → Result (Client Value)
  unfolding issue_room_join_if_needed
  on_room_destroy m c = do
    name ← text_value json m (lit "room_name")
    let listed = show_rooms (record c { rooms = without_room name c.rooms })
    elim (Rooms.get c.rooms name) [
      | none ↦ ok c
      | some room ↦
          if text_eq c.screen.current_room_name name
          then issue_room_join_if_needed listed.screen.current_room_name listed
          else ok (select c.screen.current_room_name listed)
    ]

  unfoldable pub on_room_history :
      Bool → (ℤ → Text) → Msg json → Client Value → Result (Client Value)
  unfolding room_history_message_to_events
  on_room_history ndebug format_time m c = do
    name ← text_value json m (lit "room_name")
    elim (Rooms.get c.rooms name) [
      | none ↦ ok c
      | some room ↦ do
        events ← room_history_message_to_events ndebug format_time m
        ok (record c { screen = rewrite_chat_history (name_of room) events c.screen })
    ]

  unfoldable pub on_chat_echo : Bool → (ℤ → Text) → Msg json → Client Value → Result (Client Value)
  unfolding event_json_to_room_event
  on_chat_echo ndebug format_time m c = do
    name ← text_value json m (lit "room_name")
    event ← event_json_to_room_event ndebug format_time m.values
    ok (record c { screen = insert_chat_history_event name event c.screen })

  -- The `switch` of MSG_UPDATE over one message.
  unfoldable pub on_message : Bool → (ℤ → Text) → Msg json → Client Value → Result (Client Value)
  unfolding on_room_list on_room_create on_room_destroy on_room_history on_chat_echo
  on_message ndebug format_time m c = elim m.message_type [
    | room_list ↦ on_room_list m c
    | room_create ↦ on_room_create m c
    | room_destroy ↦ on_room_destroy m c
    | room_history ↦ on_room_history ndebug format_time m c
    | chat_echo ↦ on_chat_echo ndebug format_time m c
    | _ ↦ ok c
  ]

  -- MSG_ROOM_CHANGED, after the user picked entry `i` of the list box.
  unfoldable pub on_room_changed : ℕ → Client Value → Result (Client Value)
  unfolding issue_room_join_if_needed
  on_room_changed i c =
      let picked = record c { screen = pick_room i c.screen } in
      issue_room_join_if_needed picked.screen.current_room_name picked

  -- A chat command, by its tokens: what is sent.
  unfoldable pub run_command : Text → List Text → Client Value → Client Value
  run_command command tokens c =
      if text_eq command (lit "/create_room")
      then elim tokens [
        | _ ∷ name ∷ [] ↦
            if is_valid_room_name name then send (create_room_create json name) c else c
        | _ ↦ c
      ]
      else if text_eq command (lit "/destroy_room")
      then elim tokens [
        | _ ∷ name ∷ [] ↦ elim (Rooms.get c.rooms name) [
          | none ↦ c
          | some room ↦ send (create_room_destroy json (name_of room)) c
        ]
        | _ ↦ c
      ]
      else c

  -- What is done with the text of the input box. `tokens[0]` of no tokens is undefined.
  unfoldable pub submit_text : Text → Client Value → Result (Client Value)
  unfolding run_command
  submit_text [] c = ok c
  submit_text (first ∷ rest) c =
      if first == b'/'
      then (do
        let tokens = tokenize_string (first ∷ rest) b' ' []
        command ← or_undefined (head? tokens)
        ok (clear_input (run_command (str_tolower command) tokens c)))
      else if not (is_empty c.screen.current_room_name)
      then ok
          (clear_input (send (create_chat_send json c.screen.current_room_name (first ∷ rest)) c))
      else ok (clear_input c)

  -- MSG_CHAT_SUBMIT
  unfoldable pub on_chat_submit : Client Value → Result (Client Value)
  unfolding submit_text
  on_chat_submit c = submit_text c.screen.chat_input c
