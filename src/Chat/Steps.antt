-- ===== src/Chat/Steps.antt =====
-- The steps of a chat line on its way through the program: the input box and the history of the chat
-- window (src/client/workers/chatwindow-worker.cpp), and the server worker.
use mathlib.Core.List.{Memᴰ}
use mathlib.Core.List.Memᴰ
use tavernmx.Common.{
  ℕ, ◌≡◌, ◌≢◌, ◌∙◌, refl, sym, Bool, true, false, ◌&&◌, ◌||◌, some, List, [], ◌∷◌, ◌++◌, any_of,
  ◌==◌, arith, Bool-cases, inl, inr,
}
use tavernmx.Common.Maps.{lookup, lookup-put}
use tavernmx.Common.Int.{ℤ, to_int32, to_int32-to_int32}
use tavernmx.Common.Text.{Text, lit, text_eq, text_eq_of, text_eq_refl, text_eq-false, is_empty}
use tavernmx.Common.Result.{ok, bind_ok}
use tavernmx.Json.{Json}
use tavernmx.Messaging.{
  MessageType, chat_send, chat_echo, with_pairs, text_value, create_chat_send, create_chat_echo,
}
use tavernmx.Queue
use tavernmx.Rooms
use tavernmx.Rooms.{name_of, find_room, change_room, update_room}
use tavernmx.Server.{RoomEvent, ServerRoom, server_room, push_event}
use tavernmx.Server.Worker.{Worker, handle, on_chat_send}
use tavernmx.Server.History.{insert_event_into_room_history}
use tavernmx.Server.Round.{echo}
use tavernmx.Server.Delivery.{echoes}
use tavernmx.RingBuffer
use tavernmx.RingBuffer.Refine.{Holds, last_n, insert-Holds}
use tavernmx.RingBuffer.Observe.{iterate-Holds}
use tavernmx.Client.{ClientRoomEvent, insert_chat_history_event, history_of, chat_room_history_size}
use tavernmx.Client.Update.{
  Client, send, clear_input, submit_text, on_chat_submit, on_message, on_chat_echo,
  event_json_to_room_event,
}

abbrev pub first_of : Text → ℕ
first_of [] = 0
first_of (c ∷ s) = c

-- The event that the reader's history gets.
abbrev pub seen : (ℤ → Text) → ℤ → Text → Text → ClientRoomEvent
seen format_time now user line = record {
  event = record { timestamp = to_int32 now; origin_user_name = user; event_text = line };
  timestamp_text = format_time (to_int32 now);
}

module _ (json : Json) where
  open json use {Value}

  pub text_value-pairs :
      (t : MessageType) (ps : List (Text × Value)) (k v : Text)
      → lookup k ps ≡ some (json.of_text v)
      → text_value json (with_pairs json t ps) k ≡ ok v
  text_value-pairs t ps k v h =
      let (primitive, not_null) = json.primitive-of_text v in
      rw (
        json.is_object-object_of ps,
        json.field-object_of ps k,
        h,
        primitive,
        not_null,
        json.get_text-of_text v,
      )

  -- What the server makes of a line in a room that exists.
  abbrev pub said : Text → RoomEvent → Worker Value → Worker Value
  said name e w = record w {
    rooms = update_room w.rooms name (push_event e);
    room_history = insert_event_into_room_history w.room_history name e;
  }

  abbrev pub event_of : ℤ → Text → Text → RoomEvent
  event_of now user line = record { timestamp = now; origin_user_name = user; event_text = line }

  pub handle-said :
      (ndebug : Bool) (now : ℤ) (id : ℕ) (user name line : Text) (w : Worker Value)
      (room : ServerRoom)
      → Rooms.get w.rooms name ≡ some room
      → handle json ndebug now id user (create_chat_send json name line) w
        ≡ ok (said name (event_of now user line) w)
  unfolding handle on_chat_send
  handle-said ndebug now id user name line w room found =
      let named : text_value json (create_chat_send json name line) (lit "room_name") ≡ ok name =
        text_value-pairs chat_send _ _ name (unfold lookup in unfold text_eq in refl) in
      let worded : text_value json (create_chat_send json name line) (lit "text") ≡ ok line =
        text_value-pairs chat_send _ _ line (unfold lookup in unfold text_eq in refl) in
      bind_ok _ named (rw found (bind_ok _ worded refl))

  -- The room's readers are owed an echo of the event.
  pub echoes-push_event :
      (reader : ℕ) (alive : ℕ → Bool) (name : Text) (e : RoomEvent) (rs : List ServerRoom)
      (room : ServerRoom)
      → find_room name rs ≡ some room
      → (alive reader && any_of (λ c. c == reader) room.joined_clients) ≡ true
      → Memᴰ (echo json name e) (echoes json reader alive (change_room name (push_event e) rs))
  unfolding find_room change_room echoes Queue.push
  echoes-push_event reader alive name e [] room found joined = absurd (cc)
  echoes-push_event reader alive name e (r ∷ rs) room found joined =
      elim (Bool-cases (text_eq (name_of r) name)) [
        | inl here ↦
            let same : r ≡ room = cc (rw here at found) in
            let owed : (alive reader && any_of (λ c. c == reader) r.joined_clients) ≡ true =
              rw same joined in
            let queued : Memᴰ e (r.events.items ++ e ∷ []) =
              Memᴰ.append_right r.events.items (Memᴰ.head refl) in
            rw (here, owed, text_eq_of (name_of r) name here)
              (Memᴰ.append_left _ (Memᴰ.map (echo json name) queued))
        | inr there ↦
            let later : find_room name rs ≡ some room = rw there at found in
            rw there
              (Memᴰ.append_right _ (echoes-push_event reader alive name e rs room later joined))
      ]

  pub submit-said :
      (c : Client Value) (line : Text)
      → c.screen.chat_input ≡ line
      → is_empty line ≡ false
      → (first_of line == b'/') ≡ false
      → is_empty c.screen.current_room_name ≡ false
      → on_chat_submit json c
        ≡ ok (clear_input (send (create_chat_send json c.screen.current_room_name line) c))
  unfolding on_chat_submit submit_text
  submit-said c [] typed some_line plain selected = absurd (cc)
  submit-said c (first ∷ rest) typed some_line plain selected = rw (typed, plain, selected)

  -- What a value of an echo is read as.
  pub echoed :
      (ndebug : Bool) (format_time : ℤ → Text) (name line user : Text) (now : ℤ)
      → event_json_to_room_event json ndebug format_time
          (create_chat_echo json name line user (to_int32 now)).values
        ≡ ok (seen format_time now user line)
  unfolding event_json_to_room_event
  echoed ndebug format_time name line user now =
      let v = (create_chat_echo json name line user (to_int32 now)).values in
      let at_time : json.field v (lit "timestamp") ≡ some (json.of_int (to_int32 now)) =
        json.field-object_of _ _ ∙ (unfold lookup in unfold text_eq in refl) in
      let at_user : json.field v (lit "user_name") ≡ some (json.of_text user) =
        json.field-object_of _ _ ∙ (unfold lookup in unfold text_eq in refl) in
      let at_text : json.field v (lit "text") ≡ some (json.of_text line) =
        json.field-object_of _ _ ∙ (unfold lookup in unfold text_eq in refl) in
      let asserted : (ndebug || true) ≡ true = ground arith in
      rw (
        at_time,
        at_user,
        at_text,
        asserted,
        json.is_object-object_of _,
        json.get_int-of_int (to_int32 now) (to_int32-to_int32 now),
        json.get_text-of_text user,
        json.get_text-of_text line,
      )

  -- The reader after an echo.
  abbrev pub reads : Text → ClientRoomEvent → Client Value → Client Value
  reads name event r = record r { screen = insert_chat_history_event name event r.screen }

  pub reads-history :
      (name : Text) (event : ClientRoomEvent) (past : List ClientRoomEvent) (r : Client Value)
      → Holds chat_room_history_size (history_of (lookup name r.screen.chat_room_history)) past
      → RingBuffer.iterate chat_room_history_size
          (history_of (lookup name (reads name event r).screen.chat_room_history))
        ≡ some (last_n 999 (past ++ event ∷ []))
  unfolding insert_chat_history_event
  reads-history name event past r held =
      let b = history_of (lookup name r.screen.chat_room_history) in
      let held_now = insert-Holds chat_room_history_size b past event held in
      rw
        (
          lookup-put name name (RingBuffer.insert chat_room_history_size b event)
              r.screen.chat_room_history,
          text_eq_refl name,
        )
        (iterate-Holds chat_room_history_size _ _ held_now)

  pub reads-other :
      (name other : Text) (event : ClientRoomEvent) (r : Client Value)
      → other ≢ name
      → lookup other (reads name event r).screen.chat_room_history
        ≡ lookup other r.screen.chat_room_history
  unfolding insert_chat_history_event
  reads-other name other event r apart =
      lookup-put name other _ r.screen.chat_room_history
      ∙ rw (text_eq-false name other (λ e. apart (sym e)))

  pub on_message-echo :
      (ndebug : Bool) (format_time : ℤ → Text) (name line user : Text) (now : ℤ) (r : Client Value)
      → on_message json ndebug format_time (create_chat_echo json name line user (to_int32 now)) r
        ≡ ok (reads name (seen format_time now user line) r)
  unfolding on_message on_chat_echo
  on_message-echo ndebug format_time name line user now r =
      let named : text_value json (create_chat_echo json name line user (to_int32 now))
            (lit "room_name")
          ≡ ok name =
        text_value-pairs chat_echo _ _ name (unfold lookup in unfold text_eq in refl) in
      bind_ok _ named (bind_ok _ (echoed ndebug format_time name line user now) refl)
