-- ===== src/Client/Asked.antt =====
-- The requests of the chat window (src/client/workers/chatwindow-worker.cpp): every room that a client
-- holds as joined is one whose ROOM_JOIN and ROOM_HISTORY it has queued.
use mathlib.Core.List.{Memᴰ}
use mathlib.Core.List.Memᴰ
use tavernmx.Common.{
  ◌≡◌, refl, Bool, true, none, some, List, [], ◌∷◌, ◌++◌, head?, ◌==◌, All, Bool-cases,
  Option-cases, inl, inr, ℕ, sym, subst, Option,
}
use tavernmx.Common.Int.{ℤ, pos}
use tavernmx.Common.Text.{Text, lit, text_eq, is_empty}
use tavernmx.Common.Result.{Ensures, Ensures-bind, Ensures-ok}
use tavernmx.Json.{Json, or_undefined, or_type_error}
use tavernmx.Messaging.{
  Msg, MessageType, room_list, room_create, room_destroy, room_history, chat_echo, text_value,
  create_room_join, with_pairs,
}
use tavernmx.Util.{tokenize_string, str_tolower}
use tavernmx.Queue
use tavernmx.Queue.{ThreadSafeQueue}
use tavernmx.Rooms
use tavernmx.Rooms.{
  RoomManager, find_room, change_room, create_room, update_room, remove_destroyed_rooms, no_rooms,
  name_of, is_destroy_requested, kept_rooms, is_valid_room_name,
}
use tavernmx.Client.{ClientRoom, client_room, new_client_room}
use tavernmx.Client.Handlers.{run_command-sends}
use tavernmx.Client.Update.{
  Client, set_joined, mark_destroyed, without_room, send, join_and_ask, issue_room_join_if_needed,
  create_rooms, on_room_list, created, on_room_create, on_room_destroy, on_room_history,
  on_chat_echo, on_message, on_room_changed, room_history_message_to_events,
  event_json_to_room_event, run_command, submit_text,
}
use tavernmx.Client.Each.{All-weaken, change-All, remove-All, create-All, find-All}

module _ (json : Json) where
  open json use {Value}

  -- A request for 100 events of a room.
  abbrev history_request : Text → Msg json
  history_request name =
      with_pairs json room_history
        ((lit "room_name", json.of_text name) ∷ (lit "event_count", json.of_int (pos 100)) ∷ [])

  -- The requests to join a room and for its history are among the messages.
  abbrev pub HasAsked : List (Msg json) → Text → Type 0
  HasAsked ms name = Memᴰ (create_room_join json name) ms × Memᴰ (history_request name) ms

  abbrev Asked : List (Msg json) → ClientRoom → Type 0
  Asked ms r = r.is_joined ≡ true → HasAsked ms (name_of r)

  -- All rooms that are held as joined have been asked for.
  abbrev pub AllAsked : Client Value → Type 0
  AllAsked c = All (Asked c.messages_out.items) c.rooms.active_rooms

  more-Asked :
      (m : Msg json) (ms : List (Msg json)) (r : ClientRoom) → Asked ms r → Asked (ms ++ m ∷ []) r
  more-Asked m ms r h j =
      let (joins, asks) = h j in (Memᴰ.append_left _ joins, Memᴰ.append_left _ asks)

  send-AllAsked : (m : Msg json) (c : Client Value) → AllAsked c → AllAsked (send m c)
  unfolding Queue.push
  send-AllAsked m c h = All-weaken (more-Asked m c.messages_out.items) c.rooms.active_rooms h

  join_and_ask-AllAsked :
      (room : ClientRoom) (c : Client Value)
      → AllAsked c
      → Ensures AllAsked (join_and_ask json room c)
  unfolding join_and_ask update_room Queue.push
  join_and_ask-AllAsked room c h =
      let name = name_of room in
      let join = create_room_join json name in
      let out = c.messages_out.items in
      let ask = history_request name in
      let asked : HasAsked ((out ++ join ∷ []) ++ ask ∷ []) name = (
        Memᴰ.append_left _ (Memᴰ.append_right out (Memᴰ.head refl)),
        Memᴰ.append_right (out ++ join ∷ []) (Memᴰ.head refl),
      ) in
      let kept =
        All-weaken (more-Asked ask (out ++ join ∷ [])) c.rooms.active_rooms
          (All-weaken (more-Asked join out) c.rooms.active_rooms h) in
      change-All (Asked ((out ++ join ∷ []) ++ ask ∷ [])) set_joined name c.rooms.active_rooms
        (λ r same p j. subst (HasAsked ((out ++ join ∷ []) ++ ask ∷ [])) (sym same) asked) kept

  issue-AllAsked :
      (name : Text) (c : Client Value)
      → AllAsked c
      → Ensures AllAsked (issue_room_join_if_needed json name c)
  unfolding issue_room_join_if_needed
  issue-AllAsked name c h = elim (Bool-cases (is_empty name)) [
    | inl e ↦ rw e h
    | inr e ↦ elim (Option-cases (Rooms.get c.rooms name)) [
      | inl gone ↦ rw (e, gone) h
      | inr (room, found) ↦ elim (Bool-cases room.is_joined) [
        | inl joined ↦ rw (e, found, joined) h
        | inr fresh ↦ rw (e, found, fresh) (join_and_ask-AllAsked room c h)
      ]
    ]
  ]

  fresh-Asked : (ms : List (Msg json)) (n : Text) → Asked ms (new_client_room n)
  fresh-Asked ms n j = absurd (cc)

  create_rooms-AllAsked :
      (ms : List (Msg json)) (rooms : RoomManager ClientRoom) (vs : List Value)
      → All (Asked ms) rooms.active_rooms
      → Ensures (λ r. All (Asked ms) r.active_rooms) (create_rooms json rooms vs)
  unfolding create_rooms
  create_rooms-AllAsked ms rooms [] h = h
  create_rooms-AllAsked ms rooms (x ∷ xs) h =
      Ensures-bind _ (or_type_error (json.get_text x)) _ (λ name e.
        create_rooms-AllAsked ms (create_room rooms name).1 xs
          (create-All (Asked ms) rooms name (fresh-Asked ms name) h))

  on_room_list-AllAsked :
      (m : Msg json) (c : Client Value) → Ensures AllAsked (on_room_list json m c)
  unfolding on_room_list
  on_room_list-AllAsked m c =
      let rooms = create_rooms json no_rooms (json.elements m.values) in
      let out = c.messages_out.items in
      Ensures-bind AllAsked rooms _ (λ r e. issue-AllAsked _ _ (
        Ensures-ok (λ q. All (Asked out) q.active_rooms) rooms
          (create_rooms-AllAsked out no_rooms (json.elements m.values) tt) e))

  created-AllAsked :
      (current : Text) (c : Client Value) (o : Option ClientRoom) (rooms : RoomManager ClientRoom)
      → All (Asked c.messages_out.items) rooms.active_rooms
      → Ensures AllAsked (created json current c (o, rooms))
  unfolding created
  created-AllAsked current c none rooms h = h
  created-AllAsked current c (some room) rooms h = issue-AllAsked _ _ h

  on_room_create-AllAsked :
      (m : Msg json) (c : Client Value) → AllAsked c → Ensures AllAsked (on_room_create json m c)
  unfolding on_room_create
  on_room_create-AllAsked m c h =
      Ensures-bind AllAsked (text_value json m (lit "room_name")) _ (λ name e.
        created-AllAsked c.screen.current_room_name c (create_room c.rooms name).0
          (create_room c.rooms name).1
          (create-All (Asked c.messages_out.items) c.rooms name
            (fresh-Asked c.messages_out.items name) h))

  without_room-Asked :
      (ms : List (Msg json)) (n : Text) (rooms : RoomManager ClientRoom)
      → All (Asked ms) rooms.active_rooms
      → All (Asked ms) (without_room n rooms).active_rooms
  unfolding update_room
  without_room-Asked ms n rooms h =
      remove-All (Asked ms) (update_room rooms n mark_destroyed)
        (change-All (Asked ms) mark_destroyed n rooms.active_rooms (λ r e p. p) h)

  on_room_destroy-AllAsked :
      (m : Msg json) (c : Client Value) → AllAsked c → Ensures AllAsked (on_room_destroy json m c)
  unfolding on_room_destroy
  on_room_destroy-AllAsked m c h =
      Ensures-bind AllAsked (text_value json m (lit "room_name")) _ (λ name e.
        let left = without_room-Asked c.messages_out.items name c.rooms h in
        elim (Option-cases (Rooms.get c.rooms name)) [
          | inl gone ↦ rw gone h
          | inr (room, found) ↦ elim (Bool-cases (text_eq c.screen.current_room_name name)) [
            | inl same ↦ rw (found, same) (issue-AllAsked _ _ left)
            | inr other ↦ rw (found, other) left
          ]
        ])

  on_room_history-AllAsked :
      (ndebug : Bool) (format_time : ℤ → Text) (m : Msg json) (c : Client Value)
      → AllAsked c
      → Ensures AllAsked (on_room_history json ndebug format_time m c)
  unfolding on_room_history
  on_room_history-AllAsked ndebug format_time m c h =
      Ensures-bind AllAsked (text_value json m (lit "room_name")) _ (λ name e.
        elim (Option-cases (Rooms.get c.rooms name)) [
          | inl gone ↦ rw gone h
          | inr (room, found) ↦ rw found (
              Ensures-bind AllAsked (room_history_message_to_events json ndebug format_time m) _
                (λ events e'. h))
        ])

  on_chat_echo-AllAsked :
      (ndebug : Bool) (format_time : ℤ → Text) (m : Msg json) (c : Client Value)
      → AllAsked c
      → Ensures AllAsked (on_chat_echo json ndebug format_time m c)
  unfolding on_chat_echo
  on_chat_echo-AllAsked ndebug format_time m c h =
      Ensures-bind AllAsked (text_value json m (lit "room_name")) _ (λ name e.
        Ensures-bind AllAsked (event_json_to_room_event json ndebug format_time m.values) _
          (λ event e'. h))

  pub on_message-AllAsked :
      (ndebug : Bool) (format_time : ℤ → Text) (m : Msg json) (c : Client Value)
      → AllAsked c
      → Ensures AllAsked (on_message json ndebug format_time m c)
  unfolding on_message
  on_message-AllAsked ndebug format_time m c h = go m.message_type refl
    where
      go :
          (t : MessageType)
          → m.message_type ≡ t
          → Ensures AllAsked (on_message json ndebug format_time m c)
      go room_list e = rw e (on_room_list-AllAsked m c)
      go room_create e = rw e (on_room_create-AllAsked m c h)
      go room_destroy e = rw e (on_room_destroy-AllAsked m c h)
      go room_history e = rw e (on_room_history-AllAsked ndebug format_time m c h)
      go chat_echo e = rw e (on_chat_echo-AllAsked ndebug format_time m c h)
      go _ e = rw e h

  pub on_room_changed-AllAsked :
      (i : ℕ) (c : Client Value) → AllAsked c → Ensures AllAsked (on_room_changed json i c)
  unfolding on_room_changed
  on_room_changed-AllAsked i c h = issue-AllAsked _ _ h

  pub selected-Asked :
      (c : Client Value) (n : Text) (r : ClientRoom)
      → AllAsked c
      → Rooms.get c.rooms n ≡ some r
      → r.is_joined ≡ true
      → HasAsked c.messages_out.items (name_of r)
  unfolding Rooms.get
  selected-Asked c n r h found joined =
      find-All (Asked c.messages_out.items) n c.rooms.active_rooms r found h joined

  run_command-AllAsked :
      (command : Text) (tokens : List Text) (c : Client Value)
      → AllAsked c
      → AllAsked (run_command json command tokens c)
  run_command-AllAsked command tokens c h = elim (run_command-sends json command tokens c) [
    | inl same ↦ rw same h
    | inr (m, sends) ↦ rw sends (send-AllAsked m c h)
  ]

  pub submit_text-AllAsked :
      (typed : Text) (c : Client Value) → AllAsked c → Ensures AllAsked (submit_text json typed c)
  unfolding submit_text
  submit_text-AllAsked [] c h = h
  submit_text-AllAsked (first ∷ rest) c h = elim (Bool-cases (first == b'/')) [
    | inl command ↦ rw command (
        Ensures-bind AllAsked (or_undefined (head? (tokenize_string (first ∷ rest) b' ' []))) _
          (λ t e.
            run_command-AllAsked (str_tolower t) (tokenize_string (first ∷ rest) b' ' []) c h))
    | inr chat ↦ elim (Bool-cases (is_empty c.screen.current_room_name)) [
      | inl nowhere ↦ rw (chat, nowhere) h
      | inr room ↦ rw (chat, room) (send-AllAsked _ c h)
    ]
  ]
