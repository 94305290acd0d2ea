-- ===== src/Chat.antt =====
-- The way of a chat line through the whole program: from the input box of one client, by its chat
-- window (src/client/workers/chatwindow-worker.cpp), a message block (src/shared/messaging.cpp) and
-- the server worker (src/server/workers/server-worker.cpp), into the chat history of another client.
pub mod Steps
mod Examples
use mathlib.Core.List.{Memᴰ}
use mathlib.Core.List.Memᴰ
use tavernmx.Common.{
  ℕ, ◌^◌, ◌<◌, ◌≡◌, ◌≢◌, ◌∙◌, refl, sym, ap, subst, Bool, true, false, not, ◌&&◌, ◌||◌, Option,
  none, some, List, [], ◌∷◌, ◌++◌, map, length, any_of, ◌==◌, arith, Bool-cases, inl, inr,
  if◌then◌else◌,
}
use tavernmx.Common.Maps.{lookup, lookup-put}
use tavernmx.Common.Int.{ℤ, to_int32, to_int32-to_int32}
use tavernmx.Common.Text.{Text, lit, text_eq, text_eq_of, text_eq_refl, text_eq-false, is_empty}
use tavernmx.Common.Result.{Result, ok, ◌>>=◌, Ensures-ok, bind_ok}
use tavernmx.Json.{Json, contains, value_int, value_text}
use tavernmx.Messaging.{
  MessageType, type_of, Msg, chat_send, chat_echo, with_pairs, text_value, create_chat_send,
  create_chat_echo, create_room_create, create_room_destroy,
}
use tavernmx.Messaging.Block.{MessageBlock}
use tavernmx.Messaging.Pack.{pack_message, unpack_messages}
use tavernmx.Connection.Handshake.{unpack-pack_message}
use tavernmx.Queue
use tavernmx.Rooms
use tavernmx.Rooms.{name_of, find_room, change_room, update_room}
use tavernmx.Server.{RoomEvent, ServerRoom, server_room, push_event}
use tavernmx.Server.Worker.{Worker, handle, on_chat_send}
use tavernmx.Server.History.{insert_event_into_room_history}
use tavernmx.Server.Round.{notify, distribute_events, clean_up, echo}
use tavernmx.Server.Sound.{IsSound}
use tavernmx.Server.Invariant.{handle-IsSound}
use tavernmx.Server.Delivery.{outbox, and_then, echoes, round-outbox}
use tavernmx.RingBuffer
use tavernmx.RingBuffer.Refine.{Holds, last_n, insert-Holds}
use tavernmx.RingBuffer.Observe.{iterate-Holds}
use tavernmx.Client.{ClientRoomEvent, insert_chat_history_event, history_of, chat_room_history_size}
use tavernmx.Client.Update.{
  Client, send, clear_input, submit_text, on_chat_submit, on_message, on_chat_echo,
  event_json_to_room_event,
}
use tavernmx.Chat.Steps.{
  first_of, seen, text_value-pairs, said, event_of, handle-said, echoes-push_event, submit-said,
  echoed, reads, reads-history, reads-other, on_message-echo,
}

module _ (json : Json) where
  open json use {Value}

  -- What becomes of the line: `sent` carries it from the client `c` to the server, in the block `up`,
  -- and `answer` from there to the client `r`, in the block `down`. `past` is what the history of the
  -- room holds at `r` before, and `other` is another room.
  pub record IsSeen (ndebug : Bool) (format_time : ℤ → Text) (now : ℤ) (alive : ℕ → Bool)
      (line user : Text) (c r : Client Value) (id reader : ℕ) (w : Worker Value)
      (waiting : List (Msg json)) (up down : MessageBlock) (past : List ClientRoomEvent)
      (other : Text) : Type 0 where
    pub sent : Msg json
    pub sender_after : Client Value
    pub submitted : on_chat_submit json c ≡ ok sender_after
    pub cleared : sender_after.screen.chat_input ≡ []
    pub asked : sender_after.messages_out.items ≡ c.messages_out.items ++ sent ∷ []
    pub carried_up : unpack_messages json up ≡ ok (sent ∷ [])
    pub after : Worker Value
    pub handled : handle json ndebug now id user sent w ≡ ok after
    pub answer : Msg json
    pub queued : List (Msg json)
    pub answered : Memᴰ answer queued
    pub distributed :
        outbox reader (clean_up json (distribute_events json alive (notify json after))).clients
        ≡ some (waiting ++ queued)
    pub carried_down : unpack_messages json down ≡ ok (answer ∷ [])
    pub reader_after : Client Value
    pub displayed : on_message json ndebug format_time answer r ≡ ok reader_after
    -- The history of the room, read from its oldest event on.
    pub history :
        RingBuffer.iterate chat_room_history_size
          (history_of (lookup c.screen.current_room_name reader_after.screen.chat_room_history))
        ≡ some (last_n 999 (past ++ seen format_time now user line ∷ []))
    pub other_history :
        lookup other reader_after.screen.chat_room_history ≡ lookup other r.screen.chat_room_history
    pub same_rooms : reader_after.rooms ≡ r.rooms
    pub nothing_sent : reader_after.messages_out ≡ r.messages_out

  -- A chat line arrives. Let a client with a room selected submit a line that is not empty and no
  -- command, let the room exist on the server, whose worker is in a sound state, and let a client
  -- that exists be joined to it, whose own history of the room is a ring buffer that holds the
  -- events `past`. Then the input is cleared and one CHAT_SEND queued, which is the one that is
  -- unpacked from its block. If the worker handles it last in step 1 of a round, then by the end
  -- of the round a CHAT_ECHO is queued for that client, behind what waits for it. It is unpacked
  -- from its block as it was, and when the reader processes it, its history of the room, read from
  -- the oldest event on, is the last 999 of `past` and, as the newest, the line with the sender's
  -- name and the server's time as an `int32_t`. The histories of other rooms, the rooms and the
  -- messages to send are as before. Both blocks are of less than 2^32 bytes.
  pub chat-IsSeen :
      (ndebug : Bool) (format_time : ℤ → Text) (now : ℤ) (alive : ℕ → Bool) (line user : Text)
      (c r : Client Value) (id reader : ℕ) (w : Worker Value) (room : ServerRoom)
      (waiting : List (Msg json)) (up down : MessageBlock) (past : List ClientRoomEvent)
      (other : Text)
      → c.screen.chat_input ≡ line
      → is_empty line ≡ false
      → (first_of line == b'/') ≡ false
      → is_empty c.screen.current_room_name ≡ false
      → IsSound w
      → Rooms.get w.rooms c.screen.current_room_name ≡ some room
      → (alive reader && any_of (λ j. j == reader) room.joined_clients) ≡ true
      → outbox reader w.clients ≡ some waiting
      → pack_message json (create_chat_send json c.screen.current_room_name line) ≡ ok up
      → length up.payload < 2 ^ 32
      → pack_message json
          (create_chat_echo json c.screen.current_room_name line user (to_int32 now))
        ≡ ok down
      → length down.payload < 2 ^ 32
      → Holds chat_room_history_size
          (history_of (lookup c.screen.current_room_name r.screen.chat_room_history))
          past
      → other ≢ c.screen.current_room_name
      → IsSeen ndebug format_time now alive line user c r id reader w waiting up down past other
  unfolding find_room Rooms.get type_of update_room change_room
  chat-IsSeen ndebug format_time now alive line user c r id reader w room waiting up down past other
        typed some_line plain selected sound found joined queue packed_up small_up packed_down
        small_down held apart =
      let name = c.screen.current_room_name in
      let m = create_chat_send json name line in
      let e = event_of json now user line in
      let handled = handle-said json ndebug now id user name line w room found in
      let after_sound =
        Ensures-ok IsSound (handle json ndebug now id user m w)
          (handle-IsSound json ndebug now id user m w sound) handled in
      let owed =
        echoes-push_event json reader alive name e w.rooms.active_rooms room found joined in
      record {
        sent = m;
        sender_after = clear_input (send m c);
        submitted = submit-said json c line typed some_line plain selected;
        cleared = refl;
        asked = unfold Queue.push in refl;
        carried_up =
            unpack-pack_message json m up (refl, unfold to_int32 in refl) packed_up small_up;
        after = said json name e w;
        handled = handled;
        answer = echo json name e;
        queued =
            map (create_room_create json) w.new_rooms
            ++ (map (create_room_destroy json) w.destroyed_rooms
                ++ echoes json reader alive (said json name e w).rooms.active_rooms);
        answered = Memᴰ.append_right _ (Memᴰ.append_right _ owed);
        distributed =
            round-outbox json reader alive (said json name e w) after_sound ∙ ap (and_then _) queue;
        carried_down =
            unpack-pack_message json (echo json name e) down (refl, unfold to_int32 in refl)
              packed_down small_down;
        reader_after = reads json name (seen format_time now user line) r;
        displayed = on_message-echo json ndebug format_time name line user now r;
        history = reads-history json name (seen format_time now user line) past r held;
        other_history = reads-other json name other (seen format_time now user line) r apart;
        same_rooms = refl;
        nothing_sent = refl;
      }
