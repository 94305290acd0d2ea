-- ===== src/Server/Invariant.antt =====
-- The handlers of messages, and so step 1 of a round, keep the worker's invariant.
use tavernmx.Common.{
  ◌+◌, ℕ, ◌≡◌, refl, Bool, Option, none, some, List, [], ◌∷◌, any_of, ◌==◌, All-append, Bool-cases,
  Option-cases, inl, inr,
}
use tavernmx.Common.Int.{ℤ}
use tavernmx.Common.Text.{Text, lit, is_empty}
use tavernmx.Common.Result.{Ensures, Ensures-bind, Ensures-ok}
use tavernmx.Json.{Json}
use tavernmx.Messaging.{
  Msg, MessageType, room_list, room_create, room_join, room_destroy, room_history, chat_send,
  text_value, int_value, create_room_list,
}
use tavernmx.Rooms.{create_room, update_room, get}
use tavernmx.Rooms.Manager.{
  IsValid, KeepsName, create_room-IsValid, create_room-cases, update_room-IsValid,
}
use tavernmx.Server.{
  ClientConnection, ServerRoom, server_room, join, add_client, mark_destroyed, push_event,
}
use tavernmx.Server.Worker.{
  Worker, send_to, handle, created, history_reply, on_room_list, on_room_create, on_room_join,
  on_room_destroy, on_room_history, on_chat_send, count_in_range,
}
use tavernmx.Server.History.{get_room_history}
use tavernmx.Server.Round.{take_message, serve, gather}
use tavernmx.Server.Sound.{
  NoRepeat, IsSound, join-NoRepeat, All-change_room, change_added, insert_event-IsBuffer,
}

join-KeepsName : (id : ℕ) → KeepsName (join id)
unfolding join
join-KeepsName id r = elim (Bool-cases (any_of (λ c. c == id) r.joined_clients)) [
  | inl old ↦ rw old
  | inr new ↦ rw new
]

module _ {V : Type 0} where
  -- A worker with the same rooms and histories is as sound.
  same-IsSound : (w : Worker V) → IsSound w → IsSound (record w { clients = [] })
  same-IsSound w s = record {
    rooms_valid = s.rooms_valid;
    joined_once = s.joined_once;
    histories = s.histories;
  }

  -- A change of one room that keeps its name and its joined clients distinct.
  update-IsSound :
      (w : Worker V) (n : Text) (f : ServerRoom → ServerRoom)
      → KeepsName f
      → ((t : ServerRoom) → NoRepeat t.joined_clients → NoRepeat (f t).joined_clients)
      → IsSound w
      → IsSound (record w { rooms = update_room w.rooms n f })
  unfolding update_room
  update-IsSound w n f k j s = record {
    rooms_valid = update_room-IsValid w.rooms n f k s.rooms_valid;
    joined_once = All-change_room _ n f w.rooms.active_rooms j s.joined_once;
    histories = s.histories;
  }

  -- A room that was just made, with the client that asked for it.
  created-IsSound :
      (id : ℕ) (n : Text) (w : Worker V)
      → IsSound w
      → IsSound (created id n w (create_room w.rooms n))
  unfolding update_room
  created-IsSound id n w s = elim (create_room-cases w.rooms n s.rooms_valid) [
    | inl e ↦ rw e (record {
      rooms_valid = s.rooms_valid;
      joined_once = s.joined_once;
      histories = s.histories;
    })
    | inr (fresh, e) ↦
        let valid : IsValid (create_room w.rooms n).1 =
          create_room-IsValid w.rooms n s.rooms_valid in
        rw e (record {
          rooms_valid = update_room-IsValid _ n (add_client id) (λ t. refl) (rw e at valid);
          joined_once =
              rw (change_added n (add_client id) w.rooms.active_rooms fresh)
                (All-append _ w.rooms.active_rooms _ s.joined_once ((tt, tt), tt));
          histories = s.histories;
        })
  ]

module _ (json : Json) where
  open json use {Value}

  history_reply-IsSound :
      (ndebug : Bool) (id : ℕ) (n : Text) (w : Worker Value) (r : Option ServerRoom) (c : Option ℕ)
      → IsSound w
      → Ensures IsSound (history_reply json ndebug id n w r c)
  unfolding history_reply send_to
  history_reply-IsSound ndebug id n w (some room) (some c) s =
      Ensures-bind IsSound (get_room_history json ndebug w.room_history n c) _ (λ m e. record {
        rooms_valid = s.rooms_valid;
        joined_once = s.joined_once;
        histories = s.histories;
      })
  history_reply-IsSound ndebug id n w (some room) none s = s
  history_reply-IsSound ndebug id n w none c s = s

  on_chat_send-IsSound :
      (now : ℤ) (id : ℕ) (user : Text) (m : Msg json) (w : Worker Value)
      → IsSound w
      → Ensures IsSound (on_chat_send json now id user m w)
  unfolding on_chat_send
  on_chat_send-IsSound now id user m w s =
      Ensures-bind IsSound (text_value json m (lit "room_name")) _ (λ name e.
        elim (Option-cases (get w.rooms name)) [
          | inl gone ↦ rw gone s
          | inr (room, found) ↦ rw found (
              Ensures-bind IsSound (text_value json m (lit "text")) _ (λ text e'. record {
                rooms_valid =
                    update_room-IsValid w.rooms name (push_event _) (λ t. refl) s.rooms_valid;
                joined_once =
                    (update-IsSound w name (push_event _) (λ t. refl) (λ t j. j) s).joined_once;
                histories = insert_event-IsBuffer name _ w.room_history s.histories;
              }))
        ])

  on_room_list-IsSound :
      (id : ℕ) (w : Worker Value) → IsSound w → Ensures IsSound (on_room_list json id w)
  unfolding on_room_list send_to
  on_room_list-IsSound id w s =
      Ensures-bind IsSound (create_room_list json w.rooms.room_names) _ (λ m e. record {
        rooms_valid = s.rooms_valid;
        joined_once = s.joined_once;
        histories = s.histories;
      })

  on_room_create-IsSound :
      (id : ℕ) (m : Msg json) (w : Worker Value)
      → IsSound w
      → Ensures IsSound (on_room_create json id m w)
  unfolding on_room_create
  on_room_create-IsSound id m w s =
      Ensures-bind IsSound (text_value json m (lit "room_name")) _ (λ name e.
        elim (Bool-cases (is_empty name)) [
          | inl none_given ↦ rw none_given s
          | inr given ↦ rw given (created-IsSound id name w s)
        ])

  on_room_join-IsSound :
      (id : ℕ) (m : Msg json) (w : Worker Value)
      → IsSound w
      → Ensures IsSound (on_room_join json id m w)
  unfolding on_room_join
  on_room_join-IsSound id m w s =
      Ensures-bind IsSound (text_value json m (lit "room_name")) _ (λ name e.
        elim (Option-cases (get w.rooms name)) [
          | inl gone ↦ rw gone s
          | inr (room, found) ↦
              rw found (update-IsSound w name (join id) (join-KeepsName id) (join-NoRepeat id) s)
        ])

  on_room_destroy-IsSound :
      (m : Msg json) (w : Worker Value) → IsSound w → Ensures IsSound (on_room_destroy json m w)
  unfolding on_room_destroy
  on_room_destroy-IsSound m w s =
      Ensures-bind IsSound (text_value json m (lit "room_name")) _ (λ name e.
        elim (Option-cases (get w.rooms name)) [
          | inl gone ↦ rw gone s
          | inr (room, found) ↦
              let marked = update-IsSound w name mark_destroyed (λ t. refl) (λ t j. j) s in
              rw found (record {
                rooms_valid = marked.rooms_valid;
                joined_once = marked.joined_once;
                histories = s.histories;
              })
        ])

  on_room_history-IsSound :
      (ndebug : Bool) (id : ℕ) (m : Msg json) (w : Worker Value)
      → IsSound w
      → Ensures IsSound (on_room_history json ndebug id m w)
  unfolding on_room_history
  on_room_history-IsSound ndebug id m w s =
      Ensures-bind IsSound (text_value json m (lit "room_name")) _ (λ name e.
        Ensures-bind IsSound (int_value json m (lit "event_count")) _ (λ count e'.
          history_reply-IsSound ndebug id name w (get w.rooms name) (count_in_range json count) s))

  pub handle-IsSound :
      (ndebug : Bool) (now : ℤ) (id : ℕ) (user : Text) (m : Msg json) (w : Worker Value)
      → IsSound w
      → Ensures IsSound (handle json ndebug now id user m w)
  unfolding handle
  handle-IsSound ndebug now id user m w s = go m.message_type refl
    where
      go :
          (t : MessageType)
          → m.message_type ≡ t
          → Ensures IsSound (handle json ndebug now id user m w)
      go room_list e = rw e (on_room_list-IsSound id w s)
      go room_create e = rw e (on_room_create-IsSound id m w s)
      go room_join e = rw e (on_room_join-IsSound id m w s)
      go room_destroy e = rw e (on_room_destroy-IsSound m w s)
      go room_history e = rw e (on_room_history-IsSound ndebug id m w s)
      go chat_send e = rw e (on_chat_send-IsSound now id user m w s)
      go _ e = rw e s

  pub serve-IsSound :
      (ndebug : Bool) (now : ℕ → ℤ) (id : ℕ) (user : Text) (ms : List (Msg json)) (w : Worker Value)
      → IsSound w
      → Ensures IsSound (serve json ndebug now id user ms w)
  unfolding serve
  serve-IsSound ndebug now id user [] w s = s
  serve-IsSound ndebug now id user (m ∷ ms) w s =
      let taken : IsSound (take_message id w) = record {
        rooms_valid = s.rooms_valid;
        joined_once = s.joined_once;
        histories = s.histories;
      } in
      Ensures-bind IsSound (handle json ndebug (now 0) id user m (take_message id w)) _ (λ w' e.
        serve-IsSound ndebug (λ i. now (i + 1)) id user ms w'
          (Ensures-ok IsSound _ (handle-IsSound ndebug (now 0) id user m (take_message id w) taken)
            e))

  pub gather-IsSound :
      (ndebug : Bool) (now : ℕ → ℕ → ℤ) (cs : List (ClientConnection Value)) (w : Worker Value)
      → IsSound w
      → Ensures IsSound (gather json ndebug now cs w)
  unfolding gather
  gather-IsSound ndebug now [] w s = s
  gather-IsSound ndebug now (c ∷ cs) w s =
      Ensures-bind IsSound
        (serve json ndebug (now 0) c.id c.connected_user_name c.messages_in.items w) _
        (λ w' e.
          gather-IsSound ndebug (λ i. now (i + 1)) cs w'
            (Ensures-ok IsSound _
              (serve-IsSound ndebug (now 0) c.id c.connected_user_name c.messages_in.items w s) e))
