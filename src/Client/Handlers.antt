-- ===== src/Client/Handlers.antt =====
-- The other handlers of the chat window keep its invariant.
use tavernmx.Common.{
  ℕ, ◌<◌, ◌≡◌, refl, Bool, List, [], ◌∷◌, length, head?, ◌==◌, Bool-cases, Option-cases, inl, inr,
  ◌⊎◌,
}
use tavernmx.Common.Int.{ℤ}
use tavernmx.Common.Text.{Text, lit, text_eq, is_empty}
use tavernmx.Common.Result.{Ensures, Ensures-bind}
use tavernmx.Json.{Json, or_undefined}
use tavernmx.Messaging.{
  Message, Msg, MessageType, room_list, room_create, room_destroy, room_history, chat_echo,
  text_value,
}
use tavernmx.Util.{tokenize_string, str_tolower}
use tavernmx.Queue
use tavernmx.Queue.{ThreadSafeQueue}
use tavernmx.Rooms
use tavernmx.Rooms.{
  RoomManager, find_room, create_room, update_room, remove_destroyed_rooms, no_rooms, name_of,
  is_destroy_requested, kept_rooms, is_valid_room_name,
}
use tavernmx.Rooms.Manager.{}
use tavernmx.Client.{client_room, insert_chat_history_event, rewrite_chat_history, pick_room}
use tavernmx.Client.Update.{
  Client, on_room_history, on_chat_echo, on_message, on_room_changed,
  room_history_message_to_events, event_json_to_room_event, submit_text, run_command, clear_input,
  send,
}
use tavernmx.Client.Consistent.{IsSteady, issue-lem}
use tavernmx.Client.Listing.{picked}
use tavernmx.Client.Relisting.{on_room_list-lem, on_room_create-lem, on_room_destroy-lem}

module _ (json : Json) where
  open json use {Value}

  on_room_history-lem :
      (ndebug : Bool) (format_time : ℤ → Text) (m : Msg json) (c : Client Value)
      → IsSteady c
      → Ensures IsSteady (on_room_history json ndebug format_time m c)
  unfolding on_room_history rewrite_chat_history
  on_room_history-lem ndebug format_time m c k =
      Ensures-bind IsSteady (text_value json m (lit "room_name")) _ (λ name e.
        elim (Option-cases (Rooms.get c.rooms name)) [
          | inl gone ↦ rw gone k
          | inr (room, found) ↦ rw found (
              Ensures-bind IsSteady (room_history_message_to_events json ndebug format_time m) _
                (λ events e'. (
                  record {
                    rooms_valid = k.0.rooms_valid;
                    unmarked = k.0.unmarked;
                    shown = k.0.shown;
                    selected = k.0.selected;
                  },
                  k.1,
                )))
        ])

  on_chat_echo-lem :
      (ndebug : Bool) (format_time : ℤ → Text) (m : Msg json) (c : Client Value)
      → IsSteady c
      → Ensures IsSteady (on_chat_echo json ndebug format_time m c)
  unfolding on_chat_echo insert_chat_history_event
  on_chat_echo-lem ndebug format_time m c k =
      Ensures-bind IsSteady (text_value json m (lit "room_name")) _ (λ name e.
        Ensures-bind IsSteady (event_json_to_room_event json ndebug format_time m.values) _
          (λ event e'. (
            record {
              rooms_valid = k.0.rooms_valid;
              unmarked = k.0.unmarked;
              shown = k.0.shown;
              selected = k.0.selected;
            },
            k.1,
          )))

  pub on_message-lem :
      (ndebug : Bool) (format_time : ℤ → Text) (m : Msg json) (c : Client Value)
      → IsSteady c
      → Ensures IsSteady (on_message json ndebug format_time m c)
  unfolding on_message
  on_message-lem ndebug format_time m c k = go m.message_type refl
    where
      go :
          (t : MessageType)
          → m.message_type ≡ t
          → Ensures IsSteady (on_message json ndebug format_time m c)
      go room_list e = rw e (on_room_list-lem json m c)
      go room_create e = rw e (on_room_create-lem json m c k)
      go room_destroy e = rw e (on_room_destroy-lem json m c k)
      go room_history e = rw e (on_room_history-lem ndebug format_time m c k)
      go chat_echo e = rw e (on_chat_echo-lem ndebug format_time m c k)
      go _ e = rw e k

  pub on_room_changed-lem :
      (i : ℕ) (c : Client Value)
      → IsSteady c
      → i < length c.screen.room_names
      → Ensures IsSteady (on_room_changed json i c)
  unfolding on_room_changed pick_room
  on_room_changed-lem i c k listed =
      issue-lem json (record c { screen = pick_room i c.screen })
        (record {
          rooms_valid = k.0.rooms_valid;
          unmarked = k.0.unmarked;
          shown = k.0.shown;
          selected = inr (picked i c.screen.room_names listed);
        })

  -- A command sends one message at most.
  pub run_command-sends :
      (command : Text) (tokens : List Text) (c : Client Value)
      → (run_command json command tokens c ≡ c)
        ⊎ ((m : Msg json) × (run_command json command tokens c ≡ send m c))
  unfolding run_command
  run_command-sends command [] c = elim (Bool-cases (text_eq command (lit "/create_room"))) [
    | inl e ↦ rw e (inl refl)
    | inr e ↦ elim (Bool-cases (text_eq command (lit "/destroy_room"))) [
      | inl e' ↦ rw (e, e') (inl refl)
      | inr e' ↦ rw (e, e') (inl refl)
    ]
  ]
  run_command-sends command (t ∷ []) c = elim (Bool-cases (text_eq command (lit "/create_room"))) [
    | inl e ↦ rw e (inl refl)
    | inr e ↦ elim (Bool-cases (text_eq command (lit "/destroy_room"))) [
      | inl e' ↦ rw (e, e') (inl refl)
      | inr e' ↦ rw (e, e') (inl refl)
    ]
  ]
  run_command-sends command (t ∷ name ∷ []) c =
      elim (Bool-cases (text_eq command (lit "/create_room"))) [
        | inl e ↦ elim (Bool-cases (is_valid_room_name name)) [
          | inl v ↦ rw (e, v) (inr (_, refl))
          | inr v ↦ rw (e, v) (inl refl)
        ]
        | inr e ↦ elim (Bool-cases (text_eq command (lit "/destroy_room"))) [
          | inl e' ↦ elim (Option-cases (Rooms.get c.rooms name)) [
            | inl gone ↦ rw (e, e', gone) (inl refl)
            | inr (room, found) ↦ rw (e, e', found) (inr (_, refl))
          ]
          | inr e' ↦ rw (e, e') (inl refl)
        ]
      ]
  run_command-sends command (t ∷ name ∷ x ∷ ts) c =
      elim (Bool-cases (text_eq command (lit "/create_room"))) [
        | inl e ↦ rw e (inl refl)
        | inr e ↦ elim (Bool-cases (text_eq command (lit "/destroy_room"))) [
          | inl e' ↦ rw (e, e') (inl refl)
          | inr e' ↦ rw (e, e') (inl refl)
        ]
      ]

  -- Sending and clearing the input touch nothing that the invariant is about.
  sent-IsSteady :
      (q : ThreadSafeQueue (Message Value)) (c : Client Value)
      → IsSteady c
      → IsSteady (clear_input (record c { messages_out = q }))
  sent-IsSteady q c k = (
    record {
      rooms_valid = k.0.rooms_valid;
      unmarked = k.0.unmarked;
      shown = k.0.shown;
      selected = k.0.selected;
    },
    k.1,
  )

  command-lem :
      (command : Text) (tokens : List Text) (c : Client Value)
      → IsSteady c
      → IsSteady (clear_input (run_command json command tokens c))
  command-lem command tokens c k = elim (run_command-sends command tokens c) [
    | inl same ↦ rw same (sent-IsSteady c.messages_out c k)
    | inr (m, sends) ↦ rw sends (sent-IsSteady (Queue.push c.messages_out m) c k)
  ]

  pub submit_text-lem :
      (typed : Text) (c : Client Value) → IsSteady c → Ensures IsSteady (submit_text json typed c)
  unfolding submit_text
  submit_text-lem [] c k = k
  submit_text-lem (first ∷ rest) c k = elim (Bool-cases (first == b'/')) [
    | inl command ↦ rw command (
        Ensures-bind IsSteady (or_undefined (head? (tokenize_string (first ∷ rest) b' ' []))) _
          (λ t e. command-lem (str_tolower t) (tokenize_string (first ∷ rest) b' ' []) c k))
    | inr chat ↦ elim (Bool-cases (is_empty c.screen.current_room_name)) [
      | inl nowhere ↦ rw (chat, nowhere) (sent-IsSteady c.messages_out c k)
      | inr room ↦ rw (chat, room) (sent-IsSteady _ c k)
    ]
  ]
