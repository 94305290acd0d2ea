-- ===== src/Client/Session.antt =====
-- The handlers of the chat window keep its invariant, over a whole session.
use tavernmx.Common.{
  Option, none, true, ℕ, ◌≡◌, refl, Bool, some, List, [], ◌∷◌, length, arith, ltb, Bool-cases, inl,
  inr, if◌then◌else◌,
}
use tavernmx.Common.Int.{ℤ}
use tavernmx.Common.Text.{Text}
use tavernmx.Common.Result.{Result, ok, Ensures, Ensures-bind, Ensures-ok, ◌>>=◌}
use tavernmx.Json.{Json}
use tavernmx.Messaging.{Message, Msg}
use tavernmx.Queue
use tavernmx.Queue.{ThreadSafeQueue}
use tavernmx.Rooms
use tavernmx.Rooms.{
  RoomManager, find_room, create_room, update_room, remove_destroyed_rooms, no_rooms, name_of,
  is_destroy_requested, kept_rooms, is_valid_room_name,
}
use tavernmx.Rooms.Manager.{no_rooms-IsValid}
use tavernmx.Client.{ClientRoom, client_room, new_chat_screen}
use tavernmx.Client.Update.{Client, on_message, on_room_changed, on_chat_submit}
use tavernmx.Client.Consistent.{IsShown, IsSteady}
use tavernmx.Client.Asked.{
  HasAsked, AllAsked, on_message-AllAsked, on_room_changed-AllAsked, submit_text-AllAsked,
  selected-Asked,
}
use tavernmx.Client.Handlers.{on_message-lem, on_room_changed-lem, submit_text-lem}

-- What happens to a client: a message is processed, the user picks an entry of the room list, or the
-- user types a line and submits it.
pub data Event (V : Type 0) : Type 0 where
  receives : Message V → Event V
  picks : ℕ → Event V
  types : Text → Event V

none_found : (r : ClientRoom) → Rooms.get no_rooms [] ≡ some r → ⊥
unfolding Rooms.get
none_found r q = cc

module _ (json : Json) where
  open json use {Value}

  -- The list box reports no entry that it does not have.
  unfoldable pub step : Bool → (ℤ → Text) → Client Value → Event Value → Result (Client Value)
  step ndebug format_time c (receives m) = on_message json ndebug format_time m c
  step ndebug format_time c (picks i) =
      if ltb i (length c.screen.room_names) then on_room_changed json i c else ok c
  step ndebug format_time c (types text) =
      on_chat_submit json (record c { screen = record c.screen { chat_input = text } })

  unfoldable pub run : Bool → (ℤ → Text) → Client Value → List (Event Value) → Result (Client Value)
  run ndebug format_time c [] = ok c
  run ndebug format_time c (e ∷ es) = do
    c' ← step ndebug format_time c e
    run ndebug format_time c' es

  step-lem :
      (ndebug : Bool) (format_time : ℤ → Text) (c : Client Value) (e : Event Value)
      → IsSteady c
      → Ensures IsSteady (step ndebug format_time c e)
  unfolding step on_chat_submit
  step-lem ndebug format_time c (receives m) k = on_message-lem json ndebug format_time m c k
  step-lem ndebug format_time c (picks i) k =
      elim (Bool-cases (ltb i (length c.screen.room_names))) [
        | inl listed ↦ rw listed (on_room_changed-lem json i c k (ground arith))
        | inr unlisted ↦ rw unlisted k
      ]
  step-lem ndebug format_time c (types text) k =
      submit_text-lem json text (record c { screen = record c.screen { chat_input = text } })
        (
          record {
            rooms_valid = k.0.rooms_valid;
            unmarked = k.0.unmarked;
            shown = k.0.shown;
            selected = k.0.selected;
          },
          k.1,
        )

  step-AllAsked :
      (ndebug : Bool) (format_time : ℤ → Text) (c : Client Value) (e : Event Value)
      → AllAsked json c
      → Ensures (AllAsked json) (step ndebug format_time c e)
  unfolding step on_chat_submit
  step-AllAsked ndebug format_time c (receives m) h =
      on_message-AllAsked json ndebug format_time m c h
  step-AllAsked ndebug format_time c (picks i) h =
      elim (Bool-cases (ltb i (length c.screen.room_names))) [
        | inl listed ↦ rw listed (on_room_changed-AllAsked json i c h)
        | inr unlisted ↦ rw unlisted h
      ]
  step-AllAsked ndebug format_time c (types text) h =
      submit_text-AllAsked json text (record c { screen = record c.screen { chat_input = text } }) h

  run-lem :
      (ndebug : Bool) (format_time : ℤ → Text) (c : Client Value) (es : List (Event Value))
      → IsSteady c
      → Ensures IsSteady (run ndebug format_time c es)
  unfolding run
  run-lem ndebug format_time c [] k = k
  run-lem ndebug format_time c (e ∷ es) k =
      Ensures-bind IsSteady (step ndebug format_time c e) _ (λ c' q.
        run-lem ndebug format_time c' es
          (Ensures-ok IsSteady _ (step-lem ndebug format_time c e k) q))

  run-AllAsked :
      (ndebug : Bool) (format_time : ℤ → Text) (c : Client Value) (es : List (Event Value))
      → AllAsked json c
      → Ensures (AllAsked json) (run ndebug format_time c es)
  unfolding run
  run-AllAsked ndebug format_time c [] h = h
  run-AllAsked ndebug format_time c (e ∷ es) h =
      Ensures-bind (AllAsked json) (step ndebug format_time c e) _ (λ c' q.
        run-AllAsked ndebug format_time c' es
          (Ensures-ok (AllAsked json) _ (step-AllAsked ndebug format_time c e h) q))

  -- A room, if there is one, is held as joined, and the requests to join it and for its history are
  -- among the messages.
  abbrev IsJoined : Option ClientRoom → List (Msg json) → Type 0
  IsJoined none ms = Unit
  IsJoined (some r) ms = (r.is_joined ≡ true) × HasAsked json ms (name_of r)

  -- The chat window agrees with the known rooms, and the selected room, if any, has been asked for.
  abbrev pub IsConsistent : Client Value → Type 0
  IsConsistent c =
      IsShown c × IsJoined (Rooms.get c.rooms c.screen.current_room_name) c.messages_out.items

  Option-IsJoined :
      (o : Option ClientRoom) (ms : List (Msg json))
      → ((r : ClientRoom) → o ≡ some r → (r.is_joined ≡ true) × HasAsked json ms (name_of r))
      → IsJoined o ms
  Option-IsJoined none ms h = tt
  Option-IsJoined (some r) ms h = h r refl

  abbrev pub new_client : Client Value
  new_client = record { rooms = no_rooms; screen = new_chat_screen; messages_out = Queue.new }

  -- In a session that starts without rooms and with nothing to send, whatever messages arrive, entries
  -- are picked and lines are typed, in any order, as long as nothing throws: the room list shown is the
  -- manager's name list, the selected index and the selected name belong together (no name is selected
  -- only where there are no rooms), and the selected room is one that the client holds as joined and
  -- for which it has queued a ROOM_JOIN and a request for 100 events of its history.
  pub session-IsConsistent :
      (ndebug : Bool) (format_time : ℤ → Text) (es : List (Event Value)) (c : Client Value)
      → run ndebug format_time new_client es ≡ ok c
      → IsConsistent c
  session-IsConsistent ndebug format_time es c e =
      let steady =
        Ensures-ok IsSteady _
          (run-lem ndebug format_time new_client es (
            record {
              rooms_valid = no_rooms-IsValid;
              unmarked = tt;
              shown = refl;
              selected = inl (refl, refl);
            },
            λ r q. absurd (none_found r q),
          ))
          e in
      let asked =
        Ensures-ok (AllAsked json) _ (run-AllAsked ndebug format_time new_client es tt) e in
      (
        steady.0,
        Option-IsJoined (Rooms.get c.rooms c.screen.current_room_name) c.messages_out.items (λ r q.
            let joined = steady.1 r q in
            (joined, selected-Asked json c c.screen.current_room_name r asked q joined)),
      )
