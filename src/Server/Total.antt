-- ===== src/Server/Total.antt =====
-- A round of the server worker on messages of the right types completes.
use tavernmx.Common.{
  ℕ, zero, suc, ◌+◌, ◌≤◌, ◌≡◌, ◌∙◌, refl, ap, Bool, true, Option, none, some, List, [], ◌∷◌, arith,
  All, Bool-cases, Option-cases, inl, inr, leb,
}
use tavernmx.Common.Maps.{lookup}
use tavernmx.Common.Int.{ℤ, pos, negsuc}
use tavernmx.Common.Text.{Text, lit, to_string}
use tavernmx.Common.Result.{Result, ok, err, ◌>>=◌, Ensures-ok}
use tavernmx.RingBuffer.Observe.{iterate-Holds}
use tavernmx.Json.{Json, or_undefined}
use tavernmx.Messaging.{
  MessageType, Msg, room_list, room_create, room_join, room_destroy, room_history, chat_send,
  text_value, int_value, list_rooms, create_room_list, room_history_max_entries,
}
use tavernmx.Rooms
use tavernmx.Rooms.{create_room}
use tavernmx.Server.{ClientConnection, ServerRoom, server_room}
use tavernmx.Server.History.{RoomHistory, chat_room_history_size, events_of, get_room_history}
use tavernmx.Server.Worker.{
  Worker, handle, on_room_list, on_room_create, on_room_join, on_room_destroy, on_room_history,
  on_chat_send, history_reply, count_in_range,
}
use tavernmx.Server.Round.{take_message, serve, gather, round}
use tavernmx.Server.Sound.{IsSound, IsBuffer, lookup-IsBuffer}
use tavernmx.Server.Invariant.{handle-IsSound, serve-IsSound}
use tavernmx.Server.Remembered.{events_of_lem}
use tavernmx.Server.Reply.{get_room_history_lem, get_room_history_zero}

-- The computation returns.
abbrev pub Returns {ℓ} : {A : Type ℓ} → Result A → Type 0
Returns (ok a) = Unit
Returns (err e) = ⊥

Returns-ok {ℓ} : {A : Type ℓ} (r : Result A) {a : A} → r ≡ ok a → Returns r
Returns-ok r e = rw e tt

Returns-value {ℓ} : {A : Type ℓ} (r : Result A) → Returns r → (a : A) × (r ≡ ok a)
Returns-value (ok a) h = (a, refl)
Returns-value (err e) h = absurd h

Returns-bind {ℓ κ} :
    {A : Type ℓ} {B : Type κ} (r : Result A) (f : A → Result B)
    → Returns r
    → ((a : A) → r ≡ ok a → Returns (f a))
    → Returns (r >>= f)
Returns-bind (ok a) f h k = k a refl
Returns-bind (err e) f h k = absurd h

module _ (json : Json) where
  open json use {Value}

  -- The values that the handlers read have their types, or are left out.
  pub record IsWellTyped (m : Msg json) : Type 0 where
    pub named : Returns (text_value json m (lit "room_name"))
    pub counted : Returns (int_value json m (lit "event_count"))
    pub worded : Returns (text_value json m (lit "text"))

  list_rooms-Returns :
      (i : ℕ) (v : Value) (names : List Text)
      → json.is_object v ≡ true
      → Returns (list_rooms json i v names)
  unfolding list_rooms
  list_rooms-Returns i v [] o = tt
  list_rooms-Returns i v (n ∷ ns) o =
      let (w, e, o', f) = json.set_field-object v (to_string i) (json.of_text n) o in
      rw e (list_rooms-Returns (i + 1) w ns o')

  create_room_list-Returns : (names : List Text) → Returns (create_room_list json names)
  unfolding create_room_list list_rooms
  create_room_list-Returns [] = tt
  create_room_list-Returns (n ∷ ns) =
      let (w, e, o) = json.set_field-null (to_string 0) (json.of_text n) in
      rw e (Returns-bind (list_rooms json 1 w ns) _ (list_rooms-Returns 1 w ns o) (λ a q. tt))

  history-Returns :
      (h : RoomHistory) (name : Text) (count : ℕ)
      → All IsBuffer h
      → count ≤ room_history_max_entries
      → Returns (get_room_history json true h name count)
  history-Returns h name zero a b =
      let (kept, held) = lookup-IsBuffer name h a in
      let read : events_of (lookup name h) ≡ ok kept =
        events_of_lem (lookup name h)
        ∙ ap or_undefined (iterate-Holds chat_room_history_size _ _ held) in
      Returns-ok _ (get_room_history_zero json h name kept read (omega (arith, held.fits))).1
  history-Returns h name (suc n) a b =
      let (kept, held) = lookup-IsBuffer name h a in
      let read : events_of (lookup name h) ≡ ok kept =
        events_of_lem (lookup name h)
        ∙ ap or_undefined (iterate-Holds chat_room_history_size _ _ held) in
      Returns-ok _ (get_room_history_lem json true h name (suc n) kept read (omega arith) b).1

  history_reply-Returns :
      (id : ℕ) (name : Text) (w : Worker Value) (room : Option ServerRoom) (count : ℤ)
      → IsSound w
      → Returns (history_reply json true id name w room (count_in_range json count))
  unfolding history_reply
  history_reply-Returns id name w none (negsuc n) s = tt
  history_reply-Returns id name w (some room) (negsuc n) s = tt
  history_reply-Returns id name w room (pos n) s =
      elim (Bool-cases (leb n room_history_max_entries)) [
        | inl fits ↦ rw fits (replied room (ground arith))
        | inr over ↦ rw over (dropped room)
      ]
    where
      replied :
          (r : Option ServerRoom)
          → n ≤ room_history_max_entries
          → Returns (history_reply json true id name w r (some n))
      replied none b = tt
      replied (some r) b =
          Returns-bind (get_room_history json true w.room_history name n) _
            (history-Returns w.room_history name n s.histories b) (λ m e. tt)

      dropped : (r : Option ServerRoom) → Returns (history_reply json true id name w r none)
      dropped none = tt
      dropped (some r) = tt

  handle-Returns :
      (now : ℤ) (id : ℕ) (user : Text) (m : Msg json) (w : Worker Value)
      → IsSound w
      → IsWellTyped m
      → Returns (handle json true now id user m w)
  unfolding handle on_room_list on_room_create on_room_join on_room_destroy on_room_history
      on_chat_send
  handle-Returns now id user m w s t = go m.message_type refl
    where
      named :
          {B : Type 0} (f : Text → Result B)
          → ((n : Text) → Returns (f n))
          → Returns (text_value json m (lit "room_name") >>= f)
      named f k = Returns-bind (text_value json m (lit "room_name")) f t.named (λ n e. k n)

      go : (k : MessageType) → m.message_type ≡ k → Returns (handle json true now id user m w)
      go room_list e = rw e (
          Returns-bind (create_room_list json w.rooms.room_names) _
            (create_room_list-Returns w.rooms.room_names) (λ a q. tt))
      go room_create e = rw e (named _ (λ n. tt))
      go room_join e = rw e (named _ (λ n. tt))
      go room_destroy e = rw e (named _ (λ n. tt))
      go room_history e = rw e (
          named _ (λ n.
            Returns-bind (int_value json m (lit "event_count")) _ t.counted
              (λ c q. history_reply-Returns id n w (Rooms.get w.rooms n) c s)))
      go chat_send e = rw e (
          named _ (λ n. elim (Option-cases (Rooms.get w.rooms n)) [
            | inl gone ↦ rw gone tt
            | inr (room, found) ↦
                rw found (Returns-bind (text_value json m (lit "text")) _ t.worded (λ x q. tt))
          ]))
      go _ e = rw e tt

  serve-Returns :
      (now : ℕ → ℤ) (id : ℕ) (user : Text) (ms : List (Msg json)) (w : Worker Value)
      → IsSound w
      → All IsWellTyped ms
      → Returns (serve json true now id user ms w)
  unfolding serve
  serve-Returns now id user [] w s t = tt
  serve-Returns now id user (m ∷ ms) w s t =
      let taken : IsSound (take_message id w) = record {
        rooms_valid = s.rooms_valid;
        joined_once = s.joined_once;
        histories = s.histories;
      } in
      Returns-bind (handle json true (now 0) id user m (take_message id w)) _
        (handle-Returns (now 0) id user m (take_message id w) taken t.0)
        (λ w' e.
          serve-Returns (λ i. now (i + 1)) id user ms w'
            (Ensures-ok IsSound _
              (handle-IsSound json true (now 0) id user m (take_message id w) taken) e)
            t.1)

  gather-Returns :
      (now : ℕ → ℕ → ℤ) (cs : List (ClientConnection Value)) (w : Worker Value)
      → IsSound w
      → All (λ c. All IsWellTyped c.messages_in.items) cs
      → Returns (gather json true now cs w)
  unfolding gather
  gather-Returns now [] w s t = tt
  gather-Returns now (c ∷ cs) w s t =
      Returns-bind (serve json true (now 0) c.id c.connected_user_name c.messages_in.items w) _
        (serve-Returns (now 0) c.id c.connected_user_name c.messages_in.items w s t.0)
        (λ w' e.
          gather-Returns (λ i. now (i + 1)) cs w'
            (Ensures-ok IsSound _
              (serve-IsSound json true (now 0) c.id c.connected_user_name c.messages_in.items w s)
              e)
            t.1)

  -- With asserts compiled out, a round that starts in a sound state completes, whatever messages of
  -- whatever types wait, as long as in each of them `room_name` and `text` are strings and
  -- `event_count` is a number wherever reading them would throw otherwise: no handler throws, and
  -- no history is read out of bounds.
  pub round_total :
      (now : ℕ → ℕ → ℤ) (alive : ℕ → Bool) (w : Worker Value)
      → IsSound w
      → All (λ c. All IsWellTyped c.messages_in.items) w.clients
      → (w' : Worker Value) × (round json true now alive w ≡ ok w')
  unfolding round
  round_total now alive w s t =
      let start : Worker Value = record w { new_rooms = []; destroyed_rooms = [] } in
      let started : IsSound start = record {
        rooms_valid = s.rooms_valid;
        joined_once = s.joined_once;
        histories = s.histories;
      } in
      Returns-value _ (
        Returns-bind (gather json true now w.clients start) _
          (gather-Returns now w.clients start started t) (λ g e. tt))
