-- ===== src/Server/Malformed.antt =====
-- What a message with a room name of the wrong type does to a round of the server worker.
use tavernmx.Common.{◌+◌, ℕ, ◌≡◌, refl, sym, subst, Bool, List, [], ◌∷◌, ◌++◌}
use tavernmx.Common.Int.{ℤ}
use tavernmx.Common.Text.{Text, lit}
use tavernmx.Common.Result.{Result, ok, err, ◌>>=◌}
use tavernmx.Json.{Json}
use tavernmx.Messaging.{
  MessageType, Msg, room_create, room_join, room_destroy, room_history, chat_send, text_value,
}
use tavernmx.Server.{ClientConnection}
use tavernmx.Server.Worker.{
  Worker, handle, on_room_create, on_room_join, on_room_destroy, on_room_history, on_chat_send,
}
use tavernmx.Server.Round.{take_message, serve, gather, round}

-- The types whose handlers read a room name.
abbrev pub NamesRoom : MessageType → Type 0
NamesRoom room_create = Unit
NamesRoom room_join = Unit
NamesRoom room_destroy = Unit
NamesRoom room_history = Unit
NamesRoom chat_send = Unit
NamesRoom _ = ⊥

-- The computation throws.
abbrev pub Throws {ℓ} : {A : Type ℓ} → Result A → Type 0
Throws (ok a) = ⊥
Throws (err e) = Unit

bind-Throws {ℓ κ} :
    {A : Type ℓ} {B : Type κ} (r : Result A) (f : A → Result B) → Throws r → Throws (r >>= f)
bind-Throws (ok a) f t = absurd t
bind-Throws (err e) f t = tt

later-Throws {ℓ κ} :
    {A : Type ℓ} {B : Type κ} (r : Result A) (f : A → Result B)
    → ((a : A) → Throws (f a))
    → Throws (r >>= f)
later-Throws (ok a) f t = t a
later-Throws (err e) f t = tt

module _ (json : Json) where
  open json use {Value}

  handle-Throws :
      (ndebug : Bool) (now : ℤ) (id : ℕ) (user : Text) (m : Msg json) (w : Worker Value)
      → NamesRoom m.message_type
      → Throws (text_value json m (lit "room_name"))
      → Throws (handle json ndebug now id user m w)
  unfolding handle on_room_create on_room_join on_room_destroy on_room_history on_chat_send
  handle-Throws ndebug now id user m w n t = go m.message_type refl
    where
      named :
          {B : Type 0} (f : Text → Result B) → Throws (text_value json m (lit "room_name") >>= f)
      named f = bind-Throws (text_value json m (lit "room_name")) f t

      go : (k : MessageType) → m.message_type ≡ k → Throws (handle json ndebug now id user m w)
      go room_create e = rw e (named _)
      go room_join e = rw e (named _)
      go room_destroy e = rw e (named _)
      go room_history e = rw e (named _)
      go chat_send e = rw e (named _)
      go _ e = absurd (rw e at n)

  serve-Throws :
      (ndebug : Bool) (now : ℕ → ℤ) (id : ℕ) (user : Text) (before : List (Msg json)) (m : Msg json)
      (later : List (Msg json)) (w : Worker Value)
      → NamesRoom m.message_type
      → Throws (text_value json m (lit "room_name"))
      → Throws (serve json ndebug now id user (before ++ m ∷ later) w)
  unfolding serve
  serve-Throws ndebug now id user [] m later w n t =
      bind-Throws (handle json ndebug (now 0) id user m (take_message id w)) _
        (handle-Throws ndebug (now 0) id user m (take_message id w) n t)
  serve-Throws ndebug now id user (b ∷ before) m later w n t =
      later-Throws (handle json ndebug (now 0) id user b (take_message id w)) _
        (λ w'. serve-Throws ndebug (λ i. now (i + 1)) id user before m later w' n t)

  gather-Throws :
      (ndebug : Bool) (now : ℕ → ℕ → ℤ) (others : List (ClientConnection Value))
      (c : ClientConnection Value) (rest : List (ClientConnection Value)) (before : List (Msg json))
      (m : Msg json) (later : List (Msg json)) (w : Worker Value)
      → c.messages_in.items ≡ before ++ m ∷ later
      → NamesRoom m.message_type
      → Throws (text_value json m (lit "room_name"))
      → Throws (gather json ndebug now (others ++ c ∷ rest) w)
  unfolding gather
  gather-Throws ndebug now [] c rest before m later w q n t =
      bind-Throws (serve json ndebug (now 0) c.id c.connected_user_name c.messages_in.items w) _ (
        subst (λ ms. Throws (serve json ndebug (now 0) c.id c.connected_user_name ms w)) (sym q)
          (serve-Throws ndebug (now 0) c.id c.connected_user_name before m later w n t))
  gather-Throws ndebug now (o ∷ others) c rest before m later w q n t =
      later-Throws (serve json ndebug (now 0) o.id o.connected_user_name o.messages_in.items w) _
        (λ w'. gather-Throws ndebug (λ i. now (i + 1)) others c rest before m later w' q n t)

  -- One queued message of type ROOM_CREATE, ROOM_JOIN, ROOM_DESTROY, ROOM_HISTORY or CHAT_SEND in
  -- which reading `room_name` as a string throws is enough for the round to throw, whichever client
  -- sent it and whatever all the clients, that one included, sent besides: no round completes.
  pub malformed-Throws :
      (ndebug : Bool) (now : ℕ → ℕ → ℤ) (alive : ℕ → Bool) (w : Worker Value)
      (others : List (ClientConnection Value)) (c : ClientConnection Value)
      (rest : List (ClientConnection Value)) (before : List (Msg json)) (m : Msg json)
      (later : List (Msg json))
      → w.clients ≡ others ++ c ∷ rest
      → c.messages_in.items ≡ before ++ m ∷ later
      → NamesRoom m.message_type
      → Throws (text_value json m (lit "room_name"))
      → Throws (round json ndebug now alive w)
  unfolding round
  malformed-Throws ndebug now alive w others c rest before m later cs q n t =
      let start : Worker Value = record w { new_rooms = []; destroyed_rooms = [] } in
      bind-Throws (gather json ndebug now w.clients start) _ (
        subst (λ l. Throws (gather json ndebug now l start)) (sym cs)
          (gather-Throws ndebug now others c rest before m later start q n t))
