-- ===== src/Server/Reply.antt =====
-- What the reply to a ROOM_HISTORY request holds.
use tavernmx.Common.{
  ℕ, ◌-◌, ◌<◌, ◌≤◌, ◌^◌, ◌≡◌, refl, sym, subst, Bool, true, Option, none, some, List, [], ◌∷◌,
  arith, map, length, take,
}
use tavernmx.Common.Int.{pos, to_int32}
use tavernmx.Common.Text.{Text, lit, text_eq}
use tavernmx.Common.Result.{ok}
use tavernmx.Json.{Json, lookup}
use tavernmx.Messaging.{Msg, room_history, room_history_max_entries}
use tavernmx.Server.{RoomEvent}
use tavernmx.Server.History.{RoomHistory, events_of, get_room_history}
use tavernmx.Server.Packing.{
  packed, HasEvents, HoldsPacked, pack_events-take, pack_events-all, fresh, fresh-HoldsPacked,
}

module _ (json : Json) where
  open json use {Value, is_object, is_array, field, elements}

  -- A value tells of an event: its time, the name of its user and its text.
  pub record Tells (v : Value) (e : RoomEvent) : Type 0 where
    pub object : is_object v ≡ true
    pub timestamp : field v (lit "timestamp") ≡ some (json.of_int (to_int32 e.timestamp))
    pub user_name : field v (lit "user_name") ≡ some (json.of_text e.origin_user_name)
    pub text : field v (lit "text") ≡ some (json.of_text e.event_text)

  -- One value for each event, in the same order.
  abbrev AllTell : List Value → List RoomEvent → Type 0
  AllTell [] [] = Unit
  AllTell (v ∷ vs) (e ∷ es) = Tells v e × AllTell vs es
  AllTell _ _ = ⊥

  -- The events that the values of a message hold; without the key, none.
  abbrev TellsOf : Option Value → List RoomEvent → Type 0
  TellsOf none es = es ≡ []
  TellsOf (some a) es = (is_array a ≡ true) × AllTell (elements a) es

  -- A reply for a room that tells of the events, and counts them.
  pub record Replies (name : Text) (es : List RoomEvent) (m : Msg json) : Type 0 where
    pub typed : m.message_type ≡ room_history
    pub object : is_object m.values ≡ true
    pub named : field m.values (lit "room_name") ≡ some (json.of_text name)
    pub counted : field m.values (lit "event_count") ≡ some (json.of_int (pos (length es)))
    pub events : TellsOf (field m.values (lit "events")) es

  packed-Tells : (e : RoomEvent) → Tells (packed json e) e
  unfolding lookup text_eq
  packed-Tells e = record {
    object = json.is_object-object_of _;
    timestamp = json.field-object_of _ (lit "timestamp");
    user_name = json.field-object_of _ (lit "user_name");
    text = json.field-object_of _ (lit "text");
  }

  packed-AllTell : (es : List RoomEvent) → AllTell (map (packed json) es) es
  packed-AllTell [] = tt
  packed-AllTell (e ∷ es) = (packed-Tells e, packed-AllTell es)

  HasEvents-TellsOf :
      (o : Option Value) (es : List RoomEvent)
      → HasEvents json o (map (packed json) es)
      → TellsOf o es
  HasEvents-TellsOf none [] h = refl
  HasEvents-TellsOf none (e ∷ es) h = absurd (cc)
  HasEvents-TellsOf (some a) es h = (h.0, subst (λ vs. AllTell vs es) (sym h.1) (packed-AllTell es))

  HoldsPacked-Replies :
      (name : Text) (es : List RoomEvent) (m : Msg json)
      → HoldsPacked json name es m
      → Replies name es m
  HoldsPacked-Replies name es m h = record {
    typed = h.typed;
    object = h.object;
    named = h.named;
    counted = h.counted;
    events = HasEvents-TellsOf (field m.values (lit "events")) es h.events;
  }

  -- For a request of 1 to 100 events the reply is always made: it names the room, and holds and
  -- counts exactly the first of the events that are kept for it, in their order, as many as were
  -- asked for or all if there are fewer. Each is an object with the time as an `int32_t`, the name of
  -- its user and its text under their keys.
  pub get_room_history_lem :
      (ndebug : Bool) (h : RoomHistory) (name : Text) (count : ℕ) (kept : List RoomEvent)
      → events_of (lookup name h) ≡ ok kept
      → 0 < count
      → count ≤ room_history_max_entries
      → (m : Msg json) × (get_room_history json ndebug h name count ≡ ok m)
        × Replies name (take count kept) m
  unfolding get_room_history
  get_room_history_lem ndebug h name count kept e p b =
      let (m, ran, r) =
        pack_events-take json ndebug name count [] kept (fresh json name) p b
          (fresh-HoldsPacked json name) in
      (
        m,
        rw e ran,
        HoldsPacked-Replies name (take count kept) m
            (subst (λ k. HoldsPacked json name (take k kept) m) {x = count - 0} (omega arith) r),
      )

  -- For a request of 0 events, which is also what a request without a count is read as, a program
  -- whose asserts are compiled out replies with all the events that are kept, and counts them all.
  pub get_room_history_zero :
      (h : RoomHistory) (name : Text) (kept : List RoomEvent)
      → events_of (lookup name h) ≡ ok kept
      → length kept < 2 ^ 31
      → (m : Msg json) × (get_room_history json true h name 0 ≡ ok m) × Replies name kept m
  unfolding get_room_history
  get_room_history_zero h name kept e range =
      let (m, ran, r) =
        pack_events-all json name [] kept (fresh json name) range (fresh-HoldsPacked json name) in
      (m, rw e ran, HoldsPacked-Replies name kept m r)
