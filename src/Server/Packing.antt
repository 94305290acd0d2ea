-- ===== src/Server/Packing.antt =====
-- How `get_room_history` of src/server/workers/server-worker.cpp packs events into a reply.
use tavernmx.Common.{
  ℕ, zero, suc, ◌+◌, ◌-◌, ◌<◌, ◌≤◌, ◌^◌, ◌≡◌, ◌∙◌, refl, sym, ap, subst, Bool, true, false, ◌||◌,
  Option, none, some, List, [], ◌∷◌, ◌++◌, arith, map, length, take, append_assoc, append-nil,
  length-append, ==_of_eq, ==_of_ne, leb,
}
use native.Mathlib.Decide.{ℕ_discrete}
use mathlib.Core.List.{map-append}
use tavernmx.Common.Int.{pos, to_int32, to_int32-pos}
use tavernmx.Common.Text.{Text, lit, text_eq}
use tavernmx.Common.Result.{ok}
use tavernmx.Json.{Json, lookup}
use tavernmx.Messaging.{Msg, room_history, room_history_max_entries, with_pairs}
use tavernmx.Messaging.History.{event_json, with_events, add_room_history_event}
use tavernmx.Server.{RoomEvent}
use tavernmx.Server.History.{pack_events}

take_nil {ℓ} : {A : Type ℓ} (n : ℕ) → take {A = A} n [] ≡ []
take_nil zero = refl
take_nil (suc n) = refl

or_true : (b : Bool) → (b || true) ≡ true
or_true true = refl
or_true false = refl

module _ (json : Json) where
  open json use {Value, is_object, is_array, field, elements}

  -- The JSON that stands for an event in a reply.
  abbrev pub packed : RoomEvent → Value
  packed e = event_json json (to_int32 e.timestamp) e.origin_user_name e.event_text

  -- The events that the values of a message hold; without the key, none.
  abbrev pub HasEvents : Option Value → List Value → Type 0
  HasEvents none es = es ≡ []
  HasEvents (some a) es = (is_array a ≡ true) × (elements a ≡ es)

  -- A reply for a room that holds the events, as they are packed, and counts them.
  pub record HoldsPacked (name : Text) (es : List RoomEvent) (m : Msg json) : Type 0 where
    pub typed : m.message_type ≡ room_history
    pub object : is_object m.values ≡ true
    pub named : field m.values (lit "room_name") ≡ some (json.of_text name)
    pub counted : field m.values (lit "event_count") ≡ some (json.of_int (pos (length es)))
    pub events : HasEvents (field m.values (lit "events")) (map packed es)

  -- The values with an events array in them.
  record Prepared (name : Text) (es : List RoomEvent) (v a : Value) : Type 0 where
    object : is_object v ≡ true
    named : field v (lit "room_name") ≡ some (json.of_text name)
    counted : field v (lit "event_count") ≡ some (json.of_int (pos (length es)))
    events : field v (lit "events") ≡ some a
    array : is_array a ≡ true
    listed : elements a ≡ map packed es

  with_events-Prepared :
      (name : Text) (es : List RoomEvent) (m : Msg json)
      → HoldsPacked name es m
      → (v : Value) × (a : Value) × (with_events json m.values ≡ ok v) × Prepared name es v a
  unfolding with_events text_eq
  with_events-Prepared name es m r = go (field m.values (lit "events")) refl
    where
      go :
          (o : Option Value)
          → field m.values (lit "events") ≡ o
          → (v : Value) × (a : Value) × (with_events json m.values ≡ ok v) × Prepared name es v a
      go (some a) e =
          let h : HasEvents (some a) (map packed es) =
            subst (λ o. HasEvents o (map packed es)) e r.events in
          (
            m.values,
            a,
            rw e,
            record {
              object = r.object;
              named = r.named;
              counted = r.counted;
              events = e;
              array = h.0;
              listed = h.1;
            },
          )
      go none e =
          let h : HasEvents none (map packed es) =
            subst (λ o. HasEvents o (map packed es)) e r.events in
          let (w, s, o, f) = json.set_field-object m.values (lit "events") json.array r.object in
          (
            w,
            json.array,
            rw (e, s),
            record {
              object = o;
              named = f (lit "room_name") ∙ r.named;
              counted = f (lit "event_count") ∙ r.counted;
              events = f (lit "events");
              array = json.is_array-array;
              listed = json.elements-array ∙ sym h;
            },
          )

  add_event-HoldsPacked :
      (ndebug : Bool) (name : Text) (es : List RoomEvent) (e : RoomEvent) (m : Msg json)
      → (ndebug || leb (length es + 1) room_history_max_entries) ≡ true
      → length es < 2 ^ 31
      → HoldsPacked name es m
      → (m' : Msg json) × (add_room_history_event json ndebug m
            (to_int32 e.timestamp)
            e.origin_user_name
            e.event_text
          ≡ ok (pos (length es + 1), m'))
        × HoldsPacked name (es ++ e ∷ []) m'
  unfolding add_room_history_event text_eq
  add_event-HoldsPacked ndebug name es e m fits range r =
      let (v, a, made, p) = with_events-Prepared name es m r in
      let (a', pushed, arr', els') = json.push_back-array a (packed e) p.array in
      let (v', set', obj', f') = json.set_field-object v (lit "events") a' p.object in
      let (v'', set'', obj'', f'') =
        json.set_field-object v' (lit "event_count") (json.of_int (pos (length es + 1))) obj' in
      let ev : field v'' (lit "events") ≡ some a' = f'' (lit "events") ∙ f' (lit "events") in
      let cnt : field v' (lit "event_count") ≡ some (json.of_int (pos (length es))) =
        f' (lit "event_count") ∙ p.counted in
      (
        record m { values = v'' },
        rw (
          r.typed,
          made,
          or_true ndebug,
          p.object,
          p.events,
          p.array,
          or_true ndebug,
          pushed,
          set',
          obj',
          cnt,
          json.get_int-of_int (pos (length es)) (to_int32-pos (length es) range),
          fits,
          set'',
        ),
        record {
          typed = r.typed;
          object = obj'';
          named = f'' (lit "room_name") ∙ f' (lit "room_name") ∙ p.named;
          counted =
              f'' (lit "event_count")
              ∙ ap (λ n. some (json.of_int (pos n))) (sym (length-append es (e ∷ [])));
          events = rw ev (
            arr',
            els' ∙ ap (λ l. l ++ packed e ∷ []) p.listed ∙ sym (map-append packed es (e ∷ [])),
          );
        },
      )

  -- The rest of the loop, with fewer events packed than the maximum.
  pub pack_events-take :
      (ndebug : Bool) (name : Text) (limit : ℕ) (es xs : List RoomEvent) (m : Msg json)
      → length es < limit
      → limit ≤ room_history_max_entries
      → HoldsPacked name es m
      → (m' : Msg json) × (pack_events json ndebug limit m xs ≡ ok m')
        × HoldsPacked name (es ++ take (limit - length es) xs) m'
  unfolding pack_events
  pack_events-take ndebug name limit es [] m l b r =
      (m, refl, rw (take_nil (limit - length es), append-nil es) r)
  pack_events-take ndebug name limit es (x ∷ xs) m l b r =
      let fits : (ndebug || leb (length es + 1) room_history_max_entries) ≡ true = ground arith in
      let (m', added, r') = add_event-HoldsPacked ndebug name es x m fits (omega arith) r in
      elim (ℕ_discrete (length es + 1) limit) [
        | yes last ↦
            let one : take (limit - length es) (x ∷ xs) ≡ x ∷ [] =
              ap (λ k. take k (x ∷ xs)) {y = 1} (omega arith) in
            (m', rw (added, ==_of_eq (length es + 1) limit last), rw one r')
        | no more ↦
            let more_fit : length (es ++ x ∷ []) < limit =
              omega (arith, length-append es (x ∷ [])) in
            let (m'', rest, r'') =
              pack_events-take ndebug name limit (es ++ x ∷ []) xs m' more_fit b r' in
            let cut : (es ++ x ∷ []) ++ take (limit - length (es ++ x ∷ [])) xs
                ≡ es ++ take (limit - length es) (x ∷ xs) =
              append_assoc es (x ∷ []) _
              ∙ ap (λ l. es ++ x ∷ l)
                  (ap (λ k. take k xs) (omega (arith, length-append es (x ∷ []))))
              ∙ ap (λ k. es ++ take k (x ∷ xs)) {x = suc (limit - length es - 1)} (omega arith) in
            (
              m'',
              rw (added, ==_of_ne (length es + 1) limit more) rest,
              subst (λ l. HoldsPacked name l m'') cut r'',
            )
      ]

  -- With a maximum of 0 the loop never meets it.
  pub pack_events-all :
      (name : Text) (es xs : List RoomEvent) (m : Msg json)
      → length (es ++ xs) < 2 ^ 31
      → HoldsPacked name es m
      → (m' : Msg json) × (pack_events json true 0 m xs ≡ ok m') × HoldsPacked name (es ++ xs) m'
  unfolding pack_events
  pack_events-all name es [] m range r = (m, refl, rw (append-nil es) r)
  pack_events-all name es (x ∷ xs) m range r =
      let (m', added, r') =
        add_event-HoldsPacked true name es x m refl (omega (arith, length-append es (x ∷ xs))) r in
      let more : length ((es ++ x ∷ []) ++ xs) < 2 ^ 31 = rw (append_assoc es (x ∷ []) xs) range in
      let (m'', rest, r'') = pack_events-all name (es ++ x ∷ []) xs m' more r' in
      (
        m'',
        rw (added, ==_of_ne (length es + 1) 0 (omega arith)) rest,
        subst (λ l. HoldsPacked name l m'') (append_assoc es (x ∷ []) xs) r'',
      )

  -- The message that the loop starts from, `create_room_history(name, 0)`.
  abbrev pub fresh : Text → Msg json
  fresh name =
      with_pairs json room_history
        ((lit "room_name", json.of_text name) ∷ (lit "event_count", json.of_int (pos 0)) ∷ [])

  pub fresh-HoldsPacked : (name : Text) → HoldsPacked name [] (fresh name)
  unfolding lookup text_eq
  fresh-HoldsPacked name = record {
    typed = refl;
    object = json.is_object-object_of _;
    named = json.field-object_of _ (lit "room_name");
    counted = json.field-object_of _ (lit "event_count");
    events =
        rw
          (json.field-object_of
            ((lit "room_name", json.of_text name) ∷ (lit "event_count", json.of_int (pos 0)) ∷ [])
            (lit "events"))
          refl;
  }
