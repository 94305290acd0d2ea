-- ===== src/Messaging/History.antt =====
-- `add_room_history_event` of src/shared/messaging.cpp. An `assert` that fails is `undefined`; with
-- `ndebug` the asserts are compiled out.
use tavernmx.Common.{Bool, ◌||◌, [], ◌∷◌, if◌then◌else◌}
use tavernmx.Common.Int.{ℤ, pos, int_suc, int_leb}
use tavernmx.Common.Text.{Text, lit}
use tavernmx.Common.Result.{Result, ok, err, undefined, ◌>>=◌}
use tavernmx.Json.{Json, contains, at, or_type_error, value_int}
use tavernmx.Messaging.{Msg, room_history, same_type, room_history_max_entries}

abbrev pub assert {ℓ} : {A : Type ℓ} → Bool → Bool → Result A → Result A
assert ndebug test rest = if ndebug || test then rest else err undefined

module _ (json : Json) where
  open json use {Value, object_of, of_int, of_text, set_field, push_back, array}

  abbrev pub event_json : ℤ → Text → Text → Value
  event_json timestamp user_name text = object_of (
      (lit "timestamp", of_int timestamp)
      ∷ (lit "user_name", of_text user_name)
      ∷ (lit "text", of_text text)
      ∷ [])

  -- The events array is made if there is none.
  unfoldable pub with_events : Value → Result Value
  with_events values =
      if contains json values (lit "events")
      then ok values
      else or_type_error (set_field values (lit "events") array)

  -- The returned count, and the message after the call.
  unfoldable pub add_room_history_event : Bool → Msg json → ℤ → Text → Text → Result (ℤ × Msg json)
  unfolding with_events
  add_room_history_event ndebug m timestamp origin_user_name text =
      assert ndebug (same_type m.message_type room_history) (do
        values ← with_events m.values
        events ← at json values (lit "events")
        assert ndebug (json.is_array events) (do
          events' ← or_type_error (push_back events (event_json timestamp origin_user_name text))
          values' ← or_type_error (set_field values (lit "events") events')
          count ← value_int json values' (lit "event_count") (pos 0)
          assert ndebug (int_leb (int_suc count) (pos room_history_max_entries)) (do
            values'' ←
                or_type_error (set_field values' (lit "event_count") (of_int (int_suc count)))
            ok (int_suc count, record m { values = values'' }))))
