-- ===== src/Messaging.antt =====
-- include/tavernmx/messaging.h: message types, messages and the functions that create them. The
-- functions of src/shared/messaging.cpp are in the modules below.
pub mod Block
pub mod Pack
pub mod RoundTrip
pub mod History
mod Examples
use tavernmx.Common.{
  ℕ, suc, ◌+◌, ◌≡◌, Bool, true, false, ◌&&◌, not, Option, none, some, List, [], ◌∷◌, ◌==◌, leb,
  if◌then◌else◌,
}
use tavernmx.Common.Int.{ℤ, pos, negsuc, int_eq}
use tavernmx.Common.Text.{Text, lit, to_string}
use tavernmx.Common.Result.{Result, ok, err, undefined, ◌>>=◌}
use tavernmx.Json.{Json, contains, at, or_type_error}

-- `enum class MessageType : int32_t`; a value that is read may be none of the enumerators.
pub data MessageType : Type 0 where
  invalid ack nak hello heartbeat : MessageType
  room_list room_create room_join room_destroy room_history : MessageType
  chat_send chat_echo : MessageType
  other : ℤ → MessageType

abbrev pub type_value : MessageType → ℤ
type_value invalid = pos 0
type_value ack = pos 0x1000
type_value nak = pos 0x1001
type_value hello = pos 0x2000
type_value heartbeat = pos 0x2001
type_value room_list = pos 0x3000
type_value room_create = pos 0x3001
type_value room_join = pos 0x3002
type_value room_destroy = pos 0x3003
type_value room_history = pos 0x3004
type_value chat_send = pos 0x4000
type_value chat_echo = pos 0x4001
type_value (other n) = n

-- `static_cast<MessageType>`
unfoldable pub type_of : ℤ → MessageType
type_of (negsuc n) = other (negsuc n)
type_of (pos n) =
    if n == 0
    then invalid
    else if n == 0x1000
    then ack
    else if n == 0x1001
    then nak
    else if n == 0x2000
    then hello
    else if n == 0x2001
    then heartbeat
    else if n == 0x3000
    then room_list
    else if n == 0x3001
    then room_create
    else if n == 0x3002
    then room_join
    else if n == 0x3003
    then room_destroy
    else if n == 0x3004
    then room_history
    else if n == 0x4000
    then chat_send
    else if n == 0x4001
    then chat_echo
    else other (pos n)

abbrev pub same_type : MessageType → MessageType → Bool
same_type a b = int_eq (type_value a) (type_value b)

abbrev pub room_history_max_entries : ℕ
room_history_max_entries = 100

pub record Message (V : Type 0) : Type 0 where
  pub message_type : MessageType
  pub values : V

module _ (json : Json) where
  abbrev pub Msg : Type 0
  Msg = Message json.Value

  abbrev pub message_has_value : Msg → Text → Bool
  message_has_value m key = json.is_object m.values && contains json m.values key

  abbrev value_or {ℓ} : {T : Type ℓ} → (json.Value → Option T) → T → Option json.Value → Result T
  value_or get default_value none = ok default_value
  value_or get default_value (some v) =
      if json.is_primitive v && not (json.is_null v)
      then or_type_error (get v)
      else ok default_value

  -- `message_value_or<T>`: `get` is the conversion to `T`.
  abbrev pub message_value_or {ℓ} :
      {T : Type ℓ} → (json.Value → Option T) → T → Msg → Text → Result T
  message_value_or get default_value m key =
      if json.is_object m.values
      then value_or get default_value (json.field m.values key)
      else ok default_value

  abbrev pub text_value : Msg → Text → Result Text
  text_value = message_value_or json.get_text []

  abbrev pub int_value : Msg → Text → Result ℤ
  int_value = message_value_or json.get_int (pos 0)

  abbrev pub bare : MessageType → Msg
  bare t = record { message_type = t; values = json.null }

  abbrev pub with_pairs : MessageType → List (Text × json.Value) → Msg
  with_pairs t ps = record { message_type = t; values = json.object_of ps }

  abbrev pub create_ack : Msg
  create_ack = bare ack

  abbrev pub create_nak : Text → Msg
  create_nak error = with_pairs nak ((lit "error", json.of_text error) ∷ [])

  abbrev pub create_hello : Text → Msg
  create_hello user_name = with_pairs hello ((lit "user_name", json.of_text user_name) ∷ [])

  abbrev pub create_heartbeat : Msg
  create_heartbeat = bare heartbeat

  -- `create_room_list()`, the request.
  abbrev pub request_room_list : Msg
  request_room_list = bare room_list

  -- The loop of `create_room_list(begin, end)`: names stored under their decimal indices.
  unfoldable pub list_rooms : ℕ → json.Value → List Text → Result json.Value
  list_rooms i values [] = ok values
  list_rooms i values (name ∷ names) = do
    values' ← or_type_error (json.set_field values (to_string i) (json.of_text name))
    list_rooms (i + 1) values' names

  unfoldable pub create_room_list : List Text → Result Msg
  unfolding list_rooms
  create_room_list names = do
    values ← list_rooms 0 json.null names
    ok (record { message_type = room_list; values = values })

  abbrev room_pair : Text → Text × json.Value
  room_pair room_name = (lit "room_name", json.of_text room_name)

  abbrev pub create_room_create : Text → Msg
  create_room_create name = with_pairs room_create (room_pair name ∷ [])

  abbrev pub create_room_join : Text → Msg
  create_room_join name = with_pairs room_join (room_pair name ∷ [])

  abbrev pub create_room_destroy : Text → Msg
  create_room_destroy name = with_pairs room_destroy (room_pair name ∷ [])

  -- The `assert` on `event_count` (here a number) fails above the maximum.
  abbrev pub create_room_history : Text → ℕ → Result Msg
  create_room_history name event_count =
      if leb event_count room_history_max_entries
      then ok (
          with_pairs room_history
            (room_pair name ∷ (lit "event_count", json.of_int (pos event_count)) ∷ []))
      else err undefined

  abbrev pub create_chat_send : Text → Text → Msg
  create_chat_send name text =
      with_pairs chat_send (room_pair name ∷ (lit "text", json.of_text text) ∷ [])

  abbrev pub create_chat_echo : Text → Text → Text → ℤ → Msg
  create_chat_echo name text user_name timestamp = with_pairs chat_echo (
      room_pair name
      ∷ (lit "text", json.of_text text)
      ∷ (lit "user_name", json.of_text user_name)
      ∷ (lit "timestamp", json.of_int timestamp)
      ∷ [])
