-- ===== src/Config/Server.antt =====
-- `ServerConfiguration` (include/tavernmx/server.h, src/server/serverconfiguration.cpp).
use tavernmx.Common.{◌≡◌, ◌⊎◌, refl, true, false, Option, none, some, List, [], if◌then◌else◌}
use tavernmx.Common.Int.{ℤ, pos}
use tavernmx.Common.Text.{Text, lit}
use tavernmx.Common.Result.{Result, ok, err, Error, type_error, undefined, server_error, ◌>>=◌}
use tavernmx.Json.{Json, at, value_int, value_text}
use tavernmx.Config.{
  ConfigFile, parse, catch_parse_error, none_if_empty, required_text, texts_of, SaysInt, SaysText,
  AreTexts, value_int_ok, value_text_ok, required_text_other, required_text_missing,
}

pub record ServerConfiguration : Type 0 where
  pub host_port : ℤ
  pub log_level : Text
  pub log_file : Option Text
  pub host_certificate_path : Text
  pub host_private_key_path : Text
  pub max_clients : ℤ
  pub initial_rooms : List Text

abbrev pub no_certificate : Error
no_certificate = server_error (lit "host_certificate is required")

abbrev pub unopened : Error
unopened = server_error (lit "Unable to open config file")

abbrev pub unparsable : Error
unparsable = server_error (lit "Unable to parse config file")

abbrev pub no_key : Error
no_key = server_error (lit "host_private_key is required")

module _ (json : Json) where
  open json use {Value}

  -- The value of `initial_rooms`; anything but an array is passed over.
  unfoldable pub read_rooms : Value → Result (List Text)
  read_rooms r = if json.is_array r then texts_of json (json.elements r) else ok []

  -- The body of the `try`, after the file is parsed.
  unfoldable pub read_server : Value → Result ServerConfiguration
  read_server v = do
    host_port ← value_int json v (lit "host_port") (pos 8080)
    log_level ← value_text json v (lit "log_level") (lit "warn")
    log_file ← value_text json v (lit "log_file") []
    certificate ← required_text json no_certificate v (lit "host_certificate")
    private_key ← required_text json no_key v (lit "host_private_key")
    max_clients ← value_int json v (lit "max_clients") (pos 10)
    rooms ← at json v (lit "initial_rooms")
    initial_rooms ← read_rooms rooms
    ok (record {
      host_port = host_port;
      log_level = log_level;
      log_file = none_if_empty log_file;
      host_certificate_path = certificate;
      host_private_key_path = private_key;
      max_clients = max_clients;
      initial_rooms = initial_rooms;
    })

  unfoldable pub load_server : ConfigFile Value → Result ServerConfiguration
  load_server f =
      if f.good then catch_parse_error unparsable (parse f.value >>= read_server) else err unopened

  -- What a value has to say for the configuration to be `c`.
  pub record Says (v : Value) (c : ServerConfiguration) : Type 0 where
    pub object : json.is_object v ≡ true
    pub port : SaysInt json (json.field v (lit "host_port")) (pos 8080) c.host_port
    pub level : SaysText json (json.field v (lit "log_level")) (lit "warn") c.log_level
    pub log_name : Text
    pub log : SaysText json (json.field v (lit "log_file")) [] log_name
    pub log_given : c.log_file ≡ none_if_empty log_name
    pub certificate : Value
    pub has_certificate : json.field v (lit "host_certificate") ≡ some certificate
    pub certificate_text : json.get_text certificate ≡ some c.host_certificate_path
    pub private_key : Value
    pub has_private_key : json.field v (lit "host_private_key") ≡ some private_key
    pub private_key_text : json.get_text private_key ≡ some c.host_private_key_path
    pub clients : SaysInt json (json.field v (lit "max_clients")) (pos 10) c.max_clients
    pub rooms : Value
    pub has_rooms : json.field v (lit "initial_rooms") ≡ some rooms
    pub room_texts :
        ((json.is_array rooms ≡ true) × AreTexts json (json.elements rooms) c.initial_rooms)
        ⊎ ((json.is_array rooms ≡ false) × (c.initial_rooms ≡ []))

  -- An object whose optional values in front of the certificate are well formed.
  pub record IsReadable (v : Value) : Type 0 where
    pub object : json.is_object v ≡ true
    pub host_port : ℤ
    pub log_level : Text
    pub log_file : Text
    pub port : SaysInt json (json.field v (lit "host_port")) (pos 8080) host_port
    pub level : SaysText json (json.field v (lit "log_level")) (lit "warn") log_level
    pub log : SaysText json (json.field v (lit "log_file")) [] log_file

  read_front :
      (v : Value)
      → IsReadable v
      → {r : Result Text} → required_text json no_certificate v (lit "host_certificate") ≡ r
      → (e : Error) → r ≡ err e
      → read_server v ≡ err e
  unfolding read_server
  read_front v s h e q = rw (
    value_int_ok json v _ _ s.host_port s.object s.port,
    value_text_ok json v _ _ s.log_level s.object s.level,
    value_text_ok json v _ _ s.log_file s.object s.log,
    h,
    q,
  )

  not_object : (w : Value) → json.is_object w ≡ false → read_server w ≡ err type_error
  unfolding read_server
  not_object w n = rw n

  -- The errors of a file. One that cannot be opened or parsed is a ServerError. A value `w` that is no
  -- object is a type error of the JSON library, which is not caught. Where the optional values in front
  -- of it are well formed, a certificate that is no string, as in `v`, is a ServerError; but one that
  -- is not there at all, as in `u`, is undefined behaviour, since `operator[]` of a constant object
  -- needs its key.
  pub load_server_errors :
      (f : ConfigFile Value) (v u w x : Value)
      → f.good ≡ true
      → IsReadable v
      → json.field v (lit "host_certificate") ≡ some x
      → json.get_text x ≡ none
      → IsReadable u
      → json.field u (lit "host_certificate") ≡ none
      → json.is_object w ≡ false
      → (load_server (record f { good = false }) ≡ err unopened)
        × (load_server (record f { value = none }) ≡ err unparsable)
        × (load_server (record f { value = some w }) ≡ err type_error)
        × (load_server (record f { value = some v }) ≡ err no_certificate)
        × (load_server (record f { value = some u }) ≡ err undefined)
  unfolding load_server
  load_server_errors f v u w x good rv c t ru m n = (
    refl,
    rw good,
    rw (good, not_object w n),
    rw (good, read_front v rv (required_text_other json no_certificate v _ x rv.object c t) _ refl),
    rw (good, read_front u ru (required_text_missing json no_certificate u _ ru.object m) _ refl),
  )
