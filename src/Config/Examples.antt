-- ===== src/Config/Examples.antt =====
-- Tests of the configurations.
use tavernmx.Common.{◌≡◌, refl, true, false, none, some, [], ◌∷◌}
use tavernmx.Common.Int.{pos}
use tavernmx.Common.Text.{Text, lit, text_eq}
use tavernmx.Common.Result.{ok, err, type_error, undefined}
use tavernmx.Json.{lookup}
use tavernmx.Json.Sample.{sample_json, array, object, of_int}
use tavernmx.Config.{ConfigFile, required_text, texts_of}
use tavernmx.Config.Server.{
  ServerConfiguration, load_server, load_server_errors, Says, IsReadable, no_certificate, unopened,
  unparsable,
}
use tavernmx.Config.Client
use tavernmx.Config.Client.{
  ClientConfiguration, read_client, read_certificates, read_font, read_font_object, load_client,
  load_client_iff, no_font,
}

abbrev text : Text → sample_json.Value
text s = sample_json.of_text s

abbrev server_value : sample_json.Value
server_value = object (
    (lit "log_file", text (lit "server.log"))
    ∷ (lit "host_certificate", text (lit "c.pem"))
    ∷ (lit "host_private_key", text (lit "k.pem"))
    ∷ (lit "max_clients", of_int (pos 3))
    ∷ (lit "initial_rooms", array (text (lit "den") ∷ []))
    ∷ [])

abbrev server_file : ConfigFile sample_json.Value
server_file = record { good = true; value = some server_value }

abbrev server_config : ServerConfiguration
server_config = record {
  host_port = pos 8080;
  log_level = lit "warn";
  log_file = some (lit "server.log");
  host_certificate_path = lit "c.pem";
  host_private_key_path = lit "k.pem";
  max_clients = pos 3;
  initial_rooms = lit "den" ∷ [];
}

abbrev bad_certificate : sample_json.Value
bad_certificate = object ((lit "host_certificate", of_int (pos 7)) ∷ [])

abbrev SampleReadable : (v : sample_json.Value) → Type 0
SampleReadable v = IsReadable sample_json v

bad-IsReadable : SampleReadable bad_certificate
unfolding lookup text_eq
bad-IsReadable = record {
  object = refl;
  host_port = pos 8080;
  log_level = lit "warn";
  log_file = [];
  port = refl;
  level = refl;
  log = refl;
}

empty-IsReadable : SampleReadable (object [])
unfolding lookup
empty-IsReadable = record {
  object = refl;
  host_port = pos 8080;
  log_level = lit "warn";
  log_file = [];
  port = refl;
  level = refl;
  log = refl;
}

load_server_errors_example :
    (load_server sample_json (record server_file { good = false }) ≡ err unopened)
    × (load_server sample_json (record server_file { value = none }) ≡ err unparsable)
    × (load_server sample_json (record server_file { value = some (array []) }) ≡ err type_error)
    × (load_server sample_json (record server_file { value = some bad_certificate })
        ≡ err no_certificate)
    × (load_server sample_json (record server_file { value = some (object []) }) ≡ err undefined)
unfolding lookup text_eq
load_server_errors_example =
    load_server_errors sample_json server_file bad_certificate (object []) (array [])
      (of_int (pos 7)) refl bad-IsReadable refl refl empty-IsReadable refl refl

abbrev client_value : sample_json.Value
client_value = object (
    (lit "server_host_name", text (lit "host"))
    ∷ (lit "custom_certificates", text (lit "c.pem"))
    ∷ (lit "custom_font", object ((lit "en", text (lit "a.ttf")) ∷ []))
    ∷ [])

abbrev client_file : ConfigFile sample_json.Value
client_file = record { good = true; value = some client_value }

abbrev client_config : ClientConfiguration
client_config = record {
  host_name = lit "host";
  host_port = pos 8080;
  log_level = lit "warn";
  log_file = none;
  custom_certificates = lit "c.pem" ∷ [];
  custom_font = record no_font { font_size = 12; en = lit "a.ttf" };
}

client_loads : load_client sample_json client_file ≡ ok client_config
unfolding load_client read_client required_text texts_of read_certificates read_font
    read_font_object lookup text_eq
client_loads = refl

load_client_iff_example :
    (client_file.good ≡ true)
    × (v : sample_json.Value) × (client_file.value ≡ some v)
    × Client.Says sample_json v client_config
load_client_iff_example = (load_client_iff sample_json client_file client_config).0 client_loads
