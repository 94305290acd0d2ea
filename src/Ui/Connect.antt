-- ===== src/Ui/Connect.antt =====
-- The screens of a connection, and the first of them, `ConnectUiScreen` (src/client/client-ui/
-- connect.cpp), with the handler of its button (src/client/workers/connectscreen-worker.cpp).
use tavernmx.Common.{
  ℕ, ◌+◌, ◌-◌, ◌*◌, ◌^◌, Bool, true, false, not, ◌||◌, Option, none, some, List, [], ◌∷◌, ltb,
  all_of, if◌then◌else◌, ◌==◌,
}
use tavernmx.Common.Text.{Text, is_empty, isalnum, isdigit}
use tavernmx.Ui.{UiCall, sets_error, pushes_screen}

pub record ConnectUiScreen : Type 0 where
  pub user_name : Text
  pub host_name : Text
  pub host_port : Text
  pub user_name_invalid : Bool
  pub host_name_invalid : Bool
  pub host_port_invalid : Bool

-- ChatWindowScreen, without its rooms: whom it is for, and whether its window is open.
pub record ChatWindow : Type 0 where
  pub host_name : Text
  pub user_name : Text
  pub window_open : Bool

pub data Screen : Type 0 where
  connect_screen : ConnectUiScreen → Screen
  -- ConnectingUiScreen::cancelled
  connecting_screen : Bool → Screen
  chat_screen : ChatWindow → Screen

-- The ServerConnection that is kept for the chat window, and whether it is connected.
pub record ServerConnection : Type 0 where
  pub host_name : Text
  pub host_port : ℕ
  pub user_name : Text
  pub connected : Bool

-- What the threads of the client share: the variables of connectscreen-worker.cpp, whether the thread
-- that connects runs and how many threads of server_message_worker do, and the signals.
pub record World : Type 0 where
  pub connection : Option ServerConnection
  pub connecting : Bool
  pub connect_thread_signal : Bool
  pub connect_thread_error : Text
  pub workers : ℕ
  pub connection_ended_signal : Bool
  pub shutdown_connection_signal : Bool

-- The certificates of the configuration, and the texts of what is thrown, if anything is: for a port
-- that is no `int`, by the constructor of ServerConnection, and for a certificate.
pub record Environment : Type 0 where
  pub custom_certificates : List Text
  pub out_of_range : Text
  pub trust_store : Option Text
  pub certificate : Text → Option Text

-- `std::stoi` of a string of digits; `none` where it throws `std::out_of_range`.
unfoldable pub decimal : ℕ → Text → ℕ
decimal n [] = n
decimal n (c ∷ s) = decimal (n * 10 + (c - b'0')) s

abbrev pub stoi : Text → Option ℕ
stoi s = if ltb (decimal 0 s) (2 ^ 31) then some (decimal 0 s) else none

-- The first exception that loading the certificates throws.
unfoldable pub load_certificates : (Text → Option Text) → List Text → Option Text
load_certificates load [] = none
load_certificates load (c ∷ cs) =
    let rest = load_certificates load cs in elim (load c) [ none ↦ rest | some e ↦ some e ]

abbrev pub Calls : Type 0
Calls = List (UiCall Screen)

-- The `catch` of the handler.
abbrev pub gives_up : Text → World → World × Calls
gives_up e w = (record w { connection = none }, sets_error e ∷ [])

abbrev pub begin_attempt : ConnectUiScreen → ℕ → World → World × Calls
begin_attempt s port w = (
  record w {
    connection = some (record {
      host_name = s.host_name;
      host_port = port;
      user_name = s.user_name;
      connected = false;
    });
    connecting = true;
  },
  pushes_screen (connecting_screen false) ∷ [],
)

-- The handler, given the port, and what the constructor and the certificates throw, if anything.
abbrev pub connect_with :
    Environment → ConnectUiScreen → World → Option ℕ → Option Text → Option Text → World × Calls
connect_with env s w none trust_store certificates = gives_up env.out_of_range w
connect_with env s w (some port) (some e) certificates = gives_up e w
connect_with env s w (some port) none (some e) = gives_up e w
connect_with env s w (some port) none none = begin_attempt s port w

-- The handler of MSG_CONNECT_BUTTON.
unfoldable pub on_connect_button : Environment → ConnectUiScreen → World → World × Calls
unfolding load_certificates decimal
on_connect_button env s w =
    connect_with env s w (stoi s.host_port) env.trust_store
      (load_certificates env.certificate env.custom_certificates)

abbrev pub is_host_char : ℕ → Bool
is_host_char c = isalnum c || (c == b'.') || (c == b'-')

-- The first part of `try_submit`: which fields are invalid.
abbrev pub validate : ConnectUiScreen → ConnectUiScreen
validate s = record s {
  user_name_invalid = is_empty s.user_name || not (all_of isalnum s.user_name);
  host_name_invalid = is_empty s.host_name || not (all_of is_host_char s.host_name);
  host_port_invalid = is_empty s.host_port || not (all_of isdigit s.host_port);
}

abbrev pub any_invalid : ConnectUiScreen → Bool
any_invalid s = s.user_name_invalid || (s.host_name_invalid || s.host_port_invalid)

abbrev pub with_screen : Screen → World × Calls → World × Screen × Calls
with_screen s (w, calls) = (w, s, calls)

unfoldable pub try_submit : Environment → ConnectUiScreen → World → World × Screen × Calls
unfolding on_connect_button
try_submit env s w =
    let t = validate s in
    with_screen (connect_screen t) (if any_invalid t then (w, []) else on_connect_button env t w)

-- What the user does with the connect screen in a frame: types into a field, perhaps ending with
-- Enter, or presses the button. One widget at most is active.
pub data ConnectInput : Type 0 where
  no_input presses_connect : ConnectInput
  types_user types_host types_port : Text → Bool → ConnectInput

abbrev pub submit_if : Bool → Environment → ConnectUiScreen → World → World × Screen × Calls
submit_if entered env s w = if entered then try_submit env s w else (w, connect_screen s, [])

-- `ConnectUiScreen::render`, but for the drawing.
abbrev pub render_connect :
    Environment → ConnectInput → ConnectUiScreen → World → World × Screen × Calls
render_connect env no_input s w = (w, connect_screen s, [])
render_connect env presses_connect s w = try_submit env s w
render_connect env (types_user t entered) s w = submit_if entered env (record s { user_name = t }) w
render_connect env (types_host t entered) s w = submit_if entered env (record s { host_name = t }) w
render_connect env (types_port t entered) s w = submit_if entered env (record s { host_port = t }) w
