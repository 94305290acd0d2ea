-- ===== src/Ui/Program.antt =====
-- `main` of the client (src/client/main.cpp) from the moment that the window stands: the fonts that are
-- loaded, the first screen (src/client/workers/connectscreen-worker.cpp), and the main loop.
use tavernmx.Common.{ℕ, ◌%◌, Bool, true, false, List, [], ◌∷◌, ◌++◌, map, suc, if◌then◌else◌}
use tavernmx.Common.Int.{ℤ, pos, negsuc}
use tavernmx.Common.Text.{Text, lit, is_empty, to_string}
use tavernmx.Config.Client.{ClientConfiguration, CustomFontConfiguration}
use tavernmx.Transport.Connect.{Attempted}
use tavernmx.Ssl.Errors.{TrustStore, new_server_connection, load_certificate}
use tavernmx.Ui.{set_viewport_resized}
use tavernmx.Ui.Connect.{ConnectUiScreen, Environment}
use tavernmx.Ui.Session.{
  Input, Event, State, draws, attempt_ends, drops, worker_shuts_down, worker_fails, step, run,
}
use tavernmx.Ui.Flow.{start}

-- The font files that are added, in their order, given which files exist.
unfoldable pub load_fonts : (Text → Bool) → CustomFontConfiguration → List Text
load_fonts exists f =
    if is_empty f.en
    then []
    else if exists f.en
    then f.en ∷ (optional f.cn ++ (optional f.jp ++ optional f.kr))
    else []
  where
    optional : Text → List Text
    optional file = if is_empty file then [] else if exists file then file ∷ [] else []

-- `std::to_string`
abbrev pub int_to_string : ℤ → Text
int_to_string (pos n) = to_string n
int_to_string (negsuc n) = b'-' ∷ to_string (suc n)

abbrev pub generate_random_username : ℕ → Text
generate_random_username time = lit "jdoe" ++ to_string (time % 4096)

-- `connect_screen_worker`, given the time: the fields of the new screen.
abbrev pub first_screen : ℕ → ClientConfiguration → ConnectUiScreen
first_screen time config = record {
  user_name = generate_random_username time;
  host_name = config.host_name;
  host_port = int_to_string config.host_port;
  user_name_invalid = false;
  host_name_invalid = false;
  host_port_invalid = false;
}

-- What the connect screen depends on, given the text of `std::out_of_range` and what OpenSSL answers.
abbrev pub environment : (ℕ → Text) → Text → TrustStore → ClientConfiguration → Environment
environment error_string out_of_range t config = record {
  custom_certificates = config.custom_certificates;
  out_of_range = out_of_range;
  trust_store = new_server_connection error_string t;
  certificate = load_certificate error_string t;
}

pub data SdlEvent : Type 0 where
  quit window_close window_resized other_event : SdlEvent

-- What the other threads do.
pub data ThreadEvent : Type 0 where
  attempt_over : Attempted → ThreadEvent
  connection_drops worker_shut_down worker_failed : ThreadEvent

abbrev pub as_event : ThreadEvent → Event
as_event (attempt_over r) = attempt_ends r
as_event connection_drops = drops
as_event worker_shut_down = worker_shuts_down
as_event worker_failed = worker_fails

-- A round of the main loop: what other threads did before it, the events that are polled, and what the
-- user does with the screen.
pub record Round : Type 0 where
  pub meanwhile : List ThreadEvent
  pub events : List SdlEvent
  pub input : Input

-- The `switch` over an event; the Boolean is `done`.
abbrev pub handle_event : SdlEvent → Bool × State → Bool × State
handle_event quit (done, s) = (true, s)
handle_event window_close (done, s) = (true, s)
handle_event window_resized (done, (w, ui)) = (done, (w, set_viewport_resized ui))
handle_event other_event (done, s) = (done, s)

unfoldable pub poll_events : List SdlEvent → Bool × State → Bool × State
poll_events [] s = s
poll_events (e ∷ es) s = poll_events es (handle_event e s)

-- The screen is drawn also in the round that ends the loop.
abbrev pub draw : Environment → Input → Bool × State → Bool × State
draw env input (done, s) = (done, step env (draws input) s)

unfoldable pub main_round : Environment → Round → State → Bool × State
unfolding poll_events
main_round env r s =
    draw env r.input (poll_events r.events (false, run env (map as_event r.meanwhile) s))

-- The Boolean says whether the loop ended; else the given rounds are used up.
unfoldable pub main_loop : Environment → List Round → State → Bool × State
main_loop env [] s = (false, s)
main_loop env (r ∷ rs) s =
    let (done, s') = main_round env r s in
    let rest = main_loop env rs s' in if done then (true, s') else rest

-- What follows the loop.
abbrev pub after_loop : Bool × State → Bool × State
after_loop (false, s) = (false, s)
after_loop (true, (w, ui)) = (true, (record w { shutdown_connection_signal = true }, ui))

unfoldable pub main : Environment → ℕ → ClientConfiguration → List Round → Bool × State
unfolding main_loop
main env time config rounds = after_loop (
    main_loop (record env { custom_certificates = config.custom_certificates }) rounds
      (start (first_screen time config)))
