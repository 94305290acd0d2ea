-- ===== src/Ui/ProgramExamples.antt =====
-- Tests of the client's program: it is started, connects, and its window is closed.
use tavernmx.Common.{◌≡◌, refl, arith, Bool, true, false, none, some, List, [], ◌∷◌, ◌++◌, ◌||◌}
use tavernmx.Common.Int.{pos}
use tavernmx.Common.Text.{Text, digits, lit, to_string, text_eq}
use tavernmx.Config.Client.{ClientConfiguration, no_font}
use tavernmx.Transport.Connect.{Attempted}
use tavernmx.Queue
use tavernmx.Stack
use tavernmx.Ssl.Errors.{TrustStore, load_certificate, ssl_errors_to_exception, append_errors}
use tavernmx.Ui.{pushes_screen}
use tavernmx.Ui.Frames.{pending}
use tavernmx.Ui.Connect.{
  connecting_screen, Environment, no_input, presses_connect, try_submit, is_host_char,
  load_certificates,
}
use tavernmx.Ui.Session.{Input, run}
use tavernmx.Ui.Order.{IsOrderly}
use tavernmx.Ui.Flow.{start, start_world}
use tavernmx.Ui.Typed.{IsWord-iff}
use tavernmx.Ui.Program.{
  environment, load_fonts, first_screen, generate_random_username, quit, window_resized,
  other_event, Round, attempt_over, main,
}
use tavernmx.Ui.Closing.{events_in, with_certificates, released, main-run}
use tavernmx.Ui.First.{first_screen_connects}

abbrev config : ClientConfiguration
config = record {
  host_name = lit "my-host.org";
  host_port = pos 8080;
  log_level = lit "warn";
  log_file = none;
  custom_certificates = lit "c.pem" ∷ [];
  custom_font = record no_font { en = lit "en"; jp = lit "jp"; kr = lit "kr" };
}

abbrev trusting : TrustStore
trusting = record {
  default_paths = record { succeeds = true; errors = [] };
  locations = λ path. record { succeeds = true; errors = [] };
}

abbrev env : Environment
env = environment to_string (lit "stoi") trusting config

-- What the user reads where a certificate cannot be loaded, whatever the errors are.
unread_test :
    load_certificate to_string
      (record trusting { locations = λ path. record { succeeds = false; errors = 33 ∷ 27 ∷ [] } })
      (lit "c.pem")
    ≡ some (lit "Error loading server cert, 1, 1")
unfolding ssl_errors_to_exception append_errors to_string digits
unread_test = refl

abbrev is_not_jp : Text → Bool
is_not_jp = λ file. text_eq file (lit "en") || text_eq file (lit "kr")

fonts_test : load_fonts is_not_jp config.custom_font ≡ lit "en" ∷ lit "kr" ∷ []
unfolding load_fonts text_eq
fonts_test = refl

abbrev idle : Input
idle = record { dismisses_error = false; connect = no_input; cancels = false; closes = false }

abbrev acknowledged : Attempted
acknowledged = record {
  connection = record { has_bio = true };
  connect_thread_error = none;
  signalled = true;
}

abbrev open_rounds : List Round
open_rounds =
    record {
      meanwhile = [];
      events = window_resized ∷ other_event ∷ [];
      input = record idle { connect = presses_connect };
    }
    ∷ record { meanwhile = []; events = []; input = idle }
    ∷ record { meanwhile = attempt_over acknowledged ∷ []; events = []; input = idle }
    ∷ []

abbrev last_round : Round
last_round = record { meanwhile = []; events = quit ∷ []; input = idle }

main-run_example :
    (main env 4097 config (open_rounds ++ last_round ∷ open_rounds) ≡ (
      true,
      released (
          run
            (with_certificates env config)
            (events_in (open_rounds ++ last_round ∷ []))
            (start (first_screen 4097 config))),
    ))
    × IsOrderly
        (main env 4097 config (open_rounds ++ last_round ∷ open_rounds)).1.0
        (pending (main env 4097 config (open_rounds ++ last_round ∷ open_rounds)).1.1)
unfolding run to_string Queue.push Queue.pop Queue.size Stack.top Stack.push
main-run_example =
    main-run env 4097 config open_rounds last_round open_rounds (refl, (refl, (refl, tt))) refl
      (tt, (refl, (refl, (tt, (refl, (refl, tt))))))

first_screen_connects_example :
    ((try_submit env (first_screen 4097 config) start_world).0.connection
      ≡ some (record {
        host_name = lit "my-host.org";
        host_port = 8080;
        user_name = generate_random_username 4097;
        connected = false;
      }))
    × ((try_submit env (first_screen 4097 config) start_world).0.connecting ≡ true)
    × ((try_submit env (first_screen 4097 config) start_world).2
        ≡ pushes_screen (connecting_screen false) ∷ [])
unfolding load_certificates
first_screen_connects_example =
    first_screen_connects env 4097 config start_world 8080 refl (omega arith)
      ((IsWord-iff is_host_char (lit "my-host.org")).0 refl) refl refl
