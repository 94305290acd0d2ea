-- ===== src/Ui/Examples.antt =====
-- Tests of the screens: an attempt that is cancelled, one that succeeds, and the end of a chat.
use tavernmx.Common.{ℕ, ◌≡◌, refl, true, false, none, List, [], ◌∷◌}
use tavernmx.Common.Text.{lit, digits, to_string}
use tavernmx.Transport.Connect.{Attempted}
use tavernmx.Queue
use tavernmx.Stack
use tavernmx.Ui.{ClientUi, new_ui, push_screen, sets_error, pops_screen, render}
use tavernmx.Ui.Handlers.{Change, adds, removes}
use tavernmx.Ui.Frames.{pending, frame, render_lem}
use tavernmx.Ui.Connect.{
  Screen, connect_screen, chat_screen, ConnectUiScreen, ChatWindow, World, Environment, no_input,
  presses_connect, try_submit, begin_attempt, load_certificates, decimal,
}
use tavernmx.Ui.Session.{
  Input, Event, draws, attempt_ends, State, run, screens, end_attempt, connecting_screen_update,
}
use tavernmx.Ui.Order.{IsOrderly}
use tavernmx.Ui.Flow.{start, start_world, run-IsOrderly, closed_while_lost}
use tavernmx.Ui.Submit.{CanConnect, try_submit_iff, stale_error}

abbrev handlers : List (Change ℕ)
handlers = adds 0 5 ∷ adds 1 6 ∷ removes 1 ∷ adds 0 7 ∷ []

abbrev env : Environment
env = record {
  custom_certificates = lit "c.pem" ∷ [];
  out_of_range = lit "stoi";
  trust_store = none;
  certificate = λ c. none;
}

abbrev form : ConnectUiScreen
form = record {
  user_name = lit "jdoe1";
  host_name = lit "my-host.org";
  host_port = to_string 8080;
  user_name_invalid = false;
  host_name_invalid = false;
  host_port_invalid = false;
}

abbrev idle : Input
idle = record { dismisses_error = false; connect = no_input; cancels = false; closes = false }

abbrev pressed : Input
pressed = record idle { connect = presses_connect }

abbrev acknowledged : Attempted
acknowledged = record {
  connection = record { has_bio = true };
  connect_thread_error = none;
  signalled = true;
}

abbrev events : List Event
events = draws pressed ∷ draws idle ∷ attempt_ends acknowledged ∷ draws idle ∷ draws idle ∷ []

abbrev reached : State
reached = run env events (start form)

chats :
    pending reached.1
    ≡ chat_screen
        (record { host_name = lit "my-host.org"; user_name = lit "jdoe1"; window_open = true })
      ∷ connect_screen form
      ∷ []
unfolding run digits decimal to_string Queue.push Queue.pop Queue.size Stack.top Stack.push
    Stack.pop
chats = refl

run-IsOrderly_example : IsOrderly reached.0 (pending reached.1)
unfolding run to_string Queue.push Queue.pop Queue.size Stack.top Stack.push
run-IsOrderly_example = run-IsOrderly env form events (refl, (refl, (tt, (refl, (refl, tt)))))

abbrev window : ChatWindow
window = record { host_name = lit "h"; user_name = lit "u"; window_open = true }

abbrev lost : World
lost = record start_world { workers = 0; connection_ended_signal = true }

abbrev chatting : ClientUi Screen
chatting = push_screen (chat_screen window) (push_screen (connect_screen form) new_ui)

abbrev closing : Input
closing = record idle { closes = true }

closed_while_lost_example :
    pending (run env (draws closing ∷ draws idle ∷ []) (lost, chatting)).1 ≡ []
unfolding Queue.push
closed_while_lost_example =
    closed_while_lost env closing lost chatting window form (draws idle ∷ []) refl refl refl refl

render_lem_example :
    render (screens env idle) true lost chatting
    ≡ frame (screens env idle) true lost (pending chatting) chatting
render_lem_example = render_lem (screens env idle) true lost chatting

try_submit_iff_example : CanConnect env form
unfolding try_submit digits decimal to_string load_certificates
try_submit_iff_example = (try_submit_iff env form lost).0 refl

abbrev denied_world : World
denied_world = record start_world {
  connect_thread_signal = true;
  connect_thread_error = lit "full";
}

abbrev unanswered : Attempted
unanswered = record acknowledged { connection = record { has_bio = false } }

stale_error_example :
    ((connecting_screen_update true denied_world).1
      ≡ pops_screen ∷ sets_error (lit "Connection cancelled.") ∷ [])
    × ((connecting_screen_update false (
          end_attempt unanswered
            (begin_attempt form 8080 (connecting_screen_update true denied_world).0).0)).1
        ≡ pops_screen ∷ sets_error (lit "full") ∷ [])
stale_error_example = stale_error form 8080 denied_world unanswered refl refl refl refl refl
