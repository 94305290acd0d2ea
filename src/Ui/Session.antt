-- ===== src/Ui/Session.antt =====
-- What follows an attempt to connect: `connecting_screen_update` (src/client/workers/connectscreen-
-- worker.cpp), how the chat window begins and ends (src/client/workers/chatwindow-worker.cpp), and all
-- that happens in the client, as steps on the screens and the threads' variables.
use tavernmx.Common.{
  suc, ◌-◌, Bool, true, false, ◌&&◌, ◌||◌, Option, none, some, List, [], ◌∷◌, ltb, if◌then◌else◌,
}
use tavernmx.Common.Text.{Text, lit, is_empty}
use tavernmx.Transport.Connect.{Attempted}
use tavernmx.Ui.{
  ClientUi, sets_error, pops_screen, pushes_screen, Screens, set_viewport_resized, render,
}
use tavernmx.Ui.Connect.{
  ChatWindow, Screen, ServerConnection, World, Environment, Calls, with_screen, try_submit,
  ConnectInput, render_connect, connect_screen, connecting_screen, chat_screen,
}

-- A connected connection is handed to the chat window, whose worker thread is started.
abbrev pub begin_chat : ServerConnection → World → World × Calls
begin_chat c w = (
  record w { connection = none; workers = suc w.workers },
  pops_screen
      ∷ pushes_screen (
          chat_screen
            (record { host_name = c.host_name; user_name = c.user_name; window_open = true }))
      ∷ [],
)

abbrev pub report_failure : World → World × Calls
report_failure w =
    if is_empty w.connect_thread_error
    then (w, pops_screen ∷ sets_error (lit "Unable to connect to server.") ∷ [])
    else (
      record w { connect_thread_error = [] },
      pops_screen ∷ sets_error w.connect_thread_error ∷ [],
    )

abbrev pub take_connection : Option ServerConnection → World → World × Calls
take_connection none w = report_failure w
take_connection (some c) w = if c.connected then begin_chat c w else report_failure w

-- The attempt is over. A cancellation counts only now.
abbrev pub attempt_over : Bool → World → World × Calls
attempt_over cancelled w =
    if cancelled
    then (
      record w { connection = none },
      pops_screen ∷ sets_error (lit "Connection cancelled.") ∷ [],
    )
    else take_connection w.connection w

unfoldable pub connecting_screen_update : Bool → World → World × Calls
connecting_screen_update cancelled w =
    if w.connect_thread_signal
    then attempt_over cancelled (record w { connect_thread_signal = false })
    else (w, [])

-- The start of the handler of MSG_UPDATE of the chat window; what follows is `tavernmx.Client.Update`.
unfoldable pub chat_update : World → World × Calls
chat_update w =
    if w.connection_ended_signal
    then (
      record w { connection_ended_signal = false },
      pops_screen ∷ sets_error (lit "Connection to server lost.") ∷ [],
    )
    else (w, [])

-- The end of `ChatWindowScreen::render` with the handler of MSG_CHAT_CLOSED.
unfoldable pub render_chat : Bool → ChatWindow → World → World × Screen × Calls
render_chat closes s w =
    if s.window_open && closes
    then (
      record w { shutdown_connection_signal = true },
      chat_screen (record s { window_open = false }),
      pops_screen ∷ [],
    )
    else (w, chat_screen s, [])

-- What the user does in a frame; only what the screen on top has counts.
pub record Input : Type 0 where
  pub dismisses_error : Bool
  pub connect : ConnectInput
  pub cancels : Bool
  pub closes : Bool

abbrev pub update_screen : World → Screen → World × Screen × Calls
update_screen w (connect_screen s) = (w, connect_screen s, [])
update_screen w (connecting_screen cancelled) =
    with_screen (connecting_screen cancelled) (connecting_screen_update cancelled w)
update_screen w (chat_screen s) = with_screen (chat_screen s) (chat_update w)

-- The button that cancels is disabled once it was pressed.
abbrev pub render_screen : Environment → Input → Bool → World → Screen → World × Screen × Calls
render_screen env input resized w (connect_screen s) = render_connect env input.connect s w
render_screen env input resized w (connecting_screen cancelled) =
    (w, connecting_screen (cancelled || input.cancels), [])
render_screen env input resized w (chat_screen s) = render_chat input.closes s w

abbrev pub screens : Environment → Input → Screens World Screen
screens env input = record { update = update_screen; render = render_screen env input }

-- What happens in the client: the window is resized, a frame is drawn, the thread that connects ends with what it leaves,
-- the connection that is kept drops, and the worker thread ends, because it was asked to or not.
pub data Event : Type 0 where
  resizes : Event
  draws : Input → Event
  attempt_ends : Attempted → Event
  drops worker_shuts_down worker_fails : Event

abbrev pub State : Type 0
State = World × ClientUi Screen

abbrev pub connected_as : Bool → Option ServerConnection → Option ServerConnection
connected_as b none = none
connected_as b (some c) = some (record c { connected = b })

abbrev pub error_or : Option Text → Text → Text
error_or none e = e
error_or (some t) e = t

-- The thread that connects sets the error, if there is one, and releases the signal at its end.
abbrev pub end_attempt : Attempted → World → World
end_attempt r w =
    if w.connecting && r.signalled
    then record w {
      connection = connected_as r.connection.has_bio w.connection;
      connecting = false;
      connect_thread_signal = true;
      connect_thread_error = error_or r.connect_thread_error w.connect_thread_error;
    }
    else w

-- One of the threads ends. A request to shut down is taken by any one of them.
abbrev pub end_worker : Bool → World → World
end_worker asked w =
    if ltb 0 w.workers
    then if asked
      then if w.shutdown_connection_signal
        then record w { workers = w.workers - 1; shutdown_connection_signal = false }
        else w
      else record w { workers = w.workers - 1; connection_ended_signal = true }
    else w

unfoldable pub step : Environment → Event → State → State
unfolding render try_submit connecting_screen_update chat_update render_chat
step env resizes (w, ui) = (w, set_viewport_resized ui)
step env (draws input) (w, ui) = render (screens env input) input.dismisses_error w ui
step env (attempt_ends r) (w, ui) = (end_attempt r w, ui)
step env drops (w, ui) = (record w { connection = connected_as false w.connection }, ui)
step env worker_shuts_down (w, ui) = (end_worker true w, ui)
step env worker_fails (w, ui) = (end_worker false w, ui)

unfoldable pub run : Environment → List Event → State → State
unfolding step
run env [] s = s
run env (e ∷ es) s = run env es (step env e s)
