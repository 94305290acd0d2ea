-- ===== src/Ui/Flow.antt =====
-- The screens follow one another in order: connecting, the chat window, and back.
use tavernmx.Common.{
  ◌≡◌, ◌∙◌, refl, sym, ap, subst, arith, Bool, true, false, Bool-cases, inl, inr, not, ◌&&◌, Option,
  none, some, List, [], ◌∷◌,
}
use tavernmx.Queue
use tavernmx.Transport.Connect.{Attempted}
use tavernmx.Ui.{ClientUi, new_ui, push_screen}
use tavernmx.Ui.Frames.{pending, asked, frame, render_lem}
use tavernmx.Ui.Order.{IsSome, IsOrderly, AreOrderly, frame-IsOrderly}
use tavernmx.Ui.Connect.{
  Screen, connect_screen, connecting_screen, chat_screen, ConnectUiScreen, ServerConnection,
  ChatWindow, World, Environment,
}
use tavernmx.Ui.Session.{
  Input, Event, resizes, draws, attempt_ends, drops, worker_shuts_down, worker_fails, State, step,
  run, screens, chat_update, render_chat, end_worker, end_attempt, connected_as, error_or,
}

-- The user does not close the chat window in the very frame that finds the connection lost.
abbrev pub IsUndisturbed : Event → World → Type 0
IsUndisturbed (draws input) w = (w.connection_ended_signal && input.closes) ≡ false
IsUndisturbed resizes w = Unit
IsUndisturbed (attempt_ends r) w = Unit
IsUndisturbed drops w = Unit
IsUndisturbed worker_shuts_down w = Unit
IsUndisturbed worker_fails w = Unit

-- A change of the world that keeps what the order of screens rests on.
pub keep-IsOrderly :
    (w v : World) (shown : List Screen)
    → (IsSome w.connection → IsSome v.connection)
    → v.connecting ≡ w.connecting
    → v.connect_thread_signal ≡ w.connect_thread_signal
    → IsOrderly w shown
    → IsOrderly v shown
keep-IsOrderly w v [] o c t h = absurd h
keep-IsOrderly w v (connect_screen s ∷ []) o c t h = (c ∙ h.0, t ∙ h.1)
keep-IsOrderly w v (connecting_screen d ∷ connect_screen s ∷ []) o c t h =
    (o h.0, c ∙ h.1 ∙ ap not (sym t))
keep-IsOrderly w v (chat_screen b ∷ connect_screen s ∷ []) o c t h = (h.0, c ∙ h.1, t ∙ h.2)
keep-IsOrderly w v (connecting_screen d ∷ []) o c t h = absurd h
keep-IsOrderly w v (chat_screen b ∷ []) o c t h = absurd h
keep-IsOrderly w v (connect_screen s ∷ x ∷ xs) o c t h = absurd h
keep-IsOrderly w v (connecting_screen d ∷ connecting_screen e ∷ xs) o c t h = absurd h
keep-IsOrderly w v (connecting_screen d ∷ chat_screen b ∷ xs) o c t h = absurd h
keep-IsOrderly w v (connecting_screen d ∷ connect_screen s ∷ x ∷ xs) o c t h = absurd h
keep-IsOrderly w v (chat_screen b ∷ connecting_screen d ∷ xs) o c t h = absurd h
keep-IsOrderly w v (chat_screen b ∷ chat_screen d ∷ xs) o c t h = absurd h
keep-IsOrderly w v (chat_screen b ∷ connect_screen s ∷ x ∷ xs) o c t h = absurd h

connected_as-IsSome :
    (b : Bool) (o : Option ServerConnection) → IsSome o → IsSome (connected_as b o)
connected_as-IsSome b none h = h
connected_as-IsSome b (some c) h = h

end_worker-IsOrderly :
    (asked : Bool) (w : World) (shown : List Screen)
    → IsOrderly w shown
    → IsOrderly (end_worker asked w) shown
end_worker-IsOrderly asked w shown h =
    let same : (end_worker asked w).connection ≡ w.connection = ground arith in
    keep-IsOrderly w (end_worker asked w) shown (subst IsSome (sym same)) (ground arith)
      (ground arith) h

ended-IsOrderly :
    (r : Attempted) (w : World) (shown : List Screen)
    → (w.connecting && r.signalled) ≡ true
    → IsOrderly w shown
    → IsOrderly
        (record w {
          connection = connected_as r.connection.has_bio w.connection;
          connecting = false;
          connect_thread_signal = true;
          connect_thread_error = error_or r.connect_thread_error w.connect_thread_error;
        })
        shown
ended-IsOrderly r w [] e h = absurd h
ended-IsOrderly r w (connect_screen s ∷ []) e h = absurd (ground (arith, h.0))
ended-IsOrderly r w (connecting_screen d ∷ connect_screen s ∷ []) e h =
    (connected_as-IsSome r.connection.has_bio w.connection h.0, refl)
ended-IsOrderly r w (chat_screen b ∷ connect_screen s ∷ []) e h = absurd (ground (arith, h.1))
ended-IsOrderly r w (connecting_screen d ∷ []) e h = absurd h
ended-IsOrderly r w (chat_screen b ∷ []) e h = absurd h
ended-IsOrderly r w (connect_screen s ∷ x ∷ xs) e h = absurd h
ended-IsOrderly r w (connecting_screen d ∷ connecting_screen g ∷ xs) e h = absurd h
ended-IsOrderly r w (connecting_screen d ∷ chat_screen b ∷ xs) e h = absurd h
ended-IsOrderly r w (connecting_screen d ∷ connect_screen s ∷ x ∷ xs) e h = absurd h
ended-IsOrderly r w (chat_screen b ∷ connecting_screen d ∷ xs) e h = absurd h
ended-IsOrderly r w (chat_screen b ∷ chat_screen d ∷ xs) e h = absurd h
ended-IsOrderly r w (chat_screen b ∷ connect_screen s ∷ x ∷ xs) e h = absurd h

end_attempt-IsOrderly :
    (r : Attempted) (w : World) (shown : List Screen)
    → IsOrderly w shown
    → IsOrderly (end_attempt r w) shown
end_attempt-IsOrderly r w shown h = elim (Bool-cases (w.connecting && r.signalled)) [
  | inl e ↦ rw e (ended-IsOrderly r w shown e h)
  | inr e ↦ rw e h
]

pub step-IsOrderly :
    (env : Environment) (e : Event) (w : World) (ui : ClientUi Screen)
    → IsOrderly w (pending ui)
    → IsUndisturbed e w
    → AreOrderly (step env e (w, ui))
unfolding step
step-IsOrderly env (draws input) w ui h u =
    subst AreOrderly (sym (render_lem (screens env input) input.dismisses_error w ui))
      (frame-IsOrderly env input w ui (pending ui) h u)
step-IsOrderly env resizes w ui h u = h
step-IsOrderly env (attempt_ends r) w ui h u = end_attempt-IsOrderly r w (pending ui) h
step-IsOrderly env drops w ui h u =
    keep-IsOrderly w (record w { connection = connected_as false w.connection }) (pending ui)
      (connected_as-IsSome false w.connection) refl refl h
step-IsOrderly env worker_shuts_down w ui h u = end_worker-IsOrderly true w (pending ui) h
step-IsOrderly env worker_fails w ui h u = end_worker-IsOrderly false w (pending ui) h

abbrev pub start_world : World
start_world = record {
  connection = none;
  connecting = false;
  connect_thread_signal = false;
  connect_thread_error = [];
  workers = 0;
  connection_ended_signal = false;
  shutdown_connection_signal = false;
}

-- The client at its start, before the first frame.
abbrev pub start : ConnectUiScreen → State
start s = (start_world, push_screen (connect_screen s) new_ui)

-- No event of the run is disturbed.
abbrev pub AreUndisturbed : Environment → List Event → State → Type 0
AreUndisturbed env [] s = Unit
AreUndisturbed env (e ∷ es) s = IsUndisturbed e s.0 × AreUndisturbed env es (step env e s)

run-from :
    (env : Environment) (es : List Event) (s : State)
    → AreOrderly s
    → AreUndisturbed env es s
    → AreOrderly (run env es s)
unfolding run
run-from env [] s h u = h
run-from env (e ∷ es) s h u =
    run-from env es (step env e s) (step-IsOrderly env e s.0 s.1 h u.0) u.1

-- Whatever the user does and however attempts and connections end, in any order: as long as the user
-- does not close the chat window in the very frame that finds the connection lost, the screens are,
-- once all that is requested is done, the connect screen with no attempt going on; or the screen that
-- waits for an attempt, above it, where the attempt either runs or has signalled its end, and its
-- connection is kept; or an open chat window above it, with no attempt going on.
pub run-IsOrderly :
    (env : Environment) (s : ConnectUiScreen) (es : List Event)
    → AreUndisturbed env es (start s)
    → IsOrderly (run env es (start s)).0 (pending (run env es (start s)).1)
unfolding Queue.push
run-IsOrderly env s es u = run-from env es (start s) (refl, refl) u

stays_blank :
    (env : Environment) (es : List Event) (s : State)
    → pending s.1 ≡ []
    → pending (run env es s).1 ≡ []
unfolding run step
stays_blank env [] s h = h
stays_blank env (draws input ∷ es) (w, ui) h = stays_blank env es _ (
    ap (λ r. pending r.1) (render_lem (screens env input) input.dismisses_error w ui)
    ∙ ap (λ l. pending (frame (screens env input) input.dismisses_error w l ui).1) h)
stays_blank env (resizes ∷ es) (w, ui) h = stays_blank env es _ h
stays_blank env (attempt_ends r ∷ es) (w, ui) h = stays_blank env es _ h
stays_blank env (drops ∷ es) (w, ui) h = stays_blank env es _ h
stays_blank env (worker_shuts_down ∷ es) (w, ui) h = stays_blank env es _ h
stays_blank env (worker_fails ∷ es) (w, ui) h = stays_blank env es _ h

-- If the user closes the chat window in the very frame that finds the connection lost, both ask for a
-- screen to be popped, and no screen is left: whatever happens from then on, nothing is shown.
pub closed_while_lost :
    (env : Environment) (input : Input) (w : World) (ui : ClientUi Screen) (t : ChatWindow)
    (s : ConnectUiScreen) (es : List Event)
    → pending ui ≡ chat_screen t ∷ connect_screen s ∷ []
    → t.window_open ≡ true
    → w.connection_ended_signal ≡ true
    → input.closes ≡ true
    → pending (run env (draws input ∷ es) (w, ui)).1 ≡ []
unfolding run step chat_update render_chat
closed_while_lost env input w ui t s es p o l c = stays_blank env es _ (
    ap (λ r. pending r.1) (render_lem (screens env input) input.dismisses_error w ui)
    ∙ ap (λ l. pending (frame (screens env input) input.dismisses_error w l ui).1) p
    ∙ rw (l, o, c))
