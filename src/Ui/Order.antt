-- ===== src/Ui/Order.antt =====
-- The screens of a connection are in order, and a frame keeps them so.
use tavernmx.Common.{
  ℕ, ◌≡◌, refl, arith, Bool, true, false, Bool-cases, inl, inr, not, ◌&&◌, ◌||◌, Option, none, some,
  List, [], ◌∷◌, ◌++◌, append-nil,
}
use tavernmx.Common.Text.{Text, is_empty}
use tavernmx.Ui.{ClientUi}
use tavernmx.Ui.Frames.{pending, requested, asked, frame}
use tavernmx.Ui.Connect.{
  Screen, connect_screen, connecting_screen, chat_screen, ConnectUiScreen, ServerConnection,
  ChatWindow, with_screen, ConnectInput, no_input, presses_connect, types_user, types_host,
  types_port, World, Environment, try_submit, render_connect, submit_if, on_connect_button,
  connect_with, any_invalid, validate, Calls,
}
use tavernmx.Ui.Session.{
  report_failure, take_connection, attempt_over, Input, State, screens, connecting_screen_update,
  chat_update, render_chat,
}

abbrev pub IsSome {ℓ} : {A : Type ℓ} → Option A → Type 0
IsSome none = ⊥
IsSome (some a) = Unit

-- The screens are the connect screen, with nothing going on; or it is below the screen that waits for
-- an attempt, which either runs or has signalled its end; or it is below an open chat window.
abbrev pub IsOrderly : World → List Screen → Type 0
IsOrderly w (connect_screen s ∷ []) = (w.connecting ≡ false) × (w.connect_thread_signal ≡ false)
IsOrderly w (connecting_screen c ∷ connect_screen s ∷ []) =
    IsSome w.connection × (w.connecting ≡ not w.connect_thread_signal)
IsOrderly w (chat_screen t ∷ connect_screen s ∷ []) =
    (t.window_open ≡ true) × (w.connecting ≡ false) × (w.connect_thread_signal ≡ false)
IsOrderly w _ = ⊥

abbrev pub AreOrderly : State → Type 0
AreOrderly (w, ui) = IsOrderly w (pending ui)

connect_with-IsOrderly :
    (env : Environment) (s t : ConnectUiScreen) (w : World) (p : Option ℕ) (e f : Option Text)
    → (w.connecting ≡ false) × (w.connect_thread_signal ≡ false)
    → IsOrderly
        (connect_with env s w p e f).0
        (requested (asked (connect_with env s w p e f).1) (connect_screen t ∷ []))
connect_with-IsOrderly env s t w none e f h = h
connect_with-IsOrderly env s t w (some p) (some e) f h = h
connect_with-IsOrderly env s t w (some p) none (some e) h = h
connect_with-IsOrderly env s t w (some p) none none h = (tt, ground arith)

-- What a screen leaves: the world, itself and what it requests.
abbrev Leaves : World × Screen × Calls → List Screen → Type 0
Leaves (w, s, calls) below = IsOrderly w (requested (asked calls) (s ∷ below))

try_submit-Leaves :
    (env : Environment) (s : ConnectUiScreen) (w : World)
    → (w.connecting ≡ false) × (w.connect_thread_signal ≡ false)
    → Leaves (try_submit env s w) []
unfolding try_submit on_connect_button
try_submit-Leaves env s w h = elim (Bool-cases (any_invalid (validate s))) [
  | inl e ↦ rw e h
  | inr e ↦ rw e (connect_with-IsOrderly env (validate s) (validate s) w _ _ _ h)
]

submit_if-Leaves :
    (entered : Bool) (env : Environment) (s : ConnectUiScreen) (w : World)
    → (w.connecting ≡ false) × (w.connect_thread_signal ≡ false)
    → Leaves (submit_if entered env s w) []
submit_if-Leaves true env s w h = try_submit-Leaves env s w h
submit_if-Leaves false env s w h = h

render_connect-Leaves :
    (env : Environment) (i : ConnectInput) (s : ConnectUiScreen) (w : World)
    → (w.connecting ≡ false) × (w.connect_thread_signal ≡ false)
    → Leaves (render_connect env i s w) []
render_connect-Leaves env no_input s w h = h
render_connect-Leaves env presses_connect s w h = try_submit-Leaves env s w h
render_connect-Leaves env (types_user t b) s w h = submit_if-Leaves b env _ w h
render_connect-Leaves env (types_host t b) s w h = submit_if-Leaves b env _ w h
render_connect-Leaves env (types_port t b) s w h = submit_if-Leaves b env _ w h

report_failure-Leaves :
    (c : Bool) (s : ConnectUiScreen) (w : World)
    → (w.connecting ≡ false) × (w.connect_thread_signal ≡ false)
    → Leaves (with_screen (connecting_screen c) (report_failure w)) (connect_screen s ∷ [])
report_failure-Leaves c s w h = elim (Bool-cases (is_empty w.connect_thread_error)) [
  | inl e ↦ rw e h
  | inr e ↦ rw e h
]

take_connection-Leaves :
    (c : Bool) (s : ConnectUiScreen) (o : Option ServerConnection) (w : World)
    → (w.connecting ≡ false) × (w.connect_thread_signal ≡ false)
    → Leaves (with_screen (connecting_screen c) (take_connection o w)) (connect_screen s ∷ [])
take_connection-Leaves c s none w h = report_failure-Leaves c s w h
take_connection-Leaves c s (some k) w h = elim (Bool-cases k.connected) [
  | inl e ↦ rw e (refl, h.0, h.1)
  | inr e ↦ rw e (report_failure-Leaves c s w h)
]

attempt_over-Leaves :
    (cancelled c : Bool) (s : ConnectUiScreen) (w : World)
    → (w.connecting ≡ false) × (w.connect_thread_signal ≡ false)
    → Leaves (with_screen (connecting_screen c) (attempt_over cancelled w)) (connect_screen s ∷ [])
attempt_over-Leaves true c s w h = h
attempt_over-Leaves false c s w h = take_connection-Leaves c s w.connection w h

connecting_screen_update-Leaves :
    (cancelled c : Bool) (s : ConnectUiScreen) (w : World)
    → IsSome w.connection × (w.connecting ≡ not w.connect_thread_signal)
    → Leaves
        (with_screen (connecting_screen c) (connecting_screen_update cancelled w))
        (connect_screen s ∷ [])
unfolding connecting_screen_update
connecting_screen_update-Leaves cancelled c s w h = elim (Bool-cases w.connect_thread_signal) [
  | inl e ↦
      let idle : w.connecting ≡ false = ground arith in
      rw e (attempt_over-Leaves cancelled c s _ (idle, refl))
  | inr e ↦ rw e (h.0, ground arith)
]

-- The chat window in a frame: updated, then rendered.
render_chat-Leaves :
    (ended closes : Bool) (t : ChatWindow) (s : ConnectUiScreen) (w : World)
    → (t.window_open ≡ true) × (w.connecting ≡ false) × (w.connect_thread_signal ≡ false)
    → w.connection_ended_signal ≡ ended
    → (ended && closes) ≡ false
    → let (w1, calls1) = chat_update w in
      let (w2, t2, calls2) = render_chat closes t w1 in
      IsOrderly w2 (requested (asked calls1 ++ asked calls2) (t2 ∷ connect_screen s ∷ []))
unfolding chat_update render_chat
render_chat-Leaves true true t s w h e u = absurd (cc)
render_chat-Leaves true false t s w h e u = rw (e, h.0) (h.1, h.2)
render_chat-Leaves false true t s w h e u = rw (e, h.0) (h.1, h.2)
render_chat-Leaves false false t s w h e u = rw (e, h.0) (refl, h.1, h.2)

pub frame-IsOrderly :
    (env : Environment) (input : Input) (w : World) (ui : ClientUi Screen) (shown : List Screen)
    → IsOrderly w shown
    → (w.connection_ended_signal && input.closes) ≡ false
    → AreOrderly (frame (screens env input) input.dismisses_error w shown ui)
frame-IsOrderly env input w ui [] h u = absurd h
frame-IsOrderly env input w ui (connect_screen s ∷ []) h u =
    render_connect-Leaves env input.connect s w h
frame-IsOrderly env input w ui (connecting_screen c ∷ []) h u = absurd h
frame-IsOrderly env input w ui (chat_screen t ∷ []) h u = absurd h
frame-IsOrderly env input w ui (connect_screen s ∷ x ∷ xs) h u = absurd h
frame-IsOrderly env input w ui (connecting_screen c ∷ connect_screen s ∷ []) h u =
    rw (append-nil (asked (connecting_screen_update c w).1))
      (connecting_screen_update-Leaves c (c || input.cancels) s w h)
frame-IsOrderly env input w ui (connecting_screen c ∷ connecting_screen d ∷ xs) h u = absurd h
frame-IsOrderly env input w ui (connecting_screen c ∷ chat_screen t ∷ xs) h u = absurd h
frame-IsOrderly env input w ui (connecting_screen c ∷ connect_screen s ∷ x ∷ xs) h u = absurd h
frame-IsOrderly env input w ui (chat_screen t ∷ connect_screen s ∷ []) h u =
    render_chat-Leaves w.connection_ended_signal input.closes t s w h refl u
frame-IsOrderly env input w ui (chat_screen t ∷ connecting_screen d ∷ xs) h u = absurd h
frame-IsOrderly env input w ui (chat_screen t ∷ chat_screen s ∷ xs) h u = absurd h
frame-IsOrderly env input w ui (chat_screen t ∷ connect_screen s ∷ x ∷ xs) h u = absurd h
