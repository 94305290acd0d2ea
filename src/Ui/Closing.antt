-- ===== src/Ui/Closing.antt =====
-- The main loop of the client is a run of the screens, up to the round in which the window is closed.
use tavernmx.Common.{
  ◌≡◌, ◌∙◌, refl, sym, ap, subst, Bool, true, false, ◌||◌, List, [], ◌∷◌, ◌++◌, map, any_of, ℕ,
  append-nil,
}
use tavernmx.Config.Client.{ClientConfiguration}
use tavernmx.Ui.Frames.{pending}
use tavernmx.Ui.Order.{IsOrderly}
use tavernmx.Ui.Connect.{Environment}
use tavernmx.Ui.Session.{Event, State, resizes, draws, step, run}
use tavernmx.Ui.Flow.{AreUndisturbed, start, run-IsOrderly, keep-IsOrderly}
use tavernmx.Ui.Program.{
  SdlEvent, quit, window_close, window_resized, other_event, Round, as_event, poll_events, draw,
  main_round, main_loop, after_loop, main, first_screen,
}

abbrev pub is_closing : SdlEvent → Bool
is_closing quit = true
is_closing window_close = true
is_closing window_resized = false
is_closing other_event = false

abbrev pub closes : Round → Bool
closes r = any_of is_closing r.events

abbrev pub resizes_in : List SdlEvent → List Event
resizes_in [] = []
resizes_in (window_resized ∷ es) = resizes ∷ resizes_in es
resizes_in (quit ∷ es) = resizes_in es
resizes_in (window_close ∷ es) = resizes_in es
resizes_in (other_event ∷ es) = resizes_in es

-- What happens to the screens in a round, and in the rounds.
abbrev pub events_of : Round → List Event
events_of r = map as_event r.meanwhile ++ (resizes_in r.events ++ draws r.input ∷ [])

abbrev pub events_in : List Round → List Event
events_in [] = []
events_in (r ∷ rs) = events_of r ++ events_in rs

abbrev pub with_certificates : Environment → ClientConfiguration → Environment
with_certificates env config = record env { custom_certificates = config.custom_certificates }

-- `shutdown_connection_signal` is released.
abbrev pub released : State → State
released (w, ui) = (record w { shutdown_connection_signal = true }, ui)

-- The window stays open in all of the rounds.
abbrev pub AreOpen : List Round → Type 0
AreOpen [] = Unit
AreOpen (r ∷ rs) = (closes r ≡ false) × AreOpen rs

run-append :
    (env : Environment) (es fs : List Event) (s : State)
    → run env (es ++ fs) s ≡ run env fs (run env es s)
unfolding run
run-append env [] fs s = refl
run-append env (e ∷ es) fs s = run-append env es fs (step env e s)

poll_events_lem :
    (env : Environment) (es : List SdlEvent) (done : Bool) (s : State)
    → poll_events es (done, s) ≡ (done || any_of is_closing es, run env (resizes_in es) s)
unfolding poll_events run step
poll_events_lem env [] true s = refl
poll_events_lem env [] false s = refl
poll_events_lem env (quit ∷ es) true s = poll_events_lem env es true s
poll_events_lem env (quit ∷ es) false s = poll_events_lem env es true s
poll_events_lem env (window_close ∷ es) true s = poll_events_lem env es true s
poll_events_lem env (window_close ∷ es) false s = poll_events_lem env es true s
poll_events_lem env (window_resized ∷ es) true s = poll_events_lem env es true _
poll_events_lem env (window_resized ∷ es) false s = poll_events_lem env es false _
poll_events_lem env (other_event ∷ es) true s = poll_events_lem env es true s
poll_events_lem env (other_event ∷ es) false s = poll_events_lem env es false s

main_round_lem :
    (env : Environment) (r : Round) (s : State)
    → main_round env r s ≡ (closes r, run env (events_of r) s)
unfolding main_round
main_round_lem env r s =
    let before = run env (map as_event r.meanwhile) s in
    let drawn : run env (draws r.input ∷ []) (run env (resizes_in r.events) before)
        ≡ step env (draws r.input) (run env (resizes_in r.events) before) =
      unfold run in refl in
    ap (draw env r.input) (poll_events_lem env r.events false before)
    ∙ ap (λ t. (closes r, t))
        (sym drawn
          ∙ sym (run-append env (resizes_in r.events) (draws r.input ∷ []) before)
          ∙ sym (run-append env (map as_event r.meanwhile) _ s))

main_loop_lem :
    (env : Environment) (rs : List Round) (r : Round) (later : List Round) (s : State)
    → AreOpen rs
    → closes r ≡ true
    → main_loop env (rs ++ r ∷ later) s ≡ (true, run env (events_in (rs ++ r ∷ [])) s)
unfolding main_loop
main_loop_lem env [] r later s open_all closing =
    rw (main_round_lem env r s, closing, append-nil (events_of r)) refl
main_loop_lem env (q ∷ rs) r later s open_all closing =
    rw (main_round_lem env q s, open_all.0)
      (main_loop_lem env rs r later _ open_all.1 closing
        ∙ ap (λ t. (true, t)) (sym (run-append env (events_of q) (events_in (rs ++ r ∷ [])) s)))

-- The client from its first screen on: if the window is first closed in the last of some rounds, then
-- the main loop ends with that round, in which the screen is still drawn, and whatever comes later does
-- not count. What is left is what the frames, the resizes and the threads make of the screens in their
-- order, with the connection asked to shut down. If the user never closes the chat window in a frame
-- that finds the connection lost, the screens are in order at the end.
pub main-run :
    (env : Environment) (time : ℕ) (config : ClientConfiguration) (rs : List Round) (r : Round)
    (later : List Round)
    → AreOpen rs
    → closes r ≡ true
    → AreUndisturbed
        (with_certificates env config)
        (events_in (rs ++ r ∷ []))
        (start (first_screen time config))
    → (main env time config (rs ++ r ∷ later) ≡ (
      true,
      released (
          run
            (with_certificates env config)
            (events_in (rs ++ r ∷ []))
            (start (first_screen time config))),
    ))
      × IsOrderly
          (main env time config (rs ++ r ∷ later)).1.0
          (pending (main env time config (rs ++ r ∷ later)).1.1)
unfolding main
main-run env time config rs r later open_all closing undisturbed =
    let env' = with_certificates env config in
    let first = start (first_screen time config) in
    let (w, ui) = run env' (events_in (rs ++ r ∷ [])) first in
    let ended : main env time config (rs ++ r ∷ later) ≡ (true, released (w, ui)) =
      ap after_loop (main_loop_lem env' rs r later first open_all closing) in
    (
      ended,
      subst (λ t. IsOrderly t.1.0 (pending t.1.1)) (sym ended)
          (keep-IsOrderly w (record w { shutdown_connection_signal = true }) (pending ui) (λ o. o)
            refl refl (run-IsOrderly env' (first_screen time config) _ undisturbed)),
    )
