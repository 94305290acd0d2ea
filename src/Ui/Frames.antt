-- ===== src/Ui/Frames.antt =====
-- What a frame of the user interface does: requests are deferred, and take effect in their order.
use tavernmx.Common.{
  ℕ, zero, suc, ◌<◌, ◌≡◌, ◌∙◌, refl, sym, ap, arith, Bool, true, false, Bool-cases, inl, inr, List,
  [], ◌∷◌, ◌++◌, length, drop, append-nil, append_assoc, if◌then◌else◌,
}
use tavernmx.Common.Text.{Text, is_empty}
use tavernmx.Queue
use tavernmx.Stack
use tavernmx.Ui.{
  PushPopRequest, push, pop, ClientUi, UiCall, sets_error, sets_viewport_resized, pops_screen,
  pushes_screen, Screens, call, call_all, process_requests, render, render_error, finish, show_top,
}

abbrev pub dismissed : Bool → Text → Text
dismissed pressed e = if is_empty e then e else if pressed then [] else e

module _ {S : Type 0} where
  -- The screens after the requests, with the one on top in front; a pop of no screens does nothing.
  abbrev pub requested : List (PushPopRequest S) → List S → List S
  requested [] screens = screens
  requested (push screen ∷ rs) screens = requested rs (screen ∷ screens)
  requested (pop ∷ rs) screens = requested rs (drop 1 screens)

  -- The screens as they will be when all that is requested is done.
  abbrev pub pending : ClientUi S → List S
  pending ui = requested ui.op_queue.items ui.screen_stack.items

  -- What the calls of a screen request, the error that they leave, and the flag.
  abbrev pub asked : List (UiCall S) → List (PushPopRequest S)
  asked [] = []
  asked (pops_screen ∷ cs) = pop ∷ asked cs
  asked (pushes_screen screen ∷ cs) = push screen ∷ asked cs
  asked (sets_error message ∷ cs) = asked cs
  asked (sets_viewport_resized ∷ cs) = asked cs

  abbrev pub error_after : List (UiCall S) → Text → Text
  error_after [] e = e
  error_after (sets_error message ∷ cs) e = error_after cs message
  error_after (pops_screen ∷ cs) e = error_after cs e
  error_after (pushes_screen screen ∷ cs) e = error_after cs e
  error_after (sets_viewport_resized ∷ cs) e = error_after cs e

  abbrev pub resized_after : List (UiCall S) → Bool → Bool
  resized_after [] b = b
  resized_after (sets_viewport_resized ∷ cs) b = resized_after cs true
  resized_after (sets_error message ∷ cs) b = resized_after cs b
  resized_after (pops_screen ∷ cs) b = resized_after cs b
  resized_after (pushes_screen screen ∷ cs) b = resized_after cs b

  pub requested-append :
      (rs qs : List (PushPopRequest S)) (screens : List S)
      → requested (rs ++ qs) screens ≡ requested qs (requested rs screens)
  requested-append [] qs screens = refl
  requested-append (push screen ∷ rs) qs screens = requested-append rs qs (screen ∷ screens)
  requested-append (pop ∷ rs) qs screens = requested-append rs qs (drop 1 screens)

  process_requests_lem :
      (fuel : ℕ) (resized popped : Bool) (e : Text) (screens : List S)
      (rs : List (PushPopRequest S))
      → length rs < fuel
      → process_requests fuel (record {
        viewport_resized = resized;
        screen_popped = popped;
        current_error = e;
        screen_stack = record { items = screens };
        op_queue = record { items = rs };
      })
        ≡ record {
          viewport_resized = resized;
          screen_popped = popped;
          current_error = e;
          screen_stack = record { items = requested rs screens };
          op_queue = Queue.new;
        }
  unfolding process_requests Queue.pop Stack.push Stack.pop
  process_requests_lem zero resized popped e screens rs h = absurd (omega arith)
  process_requests_lem (suc fuel) resized popped e screens [] h = refl
  process_requests_lem (suc fuel) resized popped e screens (push s ∷ rs) h =
      process_requests_lem fuel resized popped e (s ∷ screens) rs (omega arith)
  process_requests_lem (suc fuel) resized popped e [] (pop ∷ rs) h =
      process_requests_lem fuel resized popped e [] rs (omega arith)
  process_requests_lem (suc fuel) resized popped e (s ∷ screens) (pop ∷ rs) h =
      process_requests_lem fuel resized popped e screens rs (omega arith)

  abbrev queued : List (UiCall S) → ClientUi S → List (PushPopRequest S) → ClientUi S
  queued cs ui rs = record {
    viewport_resized = resized_after cs ui.viewport_resized;
    screen_popped = ui.screen_popped;
    current_error = error_after cs ui.current_error;
    screen_stack = ui.screen_stack;
    op_queue = record { items = rs };
  }

  call_all_lem :
      (cs : List (UiCall S)) (ui : ClientUi S)
      → call_all cs ui ≡ queued cs ui (ui.op_queue.items ++ asked cs)
  unfolding call_all Queue.push
  call_all_lem [] ui = ap (queued [] ui) (sym (append-nil ui.op_queue.items))
  call_all_lem (sets_error message ∷ cs) ui = call_all_lem cs (call (sets_error message) ui)
  call_all_lem (sets_viewport_resized ∷ cs) ui = call_all_lem cs (call sets_viewport_resized ui)
  call_all_lem (pops_screen ∷ cs) ui =
      call_all_lem cs (call pops_screen ui)
      ∙ ap (queued cs ui) (append_assoc ui.op_queue.items (pop ∷ []) (asked cs))
  call_all_lem (pushes_screen s ∷ cs) ui =
      call_all_lem cs (call (pushes_screen s) ui)
      ∙ ap (queued cs ui) (append_assoc ui.op_queue.items (push s ∷ []) (asked cs))

  render_error_lem :
      (pressed : Bool) (ui : ClientUi S)
      → render_error pressed ui ≡ record ui { current_error = dismissed pressed ui.current_error }
  render_error_lem pressed ui = elim (Bool-cases (is_empty ui.current_error)) [
    | inl e ↦ rw e
    | inr e ↦ elim (Bool-cases pressed) [ inl p ↦ rw (e, p) | inr p ↦ rw (e, p) ]
  ]

  abbrev finished : {W : Type 0} → W → ClientUi S → W × ClientUi S
  finished w ui = (w, record ui { viewport_resized = false; screen_popped = false })

  -- A frame that begins with these screens, when all that was requested before is done.
  module _ {W : Type 0} (screens : Screens W S) (pressed : Bool) (w : W) where
    abbrev pub frame : List S → ClientUi S → W × ClientUi S
    frame [] ui = (
      w,
      record {
        viewport_resized = false;
        screen_popped = false;
        current_error = dismissed pressed ui.current_error;
        screen_stack = Stack.new;
        op_queue = Queue.new;
      },
    )
    frame (top ∷ below) ui =
        let (w1, s1, updates) = screens.update w top in
        let (w2, s2, renders) = screens.render (resized_after updates ui.viewport_resized) w1 s1 in
        (
          w2,
          record {
            viewport_resized = false;
            screen_popped = false;
            current_error =
                dismissed pressed (error_after renders (error_after updates ui.current_error));
            screen_stack = record { items = s2 ∷ below };
            op_queue = record { items = asked updates ++ asked renders };
          },
        )

    show_lem :
        (top : List S) (ui : ClientUi S)
        → finish screens pressed (
            show_top screens w
              (record ui { screen_stack = record { items = top }; op_queue = Queue.new }))
          ≡ frame top ui
    unfolding Stack.top Stack.pop Stack.push
    show_lem [] ui = ap (finished w) (render_error_lem pressed _)
    show_lem (top ∷ below) ui =
        let (w1, s1, updates) = screens.update w top in
        let (w2, s2, renders) = screens.render (resized_after updates ui.viewport_resized) w1 s1 in
        rw (call_all_lem updates, call_all_lem renders)
          (ap (finished w2) (render_error_lem pressed _))

    -- A frame: first all that was requested before is done, in its order, with nothing left to do;
    -- then the screen on top, if there is one, is updated and rendered, each once. What it requests
    -- of the stack waits for the next frame, so that the screen stays on top as long as it is shown.
    -- The error is the last one set, unless the user dismisses it.
    pub render_lem : (ui : ClientUi S) → render screens pressed w ui ≡ frame (pending ui) ui
    unfolding render Queue.size Stack.top Stack.pop Stack.push
    render_lem ui =
        ap (λ u. finish screens pressed (show_top screens w u))
          (process_requests_lem (suc (length ui.op_queue.items)) _ _ _ _ _ (omega arith))
        ∙ show_lem (pending ui) ui
