-- ===== src/Ui.antt =====
-- `ClientUi` (include/tavernmx/client-ui.h, src/client/client-ui/ui.cpp): the stack of screens. A
-- screen is a type parameter, and its `update` and `render` are the fields of `Screens`.
pub mod Handlers
pub mod Frames
pub mod Connect
pub mod Session
pub mod Typed
pub mod Submit
pub mod Order
pub mod Flow
pub mod Program
pub mod Closing
pub mod First
mod Examples
mod ProgramExamples
use tavernmx.Common.{
  ℕ, zero, suc, Bool, true, false, Option, none, some, List, [], ◌∷◌, if◌then◌else◌,
}
use tavernmx.Common.Text.{Text, is_empty}
use tavernmx.Queue
use tavernmx.Queue.{ThreadSafeQueue}
use tavernmx.Stack
use tavernmx.Stack.{ThreadSafeStack}

pub data PushPopRequest (S : Type 0) : Type 0 where
  push : S → PushPopRequest S
  pop : PushPopRequest S

pub record ClientUi (S : Type 0) : Type 0 where
  pub viewport_resized : Bool
  pub screen_popped : Bool
  pub current_error : Text
  pub screen_stack : ThreadSafeStack S
  pub op_queue : ThreadSafeQueue (PushPopRequest S)

-- A call that a screen makes of the user interface that it is given.
pub data UiCall (S : Type 0) : Type 0 where
  sets_error : Text → UiCall S
  sets_viewport_resized pops_screen : UiCall S
  pushes_screen : S → UiCall S

-- The virtual methods of a screen, over what else they read and change, `W`; the first argument of
-- `render` is `viewport_resized`.
pub record Screens (W S : Type 0) : Type 0 where
  pub update : W → S → W × S × List (UiCall S)
  pub render : Bool → W → S → W × S × List (UiCall S)

module _ {S : Type 0} where
  abbrev pub new_ui : ClientUi S
  new_ui = record {
    viewport_resized = false;
    screen_popped = false;
    current_error = [];
    screen_stack = Stack.new;
    op_queue = Queue.new;
  }

  abbrev pub set_error : Text → ClientUi S → ClientUi S
  set_error message ui = record ui { current_error = message }

  abbrev pub set_viewport_resized : ClientUi S → ClientUi S
  set_viewport_resized ui = record ui { viewport_resized = true }

  abbrev pub pop_screen : ClientUi S → ClientUi S
  pop_screen ui = record ui { op_queue = Queue.push ui.op_queue pop }

  abbrev pub push_screen : S → ClientUi S → ClientUi S
  push_screen screen ui = record ui { op_queue = Queue.push ui.op_queue (push screen) }

  abbrev pub call : UiCall S → ClientUi S → ClientUi S
  call (sets_error message) ui = set_error message ui
  call sets_viewport_resized ui = set_viewport_resized ui
  call pops_screen ui = pop_screen ui
  call (pushes_screen screen) ui = push_screen screen ui

  unfoldable pub call_all : List (UiCall S) → ClientUi S → ClientUi S
  call_all [] ui = ui
  call_all (c ∷ cs) ui = call_all cs (call c ui)

  abbrev pub apply_request : PushPopRequest S → ThreadSafeStack S → ThreadSafeStack S
  apply_request (push screen) stack = Stack.push stack screen
  apply_request pop stack = (Stack.pop stack).1

  -- The loop at the start of `render`, with fuel.
  unfoldable pub process_requests : ℕ → ClientUi S → ClientUi S
  process_requests zero ui = ui
  process_requests (suc fuel) ui =
      let (op, rest) = Queue.pop ui.op_queue in
      elim op [
        | none ↦ ui
        | some request ↦
            process_requests fuel
              (record ui { screen_stack = apply_request request ui.screen_stack; op_queue = rest })
      ]

  -- The screen on top is changed in place.
  abbrev pub change_top : S → ThreadSafeStack S → ThreadSafeStack S
  change_top screen stack = Stack.push (Stack.pop stack).1 screen

  -- The user may press the button below the error that is shown.
  abbrev pub render_error : Bool → ClientUi S → ClientUi S
  render_error pressed ui =
      if is_empty ui.current_error then ui else if pressed then set_error [] ui else ui

  module _ {W : Type 0} (screens : Screens W S) where
    abbrev pub show : W → S → ClientUi S → W × ClientUi S
    show w screen ui =
        let (w1, s1, calls1) = screens.update w screen in
        let ui1 = call_all calls1 ui in
        let (w2, s2, calls2) = screens.render ui1.viewport_resized w1 s1 in
        let ui2 = call_all calls2 ui1 in
        (w2, record ui2 { screen_stack = change_top s2 ui2.screen_stack })

    abbrev pub show_top : W → ClientUi S → W × ClientUi S
    show_top w ui = elim (Stack.top ui.screen_stack) [
      | none ↦ (w, ui)
      | some screen ↦ show w screen ui
    ]

    -- What follows the screen: the error, and the flags.
    abbrev pub finish : Bool → W × ClientUi S → W × ClientUi S
    finish pressed (w, ui) =
        (w, record (render_error pressed ui) { viewport_resized = false; screen_popped = false })

    -- One round more than there are requests ends the loop.
    unfoldable pub render : Bool → W → ClientUi S → W × ClientUi S
    unfolding process_requests call_all
    render pressed w ui =
        finish pressed (show_top w (process_requests (suc (Queue.size ui.op_queue)) ui))
