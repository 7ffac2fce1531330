-- ===== src/Process/Deferred/Returning.antt =====
-- A return from a frame that has deferred calls: `opreturn` of src/process/instr/calls.cpp.
use mathlib.Core.List.{reverse}
use wudoovm.Common.{
  ◌==◌, Bool-cases, inl, inr, ℕ, ◌<◌, ◌≡◌, refl, ap, ◌∙◌, true, false, not, Option, none, some,
  List, ◌∷◌, ◌++◌, length, ltb, arith,
}
use wudoovm.Common.Outcome.{ok}
use wudoovm.Process.Code.{Kernel, get_entry_point_of}
use wudoovm.Process.Deferred.Resuming.{TakesAll, pop_run}
use wudoovm.Process.State.{
  update, Process, Frame, Stack, running, suspended_by_deferred_on_frame_pop,
}
use wudoovm.Process.Action.{
  Action, current, put_stack, pure, gets, modify, found, throw_if, when, ◌>>=◌,
}
use wudoovm.Process.Frames.{
  set_frames, pop, push_order, register_deferred_calls, register_deferred_calls_from,
  set_return_value, set_state, is_nil, back,
}
use wudoovm.Process.Unwinding.{switch_to_top}
use wudoovm.Process.Calls.{
  require_on_frame_pop, take_return_value, opreturn, begin_return, unless_left, return_now,
}
use wudoovm.Process.Runs.{bind_run_ok, bind_gets, bind_modify, bind_on_stack}
use wudoovm.Process.Ownership.{Below, put_stack_self}
use wudoovm.Process.Deferred.{HasEntries, singles, waiting, without_base}
use wudoovm.Process.Deferred.Frames.{
  cleared, register_deferred_calls_from-Registers, schedule, schedule-switch,
}
use wudoovm.Process.Deferred.Catchers.{switch_to_top_stacks, switch_to_top_frames}
use wudoovm.Process.Deferred.Catching.{waiting_put}
use wudoovm.Process.Deferred.ReturnSteps.{
  some_wait, throw_if_not, not_begun, required, back_run, taken_none, after_pop, after_pop_run,
}

module _ {V : Type 0} (k : Kernel) where
  module _ (p : Process V) (f g : ℕ) (fs : List ℕ)
      (top : Stack.frames (p.stack_at p.stack) ≡ f ∷ g ∷ fs) where
    set_return_value_run :
        Frame.return_register (p.frame_at f) ≡ none → set_return_value p.stack p ≡ (ok tt, p)
    unfolding set_return_value ◌>>=◌ gets found pure when
    set_return_value_run e = rw (top, e) refl

    register_deferred_calls_run :
        register_deferred_calls k p.stack p
        ≡ register_deferred_calls_from k p.stack f (push_order p.stack p)
    unfolding register_deferred_calls ◌>>=◌ gets found pure modify
    register_deferred_calls_run =
        let many : ltb 1 (length (Stack.frames (p.stack_at p.stack))) ≡ true =
          rw top (ground arith) in
        rw (many, top) refl

    opreturn_begins :
        (addr : ℕ)
        → Stack.current_state (p.stack_at p.stack) ≡ running
        → opreturn k addr p
          ≡ (begin_return k p.stack >>= λ left. unless_left left addr (return_now k p.stack)) p
    unfolding opreturn ◌>>=◌ gets throw_if pure
    opreturn_begins addr run = rw (top, run) refl

    leaves :
        (order : List ℕ) (q : Process V)
        → is_nil order ≡ false
        → pure (not (is_nil order)) q ≡ (ok true, q)
    unfolding pure
    leaves order q e = rw e refl

    again :
        (addr : ℕ) (rest : Action V (Option ℕ)) (q : Process V)
        → unless_left true addr rest q ≡ (ok (some addr), q)
    unfolding pure
    again addr rest q = refl

    -- A return from a frame that is not the last of its stack, and from which no value is asked: the stack waits
    -- below the frame's deferred calls, of which the last runs first, and the return is executed again
    -- when the stack runs again. Known functions are assumed.
    pub opreturn_suspends :
        (addr : ℕ)
        → let x = p.stack_at p.stack in
          let calls = Frame.deferred_calls (p.frame_at f) in
          Stack.current_state x ≡ running
          → Frame.return_register (p.frame_at f) ≡ none
          → HasEntries k p.frame_at calls
          → Below p.next_stack p.stacks_order
          → p.stack < p.next_stack
          → (q : Process V) × (opreturn k addr p ≡ (ok (some addr), q))
            × (schedule q ≡ reverse (singles calls) ++ (Stack.frames x ∷ waiting p))
            × (without_base (q.stack_at p.stack)
                ≡ without_base (record x { current_state = suspended_by_deferred_on_frame_pop }))
            × (q.frame_at ≡ cleared p.frame_at f)
    unfolding set_state
    opreturn_suspends addr run quiet es b lt =
        let s = p.stack in
        let x = p.stack_at s in
        let calls = Frame.deferred_calls (p.frame_at f) in
        let p1 = push_order s p in
        let h = register_deferred_calls_from-Registers k s f p1 es (lt, b) lt in
        let r = (register_deferred_calls_from k s f p1).1 in
        let y : Stack V = record (r.stack_at s) {
          current_state = suspended_by_deferred_on_frame_pop;
        } in
        let p2 = put_stack s y r in
        let wait : waiting p2 ≡ reverse (singles calls) ++ (Stack.frames x ∷ waiting p) =
          waiting_put k s r y r.stacks_order refl ∙ h.1.waits in
        (
          switch_to_top r.stacks_order p2,
          opreturn_begins addr run
              ∙ bind_run_ok (begin_return k s) _ p (switch_to_top r.stacks_order p2) true (
                  bind_run_ok (set_return_value s) _ p p tt (set_return_value_run quiet)
                  ∙ bind_run_ok (register_deferred_calls k s) _ p r tt
                      (register_deferred_calls_run ∙ ap (λ o. (o, r)) h.0)
                  ∙ bind_on_stack s
                      (λ z. record z { current_state = suspended_by_deferred_on_frame_pop }) _ r
                  ∙ bind_gets (λ q. q.stacks_order) _ p2
                  ∙ bind_modify (switch_to_top r.stacks_order) _ p2
                  ∙ leaves r.stacks_order (switch_to_top r.stacks_order p2)
                      (some_wait p2.stack_at r.stacks_order (Stack.frames x) (waiting p) _ wait))
              ∙ again addr (return_now k s) (switch_to_top r.stacks_order p2),
          schedule-switch p2 (Stack.frames x) (waiting p) _ wait,
          ap (λ at. without_base (at s)) (switch_to_top_stacks r.stacks_order p2)
              ∙ ap without_base (put_stack_self r s y)
              ∙ ap {A = Stack V}
                  (λ z. record z { current_state = suspended_by_deferred_on_frame_pop })
                  (h.1.kept s lt),
          switch_to_top_frames r.stacks_order p2 ∙ h.2,
        )

    opreturn_goes_on :
        (addr : ℕ)
        → Stack.current_state (p.stack_at p.stack) ≡ suspended_by_deferred_on_frame_pop
        → opreturn k addr p ≡ return_now k p.stack p
    unfolding opreturn
    opreturn_goes_on addr susp =
        bind_gets (λ q. q.stack) _ p
        ∙ bind_gets current _ p
        ∙ throw_if_not _ _ _ p (rw top refl)
        ∙ not_begun addr _ (begin_return k p.stack) (return_now k p.stack) p (rw susp refl)

    return_now-pop :
        Stack.current_state (p.stack_at p.stack) ≡ suspended_by_deferred_on_frame_pop
        → Frame.return_register (p.frame_at f) ≡ none
        → return_now k p.stack p
          ≡ (pop p.stack >>= λ o.
                after_pop k p.stack
                  (Frame.return_register (p.frame_at f))
                  (Frame.return_address (p.frame_at f)))
              (put_stack p.stack (record (p.stack_at p.stack) { current_state = running }) p)
    unfolding set_state
    return_now-pop susp quiet =
        bind_run_ok (require_on_frame_pop p.stack) _ p p tt (required p.stack p susp)
        ∙ bind_run_ok (back p.stack) _ p p f (back_run p.stack f (g ∷ fs) p top)
        ∙ bind_gets (λ q. q.frame_at f) _ p
        ∙ bind_run_ok (take_return_value p.stack (Frame.return_register (p.frame_at f))) _ p p none
            (taken_none p.stack _ p quiet)
        ∙ bind_on_stack p.stack (λ z. record z { current_state = running }) _ p

    -- A return that is executed again, when the deferred calls are over: it goes on at the frame's return
    -- address, in the caller's module, with the frame popped. That the caller's function is known and
    -- that the parameters moved into the frame were taken is assumed; no value is asked from it.
    pub opreturn_returns :
        (addr : ℕ) (entry : ℕ × ℕ)
        → let x = p.stack_at p.stack in
          Stack.current_state x ≡ suspended_by_deferred_on_frame_pop
          → Frame.return_register (p.frame_at f) ≡ none
          → TakesAll (Frame.arguments (p.frame_at f))
          → get_entry_point_of k (Frame.function_name (p.frame_at g)) ≡ some entry
          → (q : Process V) × (opreturn k addr p ≡ (ok (Frame.return_address (p.frame_at f)), q))
            × ((j : ℕ)
                → q.stack_at j
                  ≡ update p.stack_at p.stack
                      (record x {
                        frames = g ∷ fs;
                        current_state = running;
                        jump_base = some entry.1;
                      })
                      j)
            × (q.stack ≡ p.stack)
            × (q.stacks_order ≡ p.stacks_order)
            × (q.frame_at ≡ p.frame_at)
    opreturn_returns addr entry susp quiet taken ep =
        let s = p.stack in
        let x = p.stack_at s in
        let p1 = put_stack s (record x { current_state = running }) p in
        let at_s = put_stack_self p s (record x { current_state = running }) in
        let p2 = put_stack s (set_frames (g ∷ fs) (p1.stack_at s)) p1 in
        let at_two = put_stack_self p1 s (set_frames (g ∷ fs) (p1.stack_at s)) in
        (
          put_stack s (record (p2.stack_at s) { jump_base = some entry.1 }) p2,
          opreturn_goes_on addr susp
              ∙ return_now-pop susp quiet
              ∙ bind_run_ok (pop s) _ p1 p2 f
                  (pop_run s p1 f g fs (ap Stack.frames at_s ∙ top) taken)
              ∙ after_pop_run k s g fs _ _ entry p2 (ap Stack.frames at_two) ep,
          λ j. elim (Bool-cases (j == s)) [
            | inl same ↦ rw same (
                ap {A = Stack V} (λ z. record z { jump_base = some entry.1 })
                  (at_two ∙ ap (set_frames (g ∷ fs)) at_s))
            | inr other ↦ rw other refl
          ],
          refl,
          refl,
          refl,
        )
