-- ===== src/Process/Deferred/Uncaught.antt =====
-- An exception that no try frame catches, in src/process/stack.cpp.
use mathlib.Core.List.{reverse}
use wudoovm.Common.{ℕ, ◌≡◌, ◌<◌, refl, ap, ◌∙◌, none, some, ◌∷◌, ◌++◌}
use wudoovm.Common.Outcome.{ok}
use wudoovm.Process.Code.{Kernel}
use wudoovm.Process.State.{Process, Stack, Thrown}
use wudoovm.Process.Action.{modify}
use wudoovm.Process.Frames.{push_order}
use wudoovm.Process.Unwinding.{
  register_frames, switch_to_top, unwind, unwind_with, unwind_uncaught, find_catch_frame,
  find_catcher, in_flight,
}
use wudoovm.Process.Runs.{bind_run_ok, bind_ok, bind_gets, bind_modify}
use wudoovm.Process.Ownership.{Below, Distinct}
use wudoovm.Process.Deferred.{HasEntries, singles, waiting, without_base}
use wudoovm.Process.Deferred.Frames.{
  deferred_of, cleared_all, register_frames-Registers, schedule, schedule-switch,
}
use wudoovm.Process.Deferred.Catchers.{
  find_catch_frame_run, switch_to_top_stacks, switch_to_top_frames,
}

module _ {V : Type 0} (k : Kernel) (s : ℕ) where
  -- An exception that no try frame of the stack catches: the deferred calls of all its frames run
  -- before it, the innermost frame's last call first, and then it runs with its frames and the
  -- exception as they were. Distinct frames and known functions are assumed.
  pub unwind-uncaught :
      (p : Process V) (e : Thrown V)
      → let x = p.stack_at s in
        let fs = reverse (Stack.frames x) in
        in_flight x ≡ some e
        → find_catcher p.try_frame_at e.tag (Stack.tryframes x) ≡ none
        → HasEntries k p.frame_at (deferred_of p.frame_at fs)
        → Distinct fs
        → Below p.next_stack p.stacks_order
        → s < p.next_stack
        → (q : Process V) × (unwind k s p ≡ (ok tt, q))
          × (schedule q
              ≡ reverse (singles (deferred_of p.frame_at fs)) ++ (Stack.frames x ∷ waiting p))
          × (without_base (q.stack_at s) ≡ without_base x)
          × (q.frame_at ≡ cleared_all p.frame_at fs)
  unfolding unwind unwind_with unwind_uncaught modify
  unwind-uncaught p e fl fc es d b lt =
      let x = p.stack_at s in
      let fs = reverse (Stack.frames x) in
      let p1 = push_order s p in
      let h = register_frames-Registers k s fs p1 es d (lt, b) lt in
      let r = (register_frames k s fs p1).1 in
      (
        switch_to_top r.stacks_order r,
        bind_run_ok (find_catch_frame s) (λ a. unwind_with k s a.0 a.1) p p _
              (rw fc at (find_catch_frame_run k s p e fl))
            ∙ bind_modify (push_order s) _ p
            ∙ bind_gets (λ q. q.stack_at s) _ p1
            ∙ bind_ok (register_frames k s fs) _ p1 tt h.0
            ∙ refl,
        schedule-switch r (Stack.frames x) (waiting p)
            (reverse (singles (deferred_of p.frame_at fs))) h.1.waits,
        ap (λ g. without_base (g s)) (switch_to_top_stacks r.stacks_order r) ∙ h.1.kept s lt,
        switch_to_top_frames r.stacks_order r ∙ h.2,
      )
