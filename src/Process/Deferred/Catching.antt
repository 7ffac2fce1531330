-- ===== src/Process/Deferred/Catching.antt =====
-- The first phase of unwinding in src/process/stack.cpp, in which a stack waits for deferred calls.
use Prim.Native.String.{String}
use mathlib.Core.List.{reverse}
use wudoovm.Common.{
  false, length, take-append_length, ℕ, ◌<◌, ◌≡◌, refl, ap, ap₂, ◌∙◌, true, Option, none, some,
  List, [], ◌∷◌, ◌++◌, take, ◌==◌, Bool-cases, inl, inr, arith, ==_iff,
}
use wudoovm.Common.Outcome.{ok}
use wudoovm.Process.Code.{Kernel, get_entry_point_of_block, lookup}
use wudoovm.Process.State.{
  Process, Stack, TryFrame, Thrown, update, running, suspended_by_deferred_during_stack_unwinding,
}
use wudoovm.Process.Action.{missing, found, put_stack, modify}
use wudoovm.Process.Frames.{mem_new, set_state, push_order}
use wudoovm.Process.Unwinding.{
  register_frames, switch_to_top, suspend_for_deferred, unwind, find_catcher, unwind_call_stack_to,
  unwind_by, try_frames_from, distance_to, catch_thrown, in_flight,
}
use wudoovm.Process.Ownership.{Below, Distinct, put_stack_self}
use wudoovm.Process.Runs.{bind_run_ok, bind_ok, bind_gets, bind_modify, bind_on_stack}
use wudoovm.Process.Deferred.{HasEntries, waiting, frames_of, singles, without_base}
use wudoovm.Process.Deferred.Frames.{
  deferred_of, cleared_all, register_frames-Registers, schedule, schedule-switch,
}
use wudoovm.Process.Deferred.Distance.{StopsAt, distance_to-append}
use wudoovm.Process.Deferred.Catchers.{
  found_run, switch_to_top_stacks, switch_to_top_frames, jump_to, jump_to_stack, unwind_caught_run,
  unwind_try_stack_to_run, find_catcher-append, try_frames_from-append, NoCatcher,
}

==_refl : (a : ℕ) → (a == a) ≡ true
==_refl a = ground arith

module _ {V : Type 0} (k : Kernel) (s : ℕ) where
  -- The first phase, with the frames that are left.
  unwind_call_stack_to_first :
      (p : Process V) (f : Option ℕ) (above : List ℕ) (b : ℕ) (below : List ℕ)
      → Stack.current_state (p.stack_at s) ≡ running
      → Stack.frames (p.stack_at s) ≡ above ++ (b ∷ below)
      → mem_new f above ≡ false
      → StopsAt f b below
      → unwind_call_stack_to k s f p ≡ suspend_for_deferred k s (reverse above) p
  unfolding unwind_call_stack_to unwind_by
  unwind_call_stack_to_first p f above b below r e out stop =
      let fs = Stack.frames (p.stack_at s) in
      bind_gets (λ q. q.stack_at s) _ p
      ∙ bind_run_ok (found missing (distance_to f fs)) _ p p (length above) (
          found_run missing (distance_to f fs) (length above) p
            (ap (distance_to f) e ∙ distance_to-append f above b below out stop))
      ∙ rw r refl
      ∙ ap (λ xs. suspend_for_deferred k s (reverse xs) p)
          (ap (take (length above)) e ∙ take-append_length above (b ∷ below))

  -- Writes to a stack that leave its frames alone do not change which frames wait.
  pub waiting_put :
      (p : Process V) (x : Stack V) (order : List ℕ)
      → x.frames ≡ Stack.frames (p.stack_at s)
      → frames_of (update p.stack_at s x) order ≡ frames_of p.stack_at order
  waiting_put p x [] h = refl
  waiting_put p x (j ∷ order) h = elim (Bool-cases (j == s)) [
    | inl same ↦ rw (same, (==_iff j s).0 same, h, waiting_put p x order h) refl
    | inr other ↦ rw (other, waiting_put p x order h) refl
  ]

  -- The stacks of the deferred calls run before the stack that is suspended for them.
  suspend_for_deferred-schedule :
      (fs : List ℕ) (p : Process V)
      → HasEntries k p.frame_at (deferred_of p.frame_at fs)
      → Distinct fs
      → Below p.next_stack p.stacks_order
      → s < p.next_stack
      → (q : Process V) × (suspend_for_deferred k s fs p ≡ (ok tt, q))
        × (schedule q
            ≡ reverse (singles (deferred_of p.frame_at fs))
              ++ (Stack.frames (p.stack_at s) ∷ waiting p))
        × (without_base (q.stack_at s)
            ≡ without_base (record (p.stack_at s) {
              current_state = suspended_by_deferred_during_stack_unwinding;
            }))
        × (q.frame_at ≡ cleared_all p.frame_at fs)
  unfolding suspend_for_deferred set_state modify
  suspend_for_deferred-schedule fs p es d b lt =
      let x : Stack V = record (p.stack_at s) {
        current_state = suspended_by_deferred_during_stack_unwinding;
      } in
      let p2 = push_order s (put_stack s x p) in
      let h = register_frames-Registers k s fs p2 es d (lt, b) lt in
      let r = (register_frames k s fs p2).1 in
      let q = switch_to_top r.stacks_order r in
      (
        q,
        bind_on_stack s _ _ p
            ∙ bind_modify (push_order s) _ (put_stack s x p)
            ∙ bind_ok (register_frames k s fs) _ p2 tt h.0
            ∙ refl,
        schedule-switch r (Stack.frames (p.stack_at s)) (waiting p) _ (
            h.1.waits
            ∙ ap (◌++◌ (reverse (singles (deferred_of p.frame_at fs))))
                (waiting_put p x (s ∷ p.stacks_order) refl)),
        ap (λ g. without_base (g s)) (switch_to_top_stacks r.stacks_order r)
            ∙ h.1.kept s lt
            ∙ ap without_base (put_stack_self p s x),
        switch_to_top_frames r.stacks_order r ∙ h.2,
      )

  waiting_jump : (entry : ℕ × ℕ) (p : Process V) → waiting (jump_to k s entry p) ≡ waiting p
  unfolding jump_to
  waiting_jump entry p =
      let p1 = put_stack s (record (p.stack_at s) { jump_base = some entry.1 }) p in
      waiting_put p1 (record (p1.stack_at s) { instruction_pointer = some entry.0 }) p.stacks_order
        refl
      ∙ waiting_put p (record (p.stack_at s) { jump_base = some entry.1 }) p.stacks_order refl

  in_flight_running :
      (x : Stack V) (e : Thrown V)
      → x.current_state ≡ running
      → x.thrown ≡ some e
      → in_flight x ≡ some e
  in_flight_running x e r th = ground arith

  caught_stack :
      (x : Stack V) (e : Thrown V)
      → x.current_state ≡ running
      → x.thrown ≡ some e
      → catch_thrown x ≡ record x { thrown = none; caught = some e }
  caught_stack x e r th = ground arith

  -- An exception that a try frame catches, thrown on a stack that runs and has a frame: the stack
  -- waits below the deferred calls of the frames above the one that entered the block, or above the
  -- bottom one if that frame is not on the stack, and the innermost frame's last call runs first. The
  -- exception is caught, and when the stack runs again its next instruction is the first of the
  -- handler. Of the try frames those before the first that catches are left, and the others stay.
  -- Distinct frames and known functions and blocks are assumed.
  pub unwind_caught :
      (p : Process V) (e : Thrown V) (t : ℕ) (name : String) (entry : ℕ × ℕ)
      (later us above : List ℕ) (b : ℕ) (below : List ℕ)
      → let x = p.stack_at s in
        let f = TryFrame.associated_frame (p.try_frame_at t) in
        let left = reverse above in
        Stack.current_state x ≡ running
        → Stack.thrown x ≡ some e
        → Stack.tryframes x ≡ later ++ (t ∷ us)
        → NoCatcher p.try_frame_at e.tag later
        → lookup (TryFrame.catchers (p.try_frame_at t)) e.tag ≡ some name
        → get_entry_point_of_block k name ≡ some entry
        → Stack.frames x ≡ above ++ (b ∷ below)
        → mem_new f above ≡ false
        → StopsAt f b below
        → HasEntries k p.frame_at (deferred_of p.frame_at left)
        → Distinct left
        → Below p.next_stack p.stacks_order
        → s < p.next_stack
        → (q : Process V) × (unwind k s p ≡ (ok tt, q))
          × (schedule q
              ≡ reverse (singles (deferred_of p.frame_at left)) ++ (Stack.frames x ∷ waiting p))
          × (without_base (q.stack_at s) ≡ record x {
            current_state = suspended_by_deferred_during_stack_unwinding;
            jump_base = none;
            instruction_pointer = some entry.0;
            thrown = none;
            caught = some e;
            tryframes = t ∷ us;
          })
          × (q.frame_at ≡ cleared_all p.frame_at left)
  unfolding jump_to
  unwind_caught p e t name entry later us above b below r th tf nc lk ep split out stop es d order
        lt =
      let x = p.stack_at s in
      let f = TryFrame.associated_frame (p.try_frame_at t) in
      let p1 = put_stack s (catch_thrown x) p in
      let p3 = jump_to k s entry p1 in
      let at_s : p3.stack_at s ≡ record x {
        jump_base = some entry.1;
        instruction_pointer = some entry.0;
        thrown = none;
        caught = some e;
      } =
        jump_to_stack k s entry p1
        ∙ ap {A = Stack V}
            (λ z. record z { jump_base = some entry.1; instruction_pointer = some entry.0 })
            (put_stack_self p s (catch_thrown x) ∙ caught_stack x e r th) in
      let left = reverse above in
      let h = suspend_for_deferred-schedule left p3 es d order lt in
      let q1 = h.0 in
      let fc =
        ap (find_catcher p.try_frame_at e.tag) tf
        ∙ find_catcher-append p.try_frame_at e.tag name t us lk later nc in
      let from = try_frames_from-append p.try_frame_at e.tag name t us lk later nc in
      let stk =
        h.3
        ∙ ap {A = Stack V}
            (λ z.
              without_base
                (record z { current_state = suspended_by_deferred_during_stack_unwinding }))
            at_s in
      let q = put_stack s (record (q1.stack_at s) { tryframes = t ∷ us }) q1 in
      (
        q,
        unwind_caught_run k s p e t name entry (in_flight_running x e r th) fc lk ep
            ∙ bind_run_ok (unwind_call_stack_to k s f) _ p3 q1 tt (
                unwind_call_stack_to_first p3 f above b below (ap Stack.current_state at_s ∙ r)
                  (ap Stack.frames at_s ∙ split) out stop
                ∙ h.1)
            ∙ unwind_try_stack_to_run k s q1 t (t ∷ us) (
                ap (try_frames_from t) (ap Stack.tryframes stk) ∙ ap (try_frames_from t) tf ∙ from),
        waiting_put q1 (record (q1.stack_at s) { tryframes = t ∷ us }) (q1.stack ∷ q1.stacks_order)
              refl
            ∙ h.2
            ∙ ap₂ (λ a w. reverse (singles (deferred_of p.frame_at left)) ++ (a ∷ w))
                (ap Stack.frames at_s)
                (waiting_jump entry p1
                  ∙ waiting_put p (catch_thrown x) p.stacks_order
                      (ap Stack.frames (caught_stack x e r th))),
        ap without_base (put_stack_self q1 s (record (q1.stack_at s) { tryframes = t ∷ us }))
            ∙ ap {A = Stack V} (λ z. record z { tryframes = t ∷ us }) stk,
        h.4,
      )
