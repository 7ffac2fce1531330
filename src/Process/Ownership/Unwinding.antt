-- ===== src/Process/Ownership/Unwinding.antt =====
-- Unwinding in src/process/stack.cpp keeps the invariant of the frames.
use Prim.Native.String.{String}
use mathlib.Core.List.{reverse}
use wudoovm.Common.{
  ℕ, zero, suc, ◌≡◌, refl, Bool, true, false, Option, none, some, List, [], ◌∷◌, if◌then◌else◌,
}
use wudoovm.Process.Code.{Kernel}
use wudoovm.Process.State.{Process, Stack}
use wudoovm.Process.Action.{modify}
use wudoovm.Process.Unwinding.{
  is_running, switch_to_top, register_frames, pop_frames, suspend_for_deferred, leave_frames,
  unwind_call_stack_to, unwind_try_stack_to, adjust_instruction_pointer, unwind_to,
  find_catch_frame, unwind_uncaught, unwind_with, unwind,
}
use wudoovm.Process.Ownership.{
  OwnsAt, Keeps, Any, bind-Keeps, pure-Keeps, found-Keeps, throw_if-Keeps, modify-Keeps,
  stack_of-Keeps, ask-Keeps, same_frames-Keeps,
}
use wudoovm.Process.Ownership.Stacks.{
  set_state-Keeps, adjust_jump_base_for_block-Keeps, register_deferred_calls_from-Keeps,
  push_order-Owns, pop-Keeps,
}

module _ {V : Type 0} (n : ℕ) where
  pub switch_to_top-Owns :
      (order : List ℕ) (p : Process V) → OwnsAt n p → OwnsAt n (switch_to_top order p)
  switch_to_top-Owns [] p v = v
  switch_to_top-Owns (s ∷ order) p v = record {
    counted = v.counted;
    deferred = v.deferred;
    owned = v.owned;
  }

  register_frames-Keeps :
      (k : Kernel) (s : ℕ) (fs : List ℕ) → Keeps {V = V} n Any (register_frames k s fs)
  unfolding register_frames
  register_frames-Keeps k s [] = pure-Keeps n Any _ tt
  register_frames-Keeps k s (f ∷ fs) =
      bind-Keeps n (register_deferred_calls_from-Keeps n k s f) λ u _. register_frames-Keeps k s fs

  pop_frames-Keeps : (s m : ℕ) → Keeps {V = V} n Any (pop_frames s m)
  unfolding pop_frames
  pop_frames-Keeps s zero = pure-Keeps n Any _ tt
  pop_frames-Keeps s (suc m) = bind-Keeps n (pop-Keeps n s) λ f _. pop_frames-Keeps s m

  switch-Keeps : Keeps {V = V} n Any (modify (λ p. switch_to_top p.stacks_order p))
  switch-Keeps = modify-Keeps n _ (λ p v. switch_to_top-Owns p.stacks_order p v)

  suspend_for_deferred-Keeps :
      (k : Kernel) (s : ℕ) (fs : List ℕ) → Keeps {V = V} n Any (suspend_for_deferred k s fs)
  unfolding suspend_for_deferred
  suspend_for_deferred-Keeps k s fs = bind-Keeps n (set_state-Keeps n s _) λ u _.
      bind-Keeps n (modify-Keeps n _ (push_order-Owns n s))
        λ w _. bind-Keeps n (register_frames-Keeps k s fs) λ z _. switch-Keeps

  leave_frames-Keeps : (s m : ℕ) → Keeps {V = V} n Any (leave_frames s m)
  unfolding leave_frames
  leave_frames-Keeps s m = bind-Keeps n (stack_of-Keeps n s) λ x _.
      bind-Keeps n (throw_if-Keeps n _ _)
        λ u _. bind-Keeps n (set_state-Keeps n s _) λ w _. pop_frames-Keeps s m

  unwind_by-Keeps :
      (k : Kernel) (s : ℕ) (c : Bool) (fs : List ℕ) (m : ℕ)
      → Keeps {V = V} n Any (if c then suspend_for_deferred k s fs else leave_frames s m)
  unwind_by-Keeps k s true fs m = suspend_for_deferred-Keeps k s fs
  unwind_by-Keeps k s false fs m = leave_frames-Keeps s m

  unwind_call_stack_to-Keeps :
      (k : Kernel) (s : ℕ) (f : Option ℕ) → Keeps {V = V} n Any (unwind_call_stack_to k s f)
  unfolding unwind_call_stack_to
  unwind_call_stack_to-Keeps k s f = bind-Keeps n (stack_of-Keeps n s) λ x _.
      bind-Keeps n (found-Keeps n Any _ _ (λ a e. tt))
        λ d _. unwind_by-Keeps k s (is_running x.current_state) _ d

  unwind_try_stack_to-Keeps : (s t : ℕ) → Keeps {V = V} n Any (unwind_try_stack_to s t)
  unfolding unwind_try_stack_to
  unwind_try_stack_to-Keeps s t = bind-Keeps n (stack_of-Keeps n s) λ x _.
      bind-Keeps n (found-Keeps n Any _ _ (λ a e. tt))
        λ ts _. same_frames-Keeps n s _ (λ y. refl) (λ y. refl)

  adjust_instruction_pointer-Keeps :
      (k : Kernel) (s t : ℕ) (type : String)
      → Keeps {V = V} n Any (adjust_instruction_pointer k s t type)
  unfolding adjust_instruction_pointer
  adjust_instruction_pointer-Keeps k s t type = bind-Keeps n (ask-Keeps n _) λ x _.
      bind-Keeps n (found-Keeps n Any _ _ (λ a e. tt)) λ name _.
        bind-Keeps n (adjust_jump_base_for_block-Keeps n k s name)
          λ e _. same_frames-Keeps n s _ (λ y. refl) (λ y. refl)

  unwind_to-Keeps :
      (k : Kernel) (s t : ℕ) (type : String) → Keeps {V = V} n Any (unwind_to k s t type)
  unfolding unwind_to
  unwind_to-Keeps k s t type = bind-Keeps n (adjust_instruction_pointer-Keeps k s t type) λ u _.
      bind-Keeps n (ask-Keeps n _)
        λ x _. bind-Keeps n (unwind_call_stack_to-Keeps k s _) λ w _. unwind_try_stack_to-Keeps s t

  find_catch_frame-Keeps : (s : ℕ) → Keeps {V = V} n Any (find_catch_frame s)
  unfolding find_catch_frame
  find_catch_frame-Keeps s =
      bind-Keeps n (stack_of-Keeps n s)
        λ x _. bind-Keeps n (found-Keeps n Any _ _ (λ a e. tt)) λ ex _. ask-Keeps n _

  catch_frames :
      (c : Bool) (x y : Stack V)
      → y.frames ≡ x.frames
      → Stack.frames (if c then y else x) ≡ x.frames
  catch_frames true x y e = e
  catch_frames false x y e = refl

  catch_frame_new :
      (c : Bool) (x y : Stack V)
      → y.frame_new ≡ x.frame_new
      → Stack.frame_new (if c then y else x) ≡ x.frame_new
  catch_frame_new true x y e = e
  catch_frame_new false x y e = refl

  unwind_with-Keeps :
      (k : Kernel) (s : ℕ) (t : Option ℕ) (type : String)
      → Keeps {V = V} n Any (unwind_with k s t type)
  unfolding unwind_with unwind_uncaught
  unwind_with-Keeps k s none type = bind-Keeps n (modify-Keeps n _ (push_order-Owns n s)) λ u _.
      bind-Keeps n (stack_of-Keeps n s)
        λ x _. bind-Keeps n (register_frames-Keeps k s (reverse x.frames)) λ w _. switch-Keeps
  unwind_with-Keeps k s (some t) type =
      bind-Keeps n
        (same_frames-Keeps n s _ (λ x. catch_frames (is_running x.current_state) x _ refl)
          (λ x. catch_frame_new (is_running x.current_state) x _ refl))
        λ u _. unwind_to-Keeps k s t type

  pub unwind-Keeps : (k : Kernel) (s : ℕ) → Keeps {V = V} n Any (unwind k s)
  unfolding unwind
  unwind-Keeps k s = bind-Keeps n (find_catch_frame-Keeps s) λ r _. unwind_with-Keeps k s r.0 r.1
