-- ===== src/Process/Prepared.antt =====
-- The frame that a stack prepares for a call, and its push, in src/process/stack.cpp, and the
-- constructor of frames in src/kernel/frame.cpp.
use wudoovm.Common.{ℕ, suc, Option, none, some, [], ◌∷◌, length, ltb}
use wudoovm.Kernel.RegisterSet
use wudoovm.Kernel.RegisterSet.{RegisterSet}
use wudoovm.Process.State.{Frame, text, number, update}
use wudoovm.Process.Action.{
  Action, described, thrown_text, undefined, pure, fail, throw_if, when, found, on_stack, ◌>>=◌,
  ◌>>◌,
}
use wudoovm.Process.Frames.{max_stack_size, is_set, mem_new, stack_of, frame_of, emplace_back}

module _ {V : Type 0} where
  -- A frame with no return address and an empty set of arguments.
  unfoldable pub new_frame : ℕ → Frame V
  new_frame n = record {
    return_address = none;
    arguments = RegisterSet.of_size n;
    local_register_set = none;
    return_register = none;
    deferred_calls = [];
    function_name = "";
  }

  abbrev pub allocate_frame : ℕ → Action V ℕ
  allocate_frame n p = pure p.next_frame (record p {
    frame_at = update p.frame_at p.next_frame (new_frame n);
    next_frame = suc p.next_frame;
  })

  unfoldable pub prepare_frame : ℕ → ℕ → Action V ℕ
  unfolding new_frame
  prepare_frame s arguments_size = do
    x ← stack_of s
    throw_if (is_set x.frame_new)
        (thrown_text (text "requested new frame while last one is unused" ∷ []))
    f ← allocate_frame arguments_size
    on_stack s (λ y. record y { frame_new = some f })
    pure f

  abbrev pub take_frame_new : ℕ → Action V ℕ
  take_frame_new s = do
    x ← stack_of s
    f ← found undefined x.frame_new
    on_stack s (λ y. record y { frame_new = none })
    pure f

  abbrev pub too_deep : Option ℕ → Action V (Unit {0})
  too_deep frame_new = do
    f ← found undefined frame_new
    y ← frame_of f
    fail (
        described (
          text "stack size ("
          ∷ number max_stack_size
          ∷ text ") exceeded with call to '"
          ∷ text y.function_name
          ∷ text "'"
          ∷ []))

  abbrev pub pushed_twice : Option ℕ → Action V (Unit {0})
  pushed_twice frame_new = do
    f ← found undefined frame_new
    y ← frame_of f
    fail (
        thrown_text (
          text "stack corruption: frame "
          ∷ number f
          ∷ text " for function "
          ∷ text y.function_name
          ∷ text "/"
          ∷ number y.arguments.registerset_size
          ∷ text " pushed more than once"
          ∷ []))

  unfoldable pub push_prepared_frame : ℕ → Action V (Unit {0})
  unfolding emplace_back
  push_prepared_frame s = do
    x ← stack_of s
    when (ltb max_stack_size (length x.frames)) (too_deep x.frame_new)
    when (mem_new x.frame_new x.frames) (pushed_twice x.frame_new)
    f ← take_frame_new s
    emplace_back s f
