-- ===== src/Process/Life.antt =====
-- What becomes of a process: the constructor, `start` and the small methods of src/process.cpp, and
-- the steps that the scheduler and the calls of foreign functions take with it.
use wudoovm.Common.{ℕ, ◌≡◌, false, not, Option, none, some, List, [], ◌∷◌}
use wudoovm.Kernel.RegisterSet
use wudoovm.Process.Code.{Kernel, is_native_function}
use wudoovm.Process.State.{Process, Frame, Stack, Thrown, text, update}
use wudoovm.Process.Action.{
  Action, described, undefined, pure, gets, throw_if, found, current, on_current, ◌>>=◌, ◌>>◌,
}
use wudoovm.Process.Frames.{frame_of, new_stack, adjust_jump_base_for}
use wudoovm.Process.Prepared.{new_frame}
use wudoovm.Process.Calls.{this_stack}
use wudoovm.Process.Blocks.{new_try_frame}
use wudoovm.Process.Tick.{Instruction, Values, dispatch, tick, raise}

-- `frames.at(0)`, which is the last in a list that begins with the back.
abbrev pub bottom : List ℕ → Option ℕ
bottom [] = none
bottom (f ∷ []) = some f
bottom (f ∷ g ∷ fs) = bottom (g ∷ fs)

module _ {V : Type 0} where
  -- `Process::Process`: the frame is on the only stack.
  unfoldable pub create : Frame V → Process V
  unfolding new_frame new_stack
  create frm = record {
    cells = [];
    frame_at = update (λ f. new_frame 0) 0 frm;
    next_frame = 1;
    try_frame_at = λ t. new_try_frame;
    next_try_frame = 0;
    stack_at =
        update (λ s. new_stack "") 0 (record (new_stack frm.function_name) { frames = 0 ∷ [] });
    next_stack = 1;
    stack = 0;
    stacks_order = [];
    global_register_set = RegisterSet.of_size 255;
    static_registers = [];
    is_suspended = false;
    finished = false;
  }

  unfoldable pub start : Kernel → Action V (Option ℕ)
  unfolding adjust_jump_base_for
  start k = do
    s ← this_stack
    x ← gets current
    f ← found undefined (bottom (Stack.frames x))
    y ← frame_of f
    throw_if (not (is_native_function k y.function_name))
        (described (text "process from undefined function: " ∷ text y.function_name ∷ []))
    entry_point ← adjust_jump_base_for k s y.function_name
    on_current (λ z. record z { instruction_pointer = entry_point })
    pure entry_point

  unfoldable pub wakeup : Process V → Process V
  wakeup p = record p { is_suspended = false }

  -- `code` gives the instruction at an address, and the address behind it.
  unfoldable pub run_code : Values V → Kernel → (ℕ → Instruction V × ℕ) → ℕ → Action V (Option ℕ)
  run_code values k code here = dispatch values k (code here).0 here (code here).1

  -- The process starts, ticks, or is woken or handed an exception from outside.
  pub data Step (values : Values V) (k : Kernel) (code : ℕ → Instruction V × ℕ) (p : Process V)
      (q : Process V) : Type 0 where
    starts : q ≡ (start k p).1 → Step values k code p q
    ticks : q ≡ (tick k (run_code values k code) p).1 → Step values k code p q
    wakes : q ≡ wakeup p → Step values k code p q
    raises : (e : Thrown V) → q ≡ (raise e p).1 → Step values k code p q

  pub data Reach (values : Values V) (k : Kernel) (code : ℕ → Instruction V × ℕ) (p : Process V)
      : Process V → Type 0 where
    here : Reach values k code p p
    next :
        {q r : Process V}
        → Reach values k code p q
        → Step values k code q r
        → Reach values k code p r
