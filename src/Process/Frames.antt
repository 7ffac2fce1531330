-- ===== src/Process/Frames.antt =====
-- The operations of `viua::process::Stack` in src/process/stack.cpp but for unwinding. The stack
-- that a method is called on is its address `s`.
use Prim.Native.String.{String}
use wudoovm.Common.{
  ℕ, zero, suc, ◌+◌, Bool, true, false, not, ◌||◌, ◌&&◌, Option, none, some, List, [], ◌∷◌, length,
  ltb, ◌==◌, if◌then◌else◌,
}
use wudoovm.Kernel.Value.{Pointer}
use wudoovm.Kernel.Register.{is_null}
use wudoovm.Kernel.RegisterSet
use wudoovm.Kernel.RegisterSet.{RegisterSet}
use wudoovm.Process.Code.{Kernel, get_entry_point_of, get_entry_point_of_block}
use wudoovm.Process.State.{Process, Frame, Stack, State, Place, running, text, update}
use wudoovm.Process.Action.{
  Action, described, missing, undefined, pure, fail, gets, modify, throw_if, when, found, lift,
  on_stack, put_frame, ◌>>=◌, ◌>>◌,
}

abbrev pub max_stack_size : ℕ
max_stack_size = 8192

-- `MOVED` of include/viua/kernel/registerset.h.
abbrev pub moved : ℕ
moved = 2

abbrev pub mem : ℕ → List ℕ → Bool
mem a [] = false
mem a (x ∷ xs) = a == x || mem a xs

abbrev pub head? : List ℕ → Option ℕ
head? [] = none
head? (x ∷ xs) = some x

abbrev pub return_requested : Option Place → Bool
return_requested none = false
return_requested (some r) = true

abbrev pub is_nil : List ℕ → Bool
is_nil [] = true
is_nil (x ∷ xs) = false

abbrev pub is_set : Option ℕ → Bool
is_set none = false
is_set (some f) = true

abbrev pub mem_new : Option ℕ → List ℕ → Bool
mem_new none fs = false
mem_new (some f) fs = mem f fs

module _ {V : Type 0} where
  abbrev pub stack_of : ℕ → Action V (Stack V)
  stack_of s = gets (λ p. p.stack_at s)

  abbrev pub frame_of : ℕ → Action V (Frame V)
  frame_of f = gets (λ p. p.frame_at f)

  -- `frames.back()`.
  abbrev pub back : ℕ → Action V ℕ
  back s = do x ← stack_of s; found undefined (head? x.frames)

  abbrev pub set_frames : List ℕ → Stack V → Stack V
  set_frames fs x = record x { frames = fs }

  unfoldable pub new_stack : String → Stack V
  new_stack fn = record {
    frames = [];
    current_state = running;
    entry_function = fn;
    jump_base = none;
    instruction_pointer = none;
    frame_new = none;
    tryframes = [];
    try_frame_new = none;
    thrown = none;
    caught = none;
    return_value = none;
  }

  unfoldable pub set_state : ℕ → State → Action V (Unit {0})
  set_state s st = on_stack s (λ x. record x { current_state = st })

  abbrev pub set_return : Pointer V → Stack V → Stack V
  set_return v x = record x { return_value = v }

  -- `local_register_set->pop(0)` of a frame, which is written back.
  abbrev pub pop_result : ℕ → Action V (Pointer V)
  pop_result f = do
    x ← frame_of f
    locals ← found undefined x.local_register_set
    (locals', v) ← lift (RegisterSet.pop locals 0)
    modify (put_frame f (record x { local_register_set = some locals' }))
    pure v

  abbrev pub set_return_value_of : ℕ → ℕ → Action V (Unit {0})
  set_return_value_of s f = do
    x ← frame_of f
    locals ← found undefined x.local_register_set
    v ← lift (RegisterSet.at locals 0)
    throw_if (is_null v) (
        described
          (text "return value requested by frame but function did not set return register" ∷ []))
    v' ← pop_result f
    on_stack s (set_return v')

  unfoldable pub set_return_value : ℕ → Action V (Unit {0})
  set_return_value s = do
    f ← back s
    x ← frame_of f
    when (return_requested x.return_register) (set_return_value_of s f)

  unfoldable pub adjust_jump_base_for_block : Kernel → ℕ → String → Action V (Option ℕ)
  adjust_jump_base_for_block k s name = do
    (entry_point, base) ← found missing (get_entry_point_of_block k name)
    on_stack s (λ x. record x { jump_base = some base })
    pure (some entry_point)

  unfoldable pub adjust_jump_base_for : Kernel → ℕ → String → Action V (Option ℕ)
  adjust_jump_base_for k s name = do
    (entry_point, base) ← found missing (get_entry_point_of k name)
    on_stack s (λ x. record x { jump_base = some base })
    pure (some entry_point)

  -- `frames.emplace_back`.
  unfoldable pub emplace_back : ℕ → ℕ → Action V (Unit {0})
  emplace_back s f = on_stack s (λ x. set_frames (f ∷ x.frames) x)

  -- `std::make_unique<Stack>(...)`; the address is that of the new stack.
  abbrev pub allocate_stack : String → Action V ℕ
  allocate_stack fn p = pure p.next_stack (record p {
    stack_at = update p.stack_at p.next_stack (new_stack fn);
    next_stack = suc p.next_stack;
  })

  -- A new stack with a frame on it.
  unfoldable pub start_stack : String → ℕ → Action V ℕ
  unfolding new_stack emplace_back
  start_stack fn each = do d ← allocate_stack fn; emplace_back d each; pure d

  abbrev pub push_order : ℕ → Process V → Process V
  push_order s p = record p { stacks_order = s ∷ p.stacks_order }

  -- One round of the loop of `register_deferred_calls_from`.
  unfoldable pub register_deferred_call : Kernel → ℕ → ℕ → Action V (Unit {0})
  unfolding start_stack adjust_jump_base_for
  register_deferred_call k s each = do
    x ← frame_of each
    d ← start_stack x.function_name each
    entry_point ← adjust_jump_base_for k s x.function_name
    on_stack d (λ y. record y { instruction_pointer = entry_point })
    modify (push_order d)

  unfoldable pub register_each : Kernel → ℕ → List ℕ → Action V (Unit {0})
  unfolding register_deferred_call
  register_each k s [] = pure tt
  register_each k s (each ∷ rest) = do register_deferred_call k s each; register_each k s rest

  unfoldable pub register_deferred_calls_from : Kernel → ℕ → ℕ → Action V (Unit {0})
  unfolding register_each
  register_deferred_calls_from k s f = do
    x ← frame_of f
    register_each k s x.deferred_calls
    modify (λ p. put_frame f (record (p.frame_at f) { deferred_calls = [] }) p)

  unfoldable pub register_deferred_calls : Kernel → ℕ → Action V (Unit {0})
  unfolding register_deferred_calls_from
  register_deferred_calls k s = do
    x ← stack_of s
    modify (λ p. if ltb 1 (length x.frames) then push_order s p else p)
    f ← back s
    register_deferred_calls_from k s f

  -- The loop of `pop` over the arguments, with `left` rounds from index `i`.
  unfoldable pub check_arguments : RegisterSet V → ℕ → ℕ → Action V (Unit {0})
  check_arguments args zero i = pure tt
  check_arguments args (suc left) i = do
    v ← lift (RegisterSet.at args i)
    used ← lift (RegisterSet.is_flagged args i moved)
    throw_if (not (is_null v) && used) (described (text "unused pass-by-move parameter" ∷ []))
    check_arguments args left (i + 1)

  abbrev pub pop_back : ℕ → List ℕ → Action V ℕ
  pop_back s [] = fail undefined
  pop_back s (f ∷ fs) = do on_stack s (set_frames fs); pure f

  -- `std::move(frames.back()); frames.pop_back();`
  unfoldable pub take_back : ℕ → Action V ℕ
  take_back s = do x ← stack_of s; pop_back s x.frames

  -- What `pop` does on the last frame.
  abbrev pub keep_result : ℕ → ℕ → Action V (Unit {0})
  keep_result s f = do v ← pop_result f; on_stack s (set_return v)

  unfoldable pub pop : ℕ → Action V ℕ
  unfolding check_arguments take_back
  pop s = do
    f ← take_back s
    y ← frame_of f
    check_arguments y.arguments y.arguments.registerset_size 0
    x' ← stack_of s
    when (is_nil x'.frames) (keep_result s f)
    pure f

  unfoldable pub clear : ℕ → Action V (Unit {0})
  clear s = on_stack s (set_frames [])
