-- ===== src/Process/Calls.antt =====
-- Calls and returns: src/process/instr/calls.cpp, and what of src/process.cpp they use. `addr` is
-- the address behind the operands, which stand here decoded; for `opreturn` it is the
-- instruction's own. Calls of function values, which may be closures, are not modelled.
use Prim.Native.String.{String}
use wudoovm.Common.{
  ℕ, ◌-◌, Bool, true, false, not, ◌||◌, Option, none, some, [], ◌∷◌, ◌++◌, if◌then◌else◌,
}
use wudoovm.Kernel.Value.{Pointer}
use wudoovm.Kernel.RegisterSet
use wudoovm.Kernel.RegisterSet.{RegisterSet}
use wudoovm.Process.Code.{Kernel, is_native_function, is_foreign_function}
use wudoovm.Process.State.{State, running, suspended_by_deferred_on_frame_pop, Place, text}
use wudoovm.Process.Action.{
  Action, described, pure, gets, modify, throw_if, when, current, on_current, put_frame, ◌>>=◌,
  ◌>>◌,
}
use wudoovm.Process.Frames.{
  frame_of, back, is_nil, is_set, set_state, set_return_value, register_deferred_calls, pop,
  adjust_jump_base_for, clear,
}
use wudoovm.Process.Prepared.{prepare_frame, push_prepared_frame}
use wudoovm.Process.Unwinding.{is_running, switch_to_top}
use wudoovm.Process.Places.{back_frame, new_frame_of_current, assign_place}
use wudoovm.Process.Parameters.{set_arguments}

abbrev pub is_on_frame_pop : State → Bool
is_on_frame_pop suspended_by_deferred_on_frame_pop = true
is_on_frame_pop running = false
is_on_frame_pop State.uninitialised = false
is_on_frame_pop State.suspended_by_deferred_during_stack_unwinding = false
is_on_frame_pop State.halted = false

module _ {V : Type 0} where
  abbrev pub this_stack : Action V ℕ
  this_stack = gets (λ p. p.stack)

  unfoldable pub opframe : ℕ → ℕ → Action V (Option ℕ)
  opframe arguments addr = do s ← this_stack; _ ← prepare_frame s arguments; pure (some addr)

  unfoldable pub opallocate_registers : ℕ → ℕ → Action V (Option ℕ)
  opallocate_registers no_of_registers addr = do
    f ← back_frame
    modify (λ p.
        put_frame f
          (record (p.frame_at f) {
            local_register_set = some (RegisterSet.of_size no_of_registers);
          })
          p)
    pure (some addr)

  abbrev pub require_frame : Action V (Unit {0})
  require_frame = do
    x ← gets current
    throw_if (not (is_set x.frame_new)) (
        described (
          text
            "function call without a frame: use `frame 0' in source code if the function takes no parameters"
          ∷ []))

  -- The fields of the new frame that a call fills in.
  abbrev pub fill_frame : String → Option ℕ → Option Place → Action V (Unit {0})
  fill_frame call_name return_address return_register = do
    f ← new_frame_of_current
    modify (λ p.
        put_frame f
          (record (p.frame_at f) {
            function_name = call_name;
            return_address = return_address;
            return_register = return_register;
          })
          p)

  -- `Process::push_frame`, which repeats `Stack::push_prepared_frame`.
  unfoldable pub push_frame : Action V (Unit {0})
  unfolding push_prepared_frame
  push_frame = do s ← this_stack; push_prepared_frame s

  unfoldable pub call_native : Kernel → Option ℕ → String → Option Place → Action V (Option ℕ)
  unfolding push_frame adjust_jump_base_for
  call_native k return_address call_name return_register = do
    s ← this_stack
    call_address ← adjust_jump_base_for k s call_name
    require_frame
    fill_frame call_name return_address return_register
    push_frame
    pure call_address

  -- The request goes to the scheduler, which takes the frame.
  unfoldable pub call_foreign : Option ℕ → String → Option Place → Action V (Option ℕ)
  call_foreign return_address call_name return_register = do
    require_frame
    fill_frame call_name return_address return_register
    modify (λ p. record p { is_suspended = true })
    on_current (λ x. record x { frame_new = none })
    pure return_address

  unfoldable pub call_by : Kernel → Bool → Option ℕ → String → Option Place → Action V (Option ℕ)
  unfolding call_native call_foreign
  call_by k true return_address call_name return_register =
      call_native k return_address call_name return_register
  call_by k false return_address call_name return_register =
      call_foreign return_address call_name return_register

  unfoldable pub opcall : Kernel → Option Place → String → ℕ → Action V (Option ℕ)
  unfolding call_by
  opcall k return_register call_name addr = do
    throw_if (not (is_native_function k call_name || is_foreign_function k call_name))
        (described (text "call to undefined function: " ∷ text call_name ∷ []))
    call_by k (is_native_function k call_name) (some addr) call_name return_register

  -- What `optailcall` and `opreturn` do first, on a stack that runs. The result says whether the
  -- process went on to another stack.
  abbrev pub suspend_on_frame_pop : Kernel → ℕ → Action V Bool
  suspend_on_frame_pop k s = do
    register_deferred_calls k s
    set_state s suspended_by_deferred_on_frame_pop
    order ← gets (λ p. p.stacks_order)
    modify (switch_to_top order)
    pure (not (is_nil order))

  abbrev pub require_on_frame_pop : ℕ → Action V (Unit {0})
  require_on_frame_pop s = do
    x ← gets (λ p. p.stack_at s)
    throw_if (not (is_on_frame_pop x.current_state))
        (described (text "stack left in an invalid state" ∷ []))

  abbrev pub tail_to : Kernel → ℕ → String → Action V (Option ℕ)
  tail_to k s call_name = do
    require_on_frame_pop s
    set_state s running
    throw_if (not (is_native_function k call_name || is_foreign_function k call_name))
        (described (text "tail call to undefined function: " ∷ text call_name ∷ []))
    throw_if (not (is_native_function k call_name))
        (described (text "tail call to non-native function: " ∷ text call_name ∷ []))
    b ← back s
    f ← new_frame_of_current
    x ← frame_of f
    set_arguments b x.arguments
    on_current (λ y. record y { frame_new = none })
    adjust_jump_base_for k s call_name

  -- Go to another stack at `addr`, or go on.
  abbrev pub unless_left : Bool → ℕ → Action V (Option ℕ) → Action V (Option ℕ)
  unless_left left addr rest = if left then pure (some addr) else rest

  unfoldable pub optailcall : Kernel → String → ℕ → Action V (Option ℕ)
  optailcall k call_name addr = do
    s ← this_stack
    x ← gets current
    left ← if is_running x.current_state then suspend_on_frame_pop k s else pure false
    unless_left left (addr - 1) (tail_to k s call_name)

  unfoldable pub push_deferred : String → Action V (Unit {0})
  push_deferred call_name = do
    require_frame
    fill_frame call_name none none
    f ← new_frame_of_current
    on_current (λ x. record x { frame_new = none })
    b ← back_frame
    modify (λ p.
        put_frame b
          (record (p.frame_at b) { deferred_calls = (p.frame_at b).deferred_calls ++ f ∷ [] }) p)

  unfoldable pub opdefer : Kernel → String → ℕ → Action V (Option ℕ)
  unfolding push_deferred
  opdefer k call_name addr = do
    throw_if (not (is_native_function k call_name || is_foreign_function k call_name))
        (described (text "defer of undefined function: " ∷ text call_name ∷ []))
    push_deferred call_name
    pure (some addr)

  -- The value that a return hands over, which leaves the stack.
  abbrev pub take_return_value : ℕ → Option Place → Action V (Pointer V)
  take_return_value s none = pure none
  take_return_value s (some r) = do
    x ← gets (λ p. p.stack_at s)
    on_current (λ y. record y { return_value = none })
    pure x.return_value

  abbrev pub place_return_value : Option Place → Pointer V → Bool → Action V (Unit {0})
  place_return_value (some r) (some v) true = assign_place r (some v)
  place_return_value (some r) (some v) false = pure tt
  place_return_value (some r) none b = pure tt
  place_return_value none v b = pure tt

  abbrev pub resume_caller : Kernel → ℕ → Action V (Unit {0})
  resume_caller k s = do
    f ← back s
    x ← frame_of f
    _ ← adjust_jump_base_for k s x.function_name
    pure tt

  abbrev pub return_now : Kernel → ℕ → Action V (Option ℕ)
  return_now k s = do
    require_on_frame_pop s
    f ← back s
    x ← frame_of f
    returned ← take_return_value s x.return_register
    set_state s running
    _ ← pop s
    y ← gets (λ p. p.stack_at s)
    place_return_value x.return_register returned (not (is_nil y.frames))
    when (not (is_nil y.frames)) (resume_caller k s)
    pure x.return_address

  abbrev pub begin_return : Kernel → ℕ → Action V Bool
  begin_return k s = do set_return_value s; suspend_on_frame_pop k s

  unfoldable pub opreturn : Kernel → ℕ → Action V (Option ℕ)
  opreturn k addr = do
    s ← this_stack
    x ← gets current
    throw_if (is_nil x.frames) (described (text "no frame on stack: no call to return from" ∷ []))
    left ← if is_running x.current_state then begin_return k s else pure false
    unless_left left addr (return_now k s)

  -- `Process::become` and `start`.
  unfoldable pub become : Kernel → String → ℕ → Action V (Option ℕ)
  unfolding push_frame adjust_jump_base_for
  become k function_name frame_to_use = do
    s ← this_stack
    throw_if (not (is_native_function k function_name))
        (described (text "process from undefined function: " ∷ text function_name ∷ []))
    clear s
    on_current (λ x. record x { thrown = none; caught = none })
    modify (λ p. record p { finished = false })
    modify (λ p.
        put_frame frame_to_use (record (p.frame_at frame_to_use) { function_name = function_name })
          p)
    on_current (λ x. record x { frame_new = some frame_to_use })
    push_frame
    entry_point ← adjust_jump_base_for k s function_name
    on_current (λ x. record x { instruction_pointer = entry_point })
    pure entry_point
