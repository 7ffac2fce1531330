-- ===== src/Process/Tick.antt =====
-- One step of a process: `dispatch` of src/process/dispatch.cpp for the instructions of calls,
-- blocks, jumps and moves between registers, and `Process::tick` of src/process.cpp.
use Prim.Native.String.{String}
use wudoovm.Common.{
  ℕ, Bool, true, false, not, ◌||◌, ◌&&◌, Option, none, some, [], ◌==◌, if◌then◌else◌,
}
use wudoovm.Common.Int.{ℤ}
use wudoovm.Common.Outcome.{Outcome, ok, unfinished}
use wudoovm.Codec.Operands.{RegisterAccess}
use wudoovm.Kernel.Value.{Value, Pointer}
use wudoovm.Process.Code.{Kernel}
use wudoovm.Process.State.{
  Process, Stack, State, running, suspended_by_deferred_on_frame_pop, Thrown, uninitialised,
  suspended_by_deferred_during_stack_unwinding, halted, Place,
}
use wudoovm.Process.Action.{
  Action, Fault, exception, thrown_text, missing, undefined, pure, gets, modify, when, found,
  current, on_current, on_stack, ◌>>=◌, ◌>>◌,
}
use wudoovm.Process.Frames.{is_nil, is_set}
use wudoovm.Process.Unwinding.{unwind, is_running, is_unwinding}
use wudoovm.Process.Places.{fetch_register}
use wudoovm.Process.Calls
use wudoovm.Process.Calls.{this_stack}
use wudoovm.Process.Blocks
use wudoovm.Process.Registers

-- An instruction with its operands, as the codec decodes them. `none` is a void operand.
pub data Instruction (V : Type 0) : Type 0 where
  frame : ℕ → Instruction V
  allocate_registers : ℕ → Instruction V
  call : Option RegisterAccess → String → Instruction V
  tailcall : String → Instruction V
  defer : String → Instruction V
  ret : Instruction V
  try : Instruction V
  catch : String → String → Instruction V
  draw : Option RegisterAccess → Instruction V
  enter : String → Instruction V
  throw : RegisterAccess → Instruction V
  leave : Instruction V
  move : Option RegisterAccess → RegisterAccess → Instruction V
  swap : RegisterAccess → RegisterAccess → Instruction V
  delete : RegisterAccess → Instruction V
  isnull : RegisterAccess → RegisterAccess → Instruction V
  jump : ℕ → Instruction V
  halt : Instruction V
  nop : Instruction V

-- What the instructions ask of values: how they are read as integers, cast to exceptions and
-- back, and made of Booleans.
pub record Values (V : Type 0) : Type 0 where
  pub as_integer : Pointer V → ℤ
  pub as_exception : Value V → Option (Thrown V)
  pub type_of : Value V → String
  pub to_value : Thrown V → Value V
  pub boolean : Bool → V

module _ {V : Type 0} (values : Values V) (k : Kernel) where
  open values use {as_integer, as_exception, type_of, to_value, boolean}

  -- `fetch_register_or_void`.
  unfoldable pub fetch_register_or_void : Option RegisterAccess → Action V (Option Place)
  fetch_register_or_void none = pure none
  fetch_register_or_void (some reg) = do r ← fetch_register as_integer false reg; pure (some r)

  -- The address of the instruction, and the one behind it.
  unfoldable pub dispatch : Instruction V → ℕ → ℕ → Action V (Option ℕ)
  unfolding fetch_register_or_void
  dispatch (frame n) here addr = Calls.opframe n addr
  dispatch (allocate_registers n) here addr = Calls.opallocate_registers n addr
  dispatch (call reg name) here addr = do r ← fetch_register_or_void reg; Calls.opcall k r name addr
  dispatch (tailcall name) here addr = Calls.optailcall k name addr
  dispatch (defer name) here addr = Calls.opdefer k name addr
  dispatch ret here addr = Calls.opreturn k here
  dispatch try here addr = Blocks.optry addr
  dispatch (catch tag block) here addr = Blocks.opcatch k tag block addr
  dispatch (draw reg) here addr = do r ← fetch_register_or_void reg; Blocks.opdraw to_value r addr
  dispatch (enter block) here addr = Blocks.openter k block addr
  dispatch (throw reg) here addr = do
    r ← fetch_register as_integer false reg
    Blocks.opthrow as_exception type_of r
  dispatch leave here addr = Blocks.opleave k
  dispatch (move target source) here addr = do
    t ← fetch_register_or_void target
    r ← fetch_register as_integer false source
    Registers.opmove t r addr
  dispatch (swap target source) here addr = do
    t ← fetch_register as_integer false target
    r ← fetch_register as_integer false source
    Registers.opswap t r addr
  dispatch (delete target) here addr = do
    t ← fetch_register as_integer false target
    Registers.opdelete t addr
  dispatch (isnull target source) here addr = do
    t ← fetch_register as_integer false target
    r ← fetch_register as_integer false source
    Registers.opisnull boolean t r addr
  dispatch (jump offset) here addr = Registers.opjump offset here
  dispatch halt here addr = do
    on_current (λ x. record x { current_state = halted })
    pure (some here)
  dispatch nop here addr = pure (some addr)

-- `JOIN`, `RECEIVE`, `IO_WAIT` and `RETURN` may leave the instruction pointer as it is.
abbrev pub allowed_unchanged : ℕ → Bool
allowed_unchanged op = op == 117 || op == 119 || op == 143 || op == 145

abbrev pub same_address : Option ℕ → Option ℕ → Bool
same_address none none = true
same_address none (some b) = false
same_address (some a) none = false
same_address (some a) (some b) = a == b

abbrev pub allowed_at : Kernel → Option ℕ → Bool
allowed_at k none = false
allowed_at k (some a) = allowed_unchanged (Kernel.byte_at k a)

abbrev pub runs : State → Bool
runs running = true
runs suspended_by_deferred_on_frame_pop = true
runs uninitialised = false
runs suspended_by_deferred_during_stack_unwinding = false
runs halted = false

abbrev pub is_halted : State → Bool
is_halted halted = true
is_halted running = false
is_halted uninitialised = false
is_halted suspended_by_deferred_on_frame_pop = false
is_halted suspended_by_deferred_during_stack_unwinding = false

module _ {V : Type 0} where
  abbrev pub is_thrown : Option (Thrown V) → Bool
  is_thrown none = false
  is_thrown (some e) = true

  abbrev pub set_pointer : ℕ → Option ℕ → Action V (Unit {0})
  set_pointer s addr = on_stack s (λ x. record x { instruction_pointer = addr })

  -- `Process::raise`, without the throw point that it adds.
  unfoldable pub raise : Thrown V → Action V (Unit {0})
  raise e = on_current (λ x. record x { thrown = some e })

  -- The `catch` around `dispatch`: an exception is raised on the stack that is current then.
  unfoldable pub catch_with :
      ℕ → Outcome (Fault V) (Option ℕ) × Process V → Outcome (Fault V) (Unit {0}) × Process V
  unfolding raise
  catch_with s (ok addr, p) = set_pointer s addr p
  catch_with s (Outcome.throw (exception e), p) = raise e p
  catch_with s (Outcome.throw (thrown_text t), p) = (Outcome.throw (thrown_text t), p)
  catch_with s (Outcome.throw missing, p) = (Outcome.throw missing, p)
  catch_with s (Outcome.throw undefined, p) = (Outcome.throw undefined, p)
  catch_with s (unfinished, p) = (unfinished, p)

  abbrev pub unchanged : Thrown V
  unchanged = record { tag = "InstructionUnchanged"; description = []; value = none }

  -- `dispatch` executes the instruction at an address.
  module _ (k : Kernel) (dispatch : ℕ → Action V (Option ℕ)) where
    abbrev pub run_instruction : Action V (Unit {0})
    run_instruction p =
        when (runs (Stack.current_state (current p)))
          (λ q.
            catch_with p.stack
              ((found undefined (Stack.instruction_pointer (current p)) >>= dispatch) q))
          p

    -- Whether the instruction pointer stands where it must not.
    abbrev pub is_stuck : Option ℕ → Stack V → Bool
    is_stuck previous x =
        same_address x.instruction_pointer previous
        && is_running x.current_state
        && not (allowed_at k x.instruction_pointer)
        && not (is_thrown x.thrown)

    abbrev pub handle : Action V (Unit {0})
    handle = do
      x ← gets current
      s ← this_stack
      when (is_thrown x.thrown || is_unwinding x.current_state) (unwind k s)

    abbrev pub drop_frame : Stack V → Stack V
    drop_frame x =
        if is_thrown x.thrown && is_set x.frame_new then record x { frame_new = none } else x

    abbrev pub next_address : Stack V → Option ℕ
    next_address x = if is_thrown x.thrown then none else x.instruction_pointer

    abbrev pub go_on : Option ℕ → Action V (Option ℕ)
    go_on previous = do
      x ← gets current
      when (is_stuck previous x) (on_current (λ y. record y { thrown = some unchanged }))
      on_current drop_frame
      handle
      gets (λ p. next_address (current p))

    abbrev pub finish : Action V (Option ℕ)
    finish = do modify (λ p. record p { finished = true }); pure none

    abbrev pub after_instruction : Option ℕ → Process V → Action V (Option ℕ)
    after_instruction previous p =
        if is_halted (Stack.current_state (current p)) || is_nil (Stack.frames (current p))
        then finish
        else if p.is_suspended
        then pure (Stack.instruction_pointer (current p))
        else go_on previous

    unfoldable pub tick : Action V (Option ℕ)
    unfolding unwind
    tick = do
      x ← gets current
      run_instruction
      p ← gets (λ q. q)
      after_instruction x.instruction_pointer p
