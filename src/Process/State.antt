-- ===== src/Process/State.antt =====
-- The state of a process: include/viua/process.h, include/viua/kernel/frame.h and tryframe.h.
-- Frames, try frames and stacks are objects with an address, which pointers name; the counters
-- are the addresses that are free. Vectors of frames begin with their back, and a
-- `std::stack` begins with its top.
use Prim.Native.String.{String}
use wudoovm.Common.{ℕ, Bool, Option, List, ◌==◌, if◌then◌else◌}
use wudoovm.Kernel.Value.{Pointer, Cells}
use wudoovm.Kernel.RegisterSet.{RegisterSet}
use wudoovm.Process.Code.{Table}

-- What a `viua::kernel::Register*` points to.
pub data Place : Type 0 where
  local : ℕ → ℕ → Place
  argument : ℕ → ℕ → Place
  static : String → ℕ → Place
  global : ℕ → Place

-- A piece of the text that an exception describes itself by.
pub data Part : Type 0 where
  text : String → Part
  number : ℕ → Part
  -- at least eight hexadecimal digits
  hex : ℕ → Part

-- `viua::types::Exception`, without its throw points.
pub record Thrown (V : Type 0) : Type 0 where
  pub tag : String
  pub description : List Part
  pub value : Pointer V

pub record Frame (V : Type 0) : Type 0 where
  pub return_address : Option ℕ
  pub arguments : RegisterSet V
  pub local_register_set : Option (RegisterSet V)
  pub return_register : Option Place
  pub deferred_calls : List ℕ
  pub function_name : String

-- The block that each type is caught by.
pub record TryFrame : Type 0 where
  pub return_address : Option ℕ
  pub associated_frame : Option ℕ
  pub block_name : String
  pub catchers : Table String

pub data State : Type 0 where
  uninitialised : State
  running : State
  suspended_by_deferred_on_frame_pop : State
  suspended_by_deferred_during_stack_unwinding : State
  halted : State

pub record Stack (V : Type 0) : Type 0 where
  pub frames : List ℕ
  pub current_state : State
  pub entry_function : String
  pub jump_base : Option ℕ
  pub instruction_pointer : Option ℕ
  pub frame_new : Option ℕ
  pub tryframes : List ℕ
  pub try_frame_new : Option ℕ
  pub thrown : Option (Thrown V)
  pub caught : Option (Thrown V)
  pub return_value : Pointer V

pub record Process (V : Type 0) : Type 0 where
  pub cells : Cells V
  pub frame_at : ℕ → Frame V
  pub next_frame : ℕ
  pub try_frame_at : ℕ → TryFrame
  pub next_try_frame : ℕ
  pub stack_at : ℕ → Stack V
  pub next_stack : ℕ
  pub stack : ℕ
  pub stacks_order : List ℕ
  pub global_register_set : RegisterSet V
  pub static_registers : Table (RegisterSet V)
  pub is_suspended : Bool
  pub finished : Bool

-- A write to the object at an address.
abbrev pub update {ℓ} : {A : Type ℓ} → (ℕ → A) → ℕ → A → ℕ → A
update f k a j = if j == k then a else f j
