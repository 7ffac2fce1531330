-- ===== src/Codec/Operands.antt =====
-- The operand types of include/viua/bytecode/operand_types.h and include/viua/bytecode/codec.h.
use wudoovm.Common.{ℕ, ◌==◌, if◌then◌else◌}

-- `Register_set`, with the values that `static_cast` makes and no enumerator names.
pub data RegisterSet : Type 0 where
  global : RegisterSet
  local : RegisterSet
  static : RegisterSet
  arguments : RegisterSet
  parameters : RegisterSet
  closure_local : RegisterSet
  other : ℕ → RegisterSet

abbrev pub set_from_byte : ℕ → RegisterSet
set_from_byte n =
    if n == 0
    then global
    else if n == 1
    then local
    else if n == 2
    then static
    else if n == 3
    then arguments
    else if n == 4
    then parameters
    else if n == 5
    then closure_local
    else other n

abbrev pub set_to_byte : RegisterSet → ℕ
set_to_byte global = 0
set_to_byte local = 1
set_to_byte static = 2
set_to_byte arguments = 3
set_to_byte parameters = 4
set_to_byte closure_local = 5
set_to_byte (other n) = n

pub data AccessSpecifier : Type 0 where
  direct : AccessSpecifier
  register_indirect : AccessSpecifier
  pointer_dereference : AccessSpecifier

pub record RegisterAccess : Type 0 where
  pub set : RegisterSet
  pub index : ℕ
  pub access : AccessSpecifier
