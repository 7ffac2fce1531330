-- ===== src/Arch/Access.antt =====
-- `Register_access` of new/include/viua/arch/arch.h and new/src/arch/arch.cpp.
use wudoovm.Common.{
  ℕ, ◌*◌, ◌/◌, ◌%◌, ◌^◌, bit_and, bit_or, Bool, true, false, not, ◌&&◌, ◌==◌, if◌then◌else◌,
}

-- `REGISTER_SET`, with the values that `static_cast` makes and no enumerator names.
pub data RegisterSet : Type 0 where
  void : RegisterSet
  local : RegisterSet
  argument : RegisterSet
  parameter : RegisterSet
  other : ℕ → RegisterSet

abbrev pub from_raw : ℕ → RegisterSet
from_raw n =
    if n == 0
    then void
    else if n == 1
    then local
    else if n == 2
    then argument
    else if n == 3
    then parameter
    else other n

abbrev pub to_raw : RegisterSet → ℕ
to_raw void = 0
to_raw local = 1
to_raw argument = 2
to_raw parameter = 3
to_raw (other n) = n

pub record RegisterAccess : Type 0 where
  pub set : RegisterSet
  pub direct : Bool
  pub index : ℕ

abbrev pub register_access : RegisterSet → Bool → ℕ → RegisterAccess
register_access s d i = record { set = s; direct = d; index = i }

abbrev pub bool_bit : Bool → ℕ
bool_bit b = if b then 1 else 0

-- `Register_access::decode`.
unfoldable pub decode : ℕ → RegisterAccess
decode raw =
    let set = from_raw (bit_and raw 0x0e00 / 2 ^ 9) in
    let direct = not (bit_and raw 0x0100 == 0) in
    let index = bit_and raw 0x00ff % 2 ^ 8 in register_access set direct index

-- `Register_access::encode`.
unfoldable pub encode : RegisterAccess → ℕ
encode a =
    let base = a.index in
    let mode = bool_bit a.direct in
    let rset = to_raw a.set % 2 ^ 16 in bit_or (bit_or base (mode * 2 ^ 8)) (rset * 2 ^ 9) % 2 ^ 16

unfoldable pub is_void : RegisterAccess → Bool
is_void a = to_raw a.set == to_raw void

unfoldable pub is_legal : RegisterAccess → Bool
unfolding is_void
is_legal a = if is_void a && not a.direct && not (a.index == 0) then false else true

unfoldable pub make_local : ℕ → Bool → RegisterAccess
make_local index direct = register_access local direct index

unfoldable pub make_argument : ℕ → Bool → RegisterAccess
make_argument index direct = register_access argument direct index

unfoldable pub make_parameter : ℕ → Bool → RegisterAccess
make_parameter index direct = register_access parameter direct index

unfoldable pub make_void : RegisterAccess
make_void = register_access void true 0
