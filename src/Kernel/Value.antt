-- ===== src/Kernel/Value.antt =====
-- Values as registers hold them. A `Reference` (src/types/reference.cpp) shares with its copies
-- a cell that points to the value proper; the cells are a store that operations pass on. The
-- counter of a reference and the destruction of objects are not modelled.
use wudoovm.Common.{ℕ, List, Option, set}

-- A value of another type is what the parameter `V` has.
pub data Value (V : Type 0) : Type 0 where
  plain : V → Value V
  reference : ℕ → Value V

-- `std::unique_ptr<Value>`, which may be null.
abbrev pub Pointer : Type 0 → Type 0
Pointer V = Option (Value V)

-- The pointers in the cells.
abbrev pub Cells : Type 0 → Type 0
Cells V = List (Pointer V)

-- `Reference::rebind`.
unfoldable pub rebind : {V : Type 0} → Cells V → ℕ → Pointer V → Cells V
rebind cells cell ptr = set cells cell ptr

-- The virtual `copy`, of which the values that are no reference bring their own.
unfoldable pub copy_value : {V : Type 0} → (V → V) → Value V → Value V
copy_value copy (plain v) = plain (copy v)
copy_value copy (reference c) = reference c
