-- ===== src/Kernel/Bounds.antt =====
-- The size of a `Register_set` of src/kernel/registerset.cpp.
use wudoovm.Common.{◌≡◌, length}
use wudoovm.Kernel.RegisterSet.{RegisterSet}

module _ {V : Type 0} where
  -- The vector has as many registers as the set says.
  abbrev pub IsWellFormed : RegisterSet V → Type 0
  IsWellFormed s = length s.registers ≡ s.registerset_size
