-- ===== src/Examples/Registers.antt =====
-- The register sets of src/kernel/registerset.cpp: three registers with a value, none, and a
-- reference to the first of two cells.
use wudoovm.Common.{ℕ, ◌≡◌, refl, true, none, some, [], ◌∷◌, ◌==◌, if◌then◌else◌, arith}
use wudoovm.Common.Outcome.{ok, ◌>>=◌}
use wudoovm.Kernel.Value.{Cells, plain, reference, rebind}
use wudoovm.Kernel.Register
use wudoovm.Kernel.Register.{register}
use wudoovm.Kernel.RegisterSet
use wudoovm.Kernel.RegisterSet.{RegisterSet, vacant}
use wudoovm.Kernel.Bounds.{IsWellFormed}
use wudoovm.Kernel.Moves.{content, move-content}
use wudoovm.Kernel.Masks.{is_flagged-flag}

abbrev cells : Cells ℕ
cells = some (plain 40) ∷ none ∷ []

abbrev three : RegisterSet ℕ
three = record {
  registerset_size = 3;
  registers = register (some (plain 7)) 1 ∷ register none 0 ∷ register (some (reference 0)) 2 ∷ [];
}

move-content_example :
    (s' : RegisterSet ℕ) × (RegisterSet.move cells three 0 2 ≡ ok (some (plain 7) ∷ none ∷ [], s'))
    × IsWellFormed s'
    × ((j : ℕ)
        → content s' j ≡ (
            if j == 2
            then register (some (reference 0)) 2
            else if j == 0
            then vacant
            else content three j))
unfolding rebind
move-content_example = move-content cells three 0 2 refl (omega arith) (omega arith) (omega arith)

is_flagged-flag_example :
    (RegisterSet.flag three 0 2 >>= λ s'. RegisterSet.is_flagged s' 0 2) ≡ ok true
is_flagged-flag_example = is_flagged-flag three 0 2 (plain 7) refl (omega arith) refl (omega arith)

-- A new set of three registers after a `put`.
abbrev filled : RegisterSet ℕ
filled = record {
  registerset_size = 3;
  registers = register (some (plain 7)) 0 ∷ vacant ∷ vacant ∷ [];
}
