-- ===== src/Kernel/Whole.antt =====
-- The loops of `Register_set` in src/kernel/registerset.cpp over all registers: `drop` and
-- `copy`.
use wudoovm.Common.{
  ℕ, zero, suc, ◌+◌, ◌<◌, ◌≡◌, refl, ◌∙◌, none, some, replicate, length-set, get_or-set,
  length-replicate, get_or-replicate, get_or_beyond, get_or_ext, ltb, if◌then◌else◌, arith,
}
use wudoovm.Common.Outcome.{ok}
use wudoovm.Kernel.Value.{plain, reference, Value, Pointer}
use wudoovm.Kernel.Register
use wudoovm.Kernel.Register.{Register, register, is_null}
use wudoovm.Kernel.RegisterSet
use wudoovm.Kernel.RegisterSet.{RegisterSet, vacant, put_register, set_in}
use wudoovm.Kernel.Bounds.{IsWellFormed}
use wudoovm.Kernel.Moves.{content, in_range}

module _ {V : Type 0} where
  empty-in_range :
      (s : RegisterSet V) (i : ℕ)
      → IsWellFormed s
      → i < s.registerset_size
      → RegisterSet.empty s i ≡ ok (put_register s i vacant)
  unfolding RegisterSet.empty Register.release
  empty-in_range s i wf h = let (a, b) = in_range s i wf h in rw (a, b) refl

  -- The set after `drop` has emptied the registers from `i` to the end.
  drop_loop_result :
      (left i : ℕ) (s : RegisterSet V)
      → IsWellFormed s
      → i + left ≡ s.registerset_size
      → (s' : RegisterSet V) × (RegisterSet.drop_loop left i s ≡ ok s')
        × (s'.registerset_size ≡ s.registerset_size)
        × IsWellFormed s'
        × ((j : ℕ) → content s' j ≡ (if ltb j i then content s j else vacant))
  unfolding RegisterSet.drop_loop
  drop_loop_result zero i s wf e =
      (s, refl, refl, wf, λ j. ground (arith, wf, get_or_beyond s.registers j vacant))
  drop_loop_result (suc left) i s wf e =
      let s1 = put_register s i vacant in
      let width = length-set s.registers i vacant in
      let (s', run, size, wf', index) =
        drop_loop_result left (i + 1) s1 (width ∙ wf) (omega arith) in
      (
        s',
        rw (empty-in_range s i wf (omega arith)) run,
        size,
        wf',
        λ j. ground (arith, index j, get_or-set s.registers i vacant j vacant),
      )

  -- Dropping the contents of a well-formed set succeeds, and leaves what the constructor makes
  -- for the same size: registers with no value and no mask.
  pub drop-of_size :
      (s : RegisterSet V)
      → IsWellFormed s
      → RegisterSet.drop s ≡ ok (RegisterSet.of_size s.registerset_size)
  unfolding RegisterSet.drop RegisterSet.of_size
  drop-of_size s wf =
      let (s', run, size, wf', index) = drop_loop_result s.registerset_size 0 s wf (omega arith) in
      let same : s'.registers ≡ replicate s.registerset_size vacant =
        get_or_ext vacant s'.registers (replicate s.registerset_size vacant)
          (omega (arith, wf', size, length-replicate s.registerset_size (vacant {V = V})))
          (λ j h.
            ground (arith, index j, get_or-replicate s.registerset_size (vacant {V = V}) j)) in
      run ∙ λ k. ok (record { registerset_size = size k; registers = same k })

  -- What `copy` makes of a register: the mask of an empty register is not copied.
  abbrev pub copied_pointer : (V → V) → Pointer V → ℕ → Register V
  copied_pointer copy none m = vacant
  copied_pointer copy (some (plain v)) m = register (some (plain (copy v))) m
  copied_pointer copy (some (reference c)) m = register (some (reference c)) m

  abbrev pub copied : (V → V) → Register V → Register V
  copied copy r = copied_pointer copy r.value r.mask
