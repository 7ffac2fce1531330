-- ===== src/Kernel/Masks.antt =====
-- The masks of registers in src/kernel/registerset.cpp.
use wudoovm.Common.{
  ℕ, ◌<◌, ◌≡◌, ◌≢◌, refl, ap, ◌∙◌, true, false, not, some, length-set, get_or-set_self, set, ◌==◌,
  arith, bit_and, bit_or, bit_xor,
}
use wudoovm.Common.Words.{bit_and-bit_or, bit_and_self, zero-bit_xor}
use wudoovm.Common.Outcome.{ok, ◌>>=◌}
use wudoovm.Kernel.Value.{Value}
use wudoovm.Kernel.Register
use wudoovm.Kernel.Register.{Register, register}
use wudoovm.Kernel.RegisterSet
use wudoovm.Kernel.RegisterSet.{RegisterSet, Fallible, vacant, put_register}
use wudoovm.Kernel.Bounds.{IsWellFormed}
use wudoovm.Kernel.Moves.{content, in_range}

module _ {V : Type 0} where
  flag-in_range :
      (s : RegisterSet V) (i m : ℕ) (v : Value V)
      → IsWellFormed s
      → i < s.registerset_size
      → (content s i).value ≡ some v
      → RegisterSet.flag s i m
        ≡ ok (put_register s i (register (some v) (bit_or (content s i).mask m)))
  unfolding RegisterSet.flag Register.empty Register.flag
  flag-in_range s i m v wf h e = let (a, b) = in_range s i wf h in rw (a, b, e) refl

  unflag-in_range :
      (s : RegisterSet V) (i m : ℕ) (v : Value V)
      → IsWellFormed s
      → i < s.registerset_size
      → (content s i).value ≡ some v
      → RegisterSet.unflag s i m
        ≡ ok (put_register s i (register (some v) (bit_xor (content s i).mask m)))
  unfolding RegisterSet.unflag Register.empty Register.unflag
  unflag-in_range s i m v wf h e = let (a, b) = in_range s i wf h in rw (a, b, e) refl

  is_flagged-in_range :
      (s : RegisterSet V) (i m : ℕ)
      → IsWellFormed s
      → i < s.registerset_size
      → RegisterSet.is_flagged s i m ≡ ok (not (bit_and (content s i).mask m == 0))
  unfolding RegisterSet.is_flagged Register.is_flagged
  is_flagged-in_range s i m wf h = let (a, b) = in_range s i wf h in rw (a, b) refl

  abbrev flagged : RegisterSet V → ℕ → Value V → ℕ → RegisterSet V
  flagged s i v m = put_register s i (register (some v) m)

  flagged-content :
      (s : RegisterSet V) (i m : ℕ) (v : Value V)
      → IsWellFormed s
      → i < s.registerset_size
      → IsWellFormed (flagged s i v m) × (content (flagged s i v m) i ≡ register (some v) m)
  flagged-content s i m v wf h = (
    length-set s.registers i (register (some v) m) ∙ wf,
    get_or-set_self s.registers i (register (some v) m) vacant (omega (arith, wf)),
  )

  -- A register in range that holds a value is flagged, after `flag`, for the same filter, unless
  -- the filter is 0.
  pub is_flagged-flag :
      (s : RegisterSet V) (i m : ℕ) (v : Value V)
      → IsWellFormed s
      → i < s.registerset_size
      → (content s i).value ≡ some v
      → m ≢ 0
      → (RegisterSet.flag s i m >>= λ s'. RegisterSet.is_flagged s' i m) ≡ ok true
  is_flagged-flag s i m v wf h e ne =
      let mask = bit_or (content s i).mask m in
      let (wf', there) = flagged-content s i mask v wf h in
      let set : (bit_and mask m == 0) ≡ false =
        ground (arith, bit_and-bit_or (content s i).mask m) in
      rw
        (
          flag-in_range s i m v wf h e,
          is_flagged-in_range (flagged s i v mask) i m wf' h,
          there,
          set,
        )
        refl

  -- `unflag` sets flags that were not set: a register with no mask is flagged for `m` after it.
  is_flagged-unflag :
      (s : RegisterSet V) (i m : ℕ) (v : Value V)
      → IsWellFormed s
      → i < s.registerset_size
      → content s i ≡ register (some v) 0
      → m ≢ 0
      → (RegisterSet.unflag s i m >>= λ s'. RegisterSet.is_flagged s' i m) ≡ ok true
  is_flagged-unflag s i m v wf h e ne =
      let value = ap (λ (r : Register V). r.value) e in
      let mask = bit_xor (content s i).mask m in
      let (wf', there) = flagged-content s i mask v wf h in
      let new : mask ≡ m = ap (λ (r : Register V). bit_xor r.mask m) e ∙ zero-bit_xor m in
      let set : (bit_and mask m == 0) ≡ false =
        ground (arith, ap (λ t. bit_and t m) new ∙ bit_and_self m) in
      rw
        (
          unflag-in_range s i m v wf h value,
          is_flagged-in_range (flagged s i v mask) i m wf' h,
          there,
          set,
        )
        refl
