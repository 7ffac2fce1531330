-- ===== src/Bits/Saturating/Increment.antt =====
-- `signed_increment`, `signed_decrement` and `take_twos_complement` of namespace
-- `viua::arithmetic::saturating` in src/types/bits.cpp: the nearest value that is in range.
use native.Mathlib.Nat.{one-le-pow}
use wudoovm.Common.{
  ℕ, suc, ◌+◌, ◌-◌, ◌*◌, ◌^◌, ◌≡◌, ap, ◌∙◌, inl, inr, true, false, not, ◌&&◌, [], ◌∷◌, arith,
  length, replicate, length-append, length-replicate, Bool-cases,
}
use wudoovm.Common.Int.{pos, ◌+ℤ◌, one_part, eq_of_parts, +ℤ_parts}
use wudoovm.Bits.Vector.{BitVector, binary_is_negative}
use wudoovm.Bits.Value.{bit-le, value, value-append, value-replicate-true, value-replicate-false}
use wudoovm.Bits.Signed.{signed, Saturated, signed_cases, reading}
use wudoovm.Bits.Wrapping.{binary_increment}
use wudoovm.Bits.Wrapping.Increment.{length-increment, increment_carry}
use wudoovm.Bits.Saturating.{signed_make_max, signed_make_min, signed_increment}

-- The greatest and the least value of width m + 1.
pub make_max-signed :
    (m : ℕ)
    → (length (signed_make_max (suc m)) ≡ suc m) × (value (signed_make_max (suc m)) + 1 ≡ 2 ^ m)
unfolding signed_make_max
make_max-signed m =
    let k : suc m - 1 ≡ m = omega arith in
    rw k (
      omega (arith, length-append (replicate m true) (false ∷ []), length-replicate m true),
      omega (arith, value-append (replicate m true) (false ∷ []), value-replicate-true m),
    )

pub make_min-signed :
    (m : ℕ) → (length (signed_make_min (suc m)) ≡ suc m) × (value (signed_make_min (suc m)) ≡ 2 ^ m)
unfolding signed_make_min
make_min-signed m =
    let k : suc m - 1 ≡ m = omega arith in
    rw k (
      omega (arith, length-append (replicate m false) (true ∷ []), length-replicate m false),
      omega (
        arith,
        value-append (replicate m false) (true ∷ []),
        value-replicate-false m,
        ap (λ k. 2 ^ k * 1) (length-replicate m false),
      ),
    )

-- Incrementing a vector of width m + 1 is exact, or stops at the greatest value.
pub signed_increment-Saturated :
    (m : ℕ) (v : BitVector)
    → length v ≡ suc m
    → Saturated m (signed v +ℤ pos 1) (signed_increment v)
unfolding signed_increment
signed_increment-Saturated m v e =
    let r = (binary_increment v).1 in
    let l : length r ≡ suc m = length-increment v ∙ e in
    let rv = reading m v e in
    let cv = signed_cases m v e in
    let cr = signed_cases m r l in
    let rr = reading m r l in
    let sum = increment_carry v in
    let one = one-le-pow m 2 in
    let z = signed v +ℤ pos 1 in
    let parts = +ℤ_parts (signed v) (pos 1) in
    let part = one_part z in
    let top = signed_make_max (suc m) in
    let (lt, vt) = make_max-signed m in
    let ct = signed_cases m top lt in
    elim (Bool-cases (not (binary_is_negative v) && binary_is_negative r)) [
      | inl over ↦
          rw (e, over)
            (
              lt,
              inr (
                  inl (
                    ground (arith, bit-le (binary_increment v).0),
                    eq_of_parts (signed top) (pos (2 ^ m - 1)) (ground arith),
                  )),
            )
      | inr fine ↦ rw fine (
        l,
        inl (
          ground (arith, bit-le (binary_increment v).0),
          eq_of_parts (signed r) z (ground (arith, bit-le (binary_increment v).0)),
        ),
      )
    ]
