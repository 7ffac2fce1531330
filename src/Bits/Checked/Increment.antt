-- ===== src/Bits/Checked/Increment.antt =====
-- `signed_increment`, `signed_decrement`, `take_twos_complement` and `absolute` of namespace
-- `viua::arithmetic::checked` in src/types/bits.cpp: exact, or an exception.
use native.Mathlib.Nat.{one-le-pow}
use wudoovm.Common.{ℕ, suc, ◌≡◌, ap, subst, ◌∙◌, inl, inr, not, ◌&&◌, arith, length, Bool-cases}
use wudoovm.Common.Int.{ℤ, pos, ◌+ℤ◌, ◌-ℤ◌, int_laws}
use wudoovm.Bits.Error.{checked_increment_overflow, checked_decrement_overflow}
use wudoovm.Bits.Vector.{BitVector, binary_is_negative, binary_inversion}
use wudoovm.Bits.Value.{bit-le, value-inversion, length-inversion}
use wudoovm.Bits.Signed.{signed, Exact, reading}
use wudoovm.Bits.Wrapping.{binary_increment, binary_decrement}
use wudoovm.Bits.Wrapping.Increment.{
  length-increment, increment_carry, value-decrement, decrement_sum,
}
use wudoovm.Bits.Checked.{signed_increment, signed_decrement, take_twos_complement}

module _ (m : ℕ) (v : BitVector) (e : length v ≡ suc m) where
  -- Incrementing a vector of width m + 1 is exact if the result is in range, and otherwise throws.
  signed_increment-Exact :
      Exact m (signed v +ℤ pos 1) checked_increment_overflow (signed_increment v)
  unfolding signed_increment ◌+ℤ◌
  signed_increment-Exact =
      let r = (binary_increment v).1 in
      let l : length r ≡ suc m = length-increment v ∙ e in
      let rv = reading m v e in
      let rr = reading m r l in
      let sum = increment_carry v in
      let one = one-le-pow m 2 in
      elim (Bool-cases (not (binary_is_negative v) && binary_is_negative r)) [
        | inl over ↦ inr (ground (arith, bit-le (binary_increment v).0), rw over)
        | inr fine ↦ inl (
          r,
          ground (arith, bit-le (binary_increment v).0),
          rw fine,
          l,
          ground (arith, bit-le (binary_increment v).0),
        )
      ]

  -- Decrementing a vector of width m + 1 is exact if the result is in range, and otherwise throws.
  signed_decrement-Exact :
      Exact m (signed v -ℤ pos 1) checked_decrement_overflow (signed_decrement v)
  unfolding signed_decrement ◌-ℤ◌
  signed_decrement-Exact =
      let r = (binary_decrement v).1 in
      let l : length r ≡ suc m = (value-decrement v).1 ∙ e in
      let rv = reading m v e in
      let rr = reading m r l in
      let sum = decrement_sum v in
      let one = one-le-pow m 2 in
      elim (Bool-cases (binary_is_negative v && not (binary_is_negative r))) [
        | inl over ↦ inr (ground arith, rw over)
        | inr fine ↦ inl (r, ground arith, rw fine, l, ground arith)
      ]

  -- The inversion of the bits.
  pub inversion-signed : signed (binary_inversion v) ≡ pos 0 -ℤ signed v -ℤ pos 1
  unfolding ◌-ℤ◌
  inversion-signed =
      let w = length-inversion v ∙ e in
      let rv = reading m v e in
      let rr = reading m (binary_inversion v) w in let sum = value-inversion v in ground arith

module _ (m : ℕ) (v : BitVector) (e : length v ≡ suc m) where
  -- Negation is exact, and throws at the least value only.
  pub complement-Exact :
      Exact m (pos 0 -ℤ signed v) checked_increment_overflow (take_twos_complement v)
  unfolding take_twos_complement
  complement-Exact =
      subst (λ z. Exact m z checked_increment_overflow (signed_increment (binary_inversion v)))
        (ap (λ z. z +ℤ pos 1) (inversion-signed m v e) ∙ back_again (signed v))
        (signed_increment-Exact m (binary_inversion v) (length-inversion v ∙ e))
    where
      back_again : (z : ℤ) → pos 0 -ℤ z -ℤ pos 1 +ℤ pos 1 ≡ pos 0 -ℤ z
      back_again z = omega int_laws
