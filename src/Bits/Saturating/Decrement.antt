-- ===== src/Bits/Saturating/Decrement.antt =====
-- `signed_is_min`, `signed_decrement` and `take_twos_complement` of namespace
-- `viua::arithmetic::saturating` in src/types/bits.cpp.
use native.Mathlib.Nat.{one-le-pow, le_refl}
use wudoovm.Common.{
  ℕ, zero, suc, ◌+◌, ◌-◌, ◌^◌, ◌≤◌, ◌<◌, ◌≡◌, refl, ap, subst, ◌∙◌, inl, inr, false, [], ◌∷◌, arith,
  length, take, get_or, ◌==◌, Bool-cases, take_all,
}
use wudoovm.Common.Int.{ℤ, pos, sub_ℕ, ◌+ℤ◌, ◌-ℤ◌, int_laws, one_part, eq_of_parts, -ℤ_parts}
use wudoovm.Bits.Vector.{BitVector, back, binary_inversion}
use wudoovm.Bits.Value.{value, length-inversion, take-drop_parts}
use wudoovm.Bits.Signed.{signed, Saturated, signed_cases, reading}
use wudoovm.Bits.Wrapping.{binary_decrement}
use wudoovm.Bits.Wrapping.Increment.{value-decrement, decrement_sum}
use wudoovm.Bits.Wrapping.Comparison.{take-suc}
use wudoovm.Bits.Checked.Increment.{inversion-signed}
use wudoovm.Bits.Saturating.{
  none_set, signed_is_min, signed_increment, signed_decrement, take_twos_complement,
}
use wudoovm.Bits.Saturating.Increment.{signed_increment-Saturated}

back-get_or : (m : ℕ) (v : BitVector) → length v ≡ suc m → back v ≡ get_or v m false
unfolding back
back-get_or m [] e = absurd (omega arith)
back-get_or zero (b ∷ []) e = refl
back-get_or (suc m) (b ∷ []) e = absurd (omega arith)
back-get_or zero (b ∷ c ∷ v) e = absurd (omega arith)
back-get_or (suc m) (b ∷ c ∷ v) e = back-get_or m (c ∷ v) (omega arith)

take_mono : (n i : ℕ) (v : BitVector) → value (take i v) ≤ value (take (n + i) v)
take_mono zero i v = let k : 0 + i ≡ i = omega arith in rw k (le_refl _)
take_mono (suc n) i v =
    let k : suc n + i ≡ suc (n + i) = omega arith in
    rw k (omega (arith, take-suc (n + i) v, take_mono n i v))

none_set-value :
    (left i : ℕ) (v : BitVector)
    → value (take i v) ≡ 0
    → none_set left i v ≡ (value (take (i + left) v) == 0)
unfolding none_set
none_set-value zero i v h = let k : i + 0 ≡ i = omega arith in rw (k, h)
none_set-value (suc left) i v h =
    let k : i + suc left ≡ suc i + left = omega arith in
    elim (Bool-cases (get_or v i false)) [
      | inl hit ↦
          let more = take_mono left (suc i) v in
          let j : left + suc i ≡ i + suc left = omega arith in
          let some_set : 0 < value (take (i + suc left) v) =
            rw (← j) (ground (arith, take-suc i v, one-le-pow i 2)) in
          rw hit (ground arith)
      | inr miss ↦ rw (miss, k) (none_set-value left (suc i) v (ground (arith, take-suc i v)))
    ]

-- The least value is the one that `signed_is_min` finds.
signed_is_min-value :
    (m : ℕ) (v : BitVector) → length v ≡ suc m → signed_is_min v ≡ (value v == 2 ^ m)
unfolding signed_is_min
signed_is_min-value m v e =
    let k : length v - 1 ≡ m = omega arith in
    let whole : take (suc m) v ≡ v = take_all (suc m) v (omega arith) in
    let start : 0 + m ≡ m = omega arith in
    let top = take-suc m v in
    let low = take-drop_parts m v in
    rw (k, back-get_or m v e, none_set-value m 0 v refl, start) (ground (arith, ap value whole))

-- Decrementing a vector of width m + 1 is exact, or stops at the least value.
signed_decrement-Saturated :
    (m : ℕ) (v : BitVector)
    → length v ≡ suc m
    → Saturated m (signed v -ℤ pos 1) (signed_decrement v)
unfolding signed_decrement
signed_decrement-Saturated m v e =
    let r = (binary_decrement v).1 in
    let l : length r ≡ suc m = (value-decrement v).1 ∙ e in
    let cv = signed_cases m v e in
    let cr = signed_cases m r l in
    let rr = reading m r l in
    let sum = decrement_sum v in
    let one = one-le-pow m 2 in
    let z = signed v -ℤ pos 1 in
    let parts = -ℤ_parts (signed v) (pos 1) in
    let part = one_part z in
    let least = signed_is_min-value m v e in
    elim (Bool-cases (signed_is_min v)) [
      | inl stop ↦
          rw stop
            (e, inr (inr (ground arith, eq_of_parts (signed v) (sub_ℕ 0 (2 ^ m)) (ground arith))))
      | inr fine ↦ rw fine (l, inl (ground arith, eq_of_parts (signed r) z (ground arith)))
    ]

-- Negation is exact but at the least value, whose negative saturates.
complement-Saturated :
    (m : ℕ) (v : BitVector)
    → length v ≡ suc m
    → Saturated m (pos 0 -ℤ signed v) (take_twos_complement v)
unfolding take_twos_complement
complement-Saturated m v e =
    subst (λ z. Saturated m z (signed_increment (binary_inversion v)))
      (ap (λ z. z +ℤ pos 1) (inversion-signed m v e) ∙ back_again (signed v))
      (signed_increment-Saturated m (binary_inversion v) (length-inversion v ∙ e))
  where
    back_again : (z : ℤ) → pos 0 -ℤ z -ℤ pos 1 +ℤ pos 1 ≡ pos 0 -ℤ z
    back_again z = omega int_laws
