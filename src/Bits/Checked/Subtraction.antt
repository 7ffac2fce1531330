-- ===== src/Bits/Checked/Subtraction.antt =====
-- `signed_sub` of `viua::arithmetic::checked` in src/types/bits.cpp.
use native.Mathlib.Nat.{one-le-pow}
use wudoovm.Common.{
  ℕ, suc, ◌^◌, max, ◌≡◌, ◌≢◌, ◌⊎◌, inl, inr, refl, sym, ap, subst, ◌∙◌, false, not, length,
  replicate, length-replicate, ltb, lt→ltb, Bool-cases, arith,
}
use wudoovm.Common.Int.{
  ℤ, pos, pos_part, neg_part, ◌+ℤ◌, ◌-ℤ◌, +ℤ_parts, -ℤ_parts, eq_of_parts, one_part,
}
use wudoovm.Common.Outcome.{ok, throw, ◌>>=◌, rethrow}
use wudoovm.Bits.Error.{checked_subtraction_overflow}
use wudoovm.Bits.Vector.{BitVector, binary_clip, binary_is_negative, vector_eq, differ}
use wudoovm.Bits.Value.{
  expand_self, clip_self, vector_eq_iff, differ_opposite, differ_same, value-replicate-false,
}
use wudoovm.Bits.Signed.{signed, signed_cases, reading, InRange, OutOfRange}
use wudoovm.Bits.Checked.{Checked, signed_sub, signed_add, take_twos_complement}
use wudoovm.Bits.Checked.Increment.{complement-Exact}
use wudoovm.Bits.Checked.Addition.{signed_add-Exact, signed_add-mixed, sum_facts}

add_negated : (a b : ℤ) → a +ℤ (pos 0 -ℤ b) ≡ a -ℤ b
add_negated a b =
    let inner = -ℤ_parts (pos 0) b in
    let outer = +ℤ_parts a (pos 0 -ℤ b) in
    eq_of_parts (a +ℤ (pos 0 -ℤ b)) (a -ℤ b) (omega (arith, -ℤ_parts a b))

negative_part : (b : ℤ) → ltb 0 (neg_part (pos 0 -ℤ b)) ≡ ltb 0 (pos_part b)
unfolding ◌-ℤ◌
negative_part b = ground arith

sign_of_signed :
    (m : ℕ) (v : BitVector) → length v ≡ suc m → binary_is_negative v ≡ ltb 0 (neg_part (signed v))
sign_of_signed m v e =
    let bounds = reading m v e in
    let below = bounds.bound in
    elim (signed_cases m v e) [
      | inl (small, plus, p, n) ↦
          let test : ltb 0 (neg_part (signed v)) ≡ false = rw n refl in plus ∙ sym test
      | inr (large, minus, p, n) ↦
          minus ∙ sym (lt→ltb 0 (neg_part (signed v)) (omega (arith, n, below)))
    ]

-- A sum of two numbers of one sign has that sign.
sign_of_sum :
    (m : ℕ) (lhs rhs : BitVector)
    → length lhs ≡ suc m
    → length rhs ≡ suc m
    → binary_is_negative lhs ≡ binary_is_negative rhs
    → ltb 0 (neg_part (signed lhs +ℤ signed rhs)) ≡ binary_is_negative rhs
sign_of_sum m lhs rhs l r same = let facts = sum_facts m lhs rhs l r in ground arith

module _ (m : ℕ) (lhs rhs : BitVector) (l : length lhs ≡ suc m) (r : length rhs ≡ suc m) where
  after_negation : Checked → Checked
  after_negation negated = rethrow checked_subtraction_overflow negated >>= λ rhs_used.
      rethrow checked_subtraction_overflow (signed_add lhs rhs_used) >>= λ sum.
      ok (binary_clip sum (length lhs))

  signed_sub_steps :
      vector_eq lhs rhs ≡ false → signed_sub lhs rhs ≡ after_negation (take_twos_complement rhs)
  unfolding signed_sub after_negation
  signed_sub_steps different =
      let left = expand_self lhs (max (length lhs) (length rhs)) (omega (arith, l, r)) in
      let right = expand_self rhs (max (length lhs) (length rhs)) (omega (arith, l, r)) in
      rw (different, left, right) refl

  zero_difference : lhs ≡ rhs → signed (replicate (length lhs) false) ≡ signed lhs -ℤ signed rhs
  zero_difference e =
      let zero_value = value-replicate-false (length lhs) in
      let wide : length (replicate (length lhs) false) ≡ suc m =
        length-replicate (length lhs) false ∙ l in
      let cases = signed_cases m (replicate (length lhs) false) wide in
      let same : signed lhs ≡ signed rhs = ap signed e in
      let difference = -ℤ_parts (signed lhs) (signed rhs) in
      let positive = one-le-pow m 2 in
      eq_of_parts (signed (replicate (length lhs) false)) (signed lhs -ℤ signed rhs)
        (ground (arith, ap pos_part same, ap neg_part same, one_part (signed lhs -ℤ signed rhs)))

  -- The sign of the negated operand.
  negated_sign :
      (negated : BitVector)
      → length negated ≡ suc m
      → signed negated ≡ pos 0 -ℤ signed rhs
      → binary_is_negative negated ≡ ltb 0 (pos_part (signed rhs))
  negated_sign negated w v =
      sign_of_signed m negated w ∙ ap (λ t. ltb 0 (neg_part t)) v ∙ negative_part (signed rhs)

  least_operand : OutOfRange m (pos 0 -ℤ signed rhs) → neg_part (signed rhs) ≡ 2 ^ m
  least_operand out =
      let cases = signed_cases m rhs r in
      let parts = -ℤ_parts (pos 0) (signed rhs) in
      let a = one_part (signed rhs) in let b = one_part (pos 0 -ℤ signed rhs) in ground arith

  not_least : InRange m (pos 0 -ℤ signed rhs) → neg_part (signed rhs) ≢ 2 ^ m
  not_least fits e =
      let parts = -ℤ_parts (pos 0) (signed rhs) in
      let a = one_part (signed rhs) in
      let b = one_part (pos 0 -ℤ signed rhs) in let c = fits.0 in ground arith

  -- The addition of the negated operand, by its result, where the operands are different.
  abbrev IsDifference : Checked → Type 0
  IsDifference result =
      let z = signed lhs -ℤ signed rhs in
      ((difference : BitVector) × (result ≡ ok difference)
        × (length difference ≡ suc m)
        × (signed difference ≡ z)
        × (neg_part (signed rhs) ≢ 2 ^ m)
        × (ltb 0 (neg_part z) ≡ ltb 0 (pos_part (signed rhs))))
      ⊎ ((result ≡ throw checked_subtraction_overflow)
          × (OutOfRange m z
              ⊎ (neg_part (signed rhs) ≡ 2 ^ m)
              ⊎ (InRange m z
                  × (binary_is_negative lhs ≡ not (ltb 0 (pos_part (signed rhs))))
                  × (ltb 0 (neg_part z) ≡ binary_is_negative lhs))))

  clipped_difference :
      (negated sum : BitVector)
      → signed_add lhs negated ≡ ok sum
      → length sum ≡ suc m
      → after_negation (ok negated) ≡ ok sum
  unfolding after_negation
  clipped_difference negated sum run w =
      rw run (ap (λ x. let c : Checked = ok x in c) (clip_self sum (length lhs) (w ∙ sym l)))

  of_negated :
      (negated : BitVector)
      → length negated ≡ suc m
      → signed negated ≡ pos 0 -ℤ signed rhs
      → InRange m (pos 0 -ℤ signed rhs)
      → IsDifference (after_negation (ok negated))
  unfolding after_negation
  of_negated negated w v negation =
      let sum_z = ap (λ t. signed lhs +ℤ t) v ∙ add_negated (signed lhs) (signed rhs) in
      let sign_z = sym (ap (λ t. ltb 0 (neg_part t)) sum_z) in
      let of_rhs = negated_sign negated w v in
      elim (Bool-cases (differ (binary_is_negative lhs) (binary_is_negative negated))) [
        | inl mixed ↦
            let opposite =
              differ_opposite (binary_is_negative lhs) (binary_is_negative negated) mixed in
            let (fits, cases) = signed_add-mixed m lhs negated l w opposite in
            elim cases [
              | inl (sign, (sum, run, w', v')) ↦ inl (
                sum,
                clipped_difference negated sum run w',
                w',
                v' ∙ sum_z,
                not_least negation,
                sign_z ∙ sign ∙ of_rhs,
              )
              | inr (sign, run) ↦ inr (
                rw run refl,
                inr (
                    inr (
                      subst (InRange m) sum_z fits,
                      opposite ∙ ap not of_rhs,
                      subst (λ t. ltb 0 (neg_part t) ≡ binary_is_negative lhs) sum_z sign,
                    )),
              )
            ]
        | inr alike ↦
            let same = differ_same (binary_is_negative lhs) (binary_is_negative negated) alike in
            elim (signed_add-Exact m lhs negated l w same) [
              | inl (sum, fits, run, w', v') ↦ inl (
                sum,
                clipped_difference negated sum run w',
                w',
                v' ∙ sum_z,
                not_least negation,
                sign_z ∙ sign_of_sum m lhs negated l w same ∙ of_rhs,
              )
              | inr (out, run) ↦ inr (rw run refl, inl (subst (OutOfRange m) sum_z out))
            ]
      ]

  unequal_vectors : vector_eq lhs rhs ≡ false → lhs ≢ rhs
  unequal_vectors different e = let equal = (vector_eq_iff lhs rhs).1 e in cc

  -- Subtraction of vectors of one width m + 1 either returns the difference in that width or
  -- throws. It returns only if the operands are equal, or if the right one is not the least value
  -- and the difference is negative exactly if the right operand is positive. It throws only if
  -- the operands are different, and one of three conditions holds: the difference is out of range,
  -- the right operand is the least value, or the difference is in range with the sign of the left
  -- operand while the negated right operand has the other sign.
  pub signed_sub-cases :
      let z = signed lhs -ℤ signed rhs in
      ((difference : BitVector) × (signed_sub lhs rhs ≡ ok difference)
        × (length difference ≡ suc m)
        × (signed difference ≡ z)
        × ((lhs ≡ rhs)
            ⊎ ((neg_part (signed rhs) ≢ 2 ^ m)
                × (ltb 0 (neg_part z) ≡ ltb 0 (pos_part (signed rhs))))))
      ⊎ ((signed_sub lhs rhs ≡ throw checked_subtraction_overflow)
          × (lhs ≢ rhs)
          × (OutOfRange m z
              ⊎ (neg_part (signed rhs) ≡ 2 ^ m)
              ⊎ (InRange m z
                  × (binary_is_negative lhs ≡ not (ltb 0 (pos_part (signed rhs))))
                  × (ltb 0 (neg_part z) ≡ binary_is_negative lhs))))
  unfolding after_negation signed_sub
  signed_sub-cases = elim (Bool-cases (vector_eq lhs rhs)) [
    | inl equal ↦
        let e = (vector_eq_iff lhs rhs).0 equal in
        inl (
          replicate (length lhs) false,
          rw equal refl,
          length-replicate (length lhs) false ∙ l,
          zero_difference e,
          inl e,
        )
    | inr different ↦
        let unequal = unequal_vectors different in
        elim (complement-Exact m rhs r) [
          | inl (negated, fits, run, w, v) ↦
              let steps = signed_sub_steps different ∙ ap after_negation run in
              elim (of_negated negated w v fits) [
                | inl (difference, result, w', v', above_least, sign) ↦
                    inl (difference, steps ∙ result, w', v', inr (above_least, sign))
                | inr (refused, reason) ↦ inr (steps ∙ refused, unequal, reason)
              ]
          | inr (out, run) ↦ inr (
            signed_sub_steps different ∙ ap after_negation run,
            unequal,
            inr (inl (least_operand out)),
          )
        ]
  ]
