-- ===== src/Bits/Wrapping/Comparison.antt =====
-- `binary_to_bool`, `binary_eq`, `binary_lte` and `binary_lt` of src/types/bits.cpp as tests of
-- the values.
use native.Mathlib.Nat.{pow-suc}
use wudoovm.Common.{
  ℕ, zero, suc, ◌+◌, ◌*◌, ◌^◌, max, ◌≡◌, ◌↔◌, refl, ap, Bool, true, false, ◌&&◌, ◌||◌, [], ◌∷◌,
  arith, length, take, get_or, ltb, ◌==◌, leb, take_all,
}
use wudoovm.Bits.Vector.{BitVector, binary_expand, binary_to_bool, binary_eq, same_bits}
use wudoovm.Bits.Value.{bit, value, expand_self, take-drop_parts}
use wudoovm.Bits.Wrapping.{compare_loop, binary_lte, binary_lt}

-- A vector is a false Boolean exactly when its value is zero.
pub binary_to_bool-value : (v : BitVector) → (binary_to_bool v ≡ false) ↔ (value v ≡ 0)
unfolding binary_to_bool
binary_to_bool-value [] = (λ _. refl, λ _. refl)
binary_to_bool-value (true ∷ v) = ground arith
binary_to_bool-value (false ∷ v) = ground (arith, binary_to_bool-value v)

same_bits-value :
    (lhs rhs : BitVector)
    → length lhs ≡ length rhs
    → (same_bits lhs rhs ≡ true) ↔ (value lhs ≡ value rhs)
unfolding same_bits
same_bits-value [] [] e = (λ _. refl, λ _. refl)
same_bits-value [] (y ∷ rhs) e = absurd (omega arith)
same_bits-value (x ∷ lhs) [] e = absurd (omega arith)
same_bits-value (true ∷ lhs) (true ∷ rhs) e = ground (arith, same_bits-value lhs rhs)
same_bits-value (true ∷ lhs) (false ∷ rhs) e = ground arith
same_bits-value (false ∷ lhs) (true ∷ rhs) e = ground arith
same_bits-value (false ∷ lhs) (false ∷ rhs) e = ground (arith, same_bits-value lhs rhs)

-- The bits below the next one.
pub take-suc :
    (i : ℕ) (v : BitVector)
    → value (take (suc i) v) ≡ value (take i v) + bit (get_or v i false) * 2 ^ i
take-suc zero [] = refl
take-suc zero (b ∷ v) = omega arith
take-suc (suc i) [] = omega arith
take-suc (suc i) (b ∷ v) =
    omega (arith, take-suc i v, ap (λ (t : ℕ). bit (get_or v i false) * t) (pow-suc 2 i))

-- The loop decides the order of the bits that it has left to look at.
pub compare_loop_order :
    (lhs rhs : BitVector) (equal : Bool) (i : ℕ)
    → compare_loop lhs rhs equal i ≡ (
        ltb (value (take i lhs)) (value (take i rhs))
        || value (take i lhs) == value (take i rhs) && equal)
unfolding compare_loop
compare_loop_order lhs rhs equal zero = refl
compare_loop_order lhs rhs equal (suc i) = ground (
  arith,
  compare_loop_order lhs rhs equal i,
  take-suc i lhs,
  take-suc i rhs,
  take-drop_parts i lhs,
  take-drop_parts i rhs,
)

module _ (lhs rhs : BitVector) (e : length lhs ≡ length rhs) where
  expanded :
      (binary_expand lhs (max (length lhs) (length rhs)) ≡ lhs)
      × (binary_expand rhs (max (length lhs) (length rhs)) ≡ rhs)
  expanded = (expand_self lhs _ (omega arith), expand_self rhs _ (omega arith))

  pub binary_eq-value : (binary_eq lhs rhs ≡ true) ↔ (value lhs ≡ value rhs)
  unfolding binary_eq
  binary_eq-value = rw (expanded.0, expanded.1) (same_bits-value lhs rhs e)

  -- On vectors of one width, `binary_lte` and `binary_lt` compare the unsigned numbers.
  pub binary_lte-value :
      (binary_lte lhs rhs ≡ leb (value lhs) (value rhs))
      × (binary_lt lhs rhs ≡ ltb (value lhs) (value rhs))
  unfolding binary_lte binary_lt
  binary_lte-value =
      let whole_lhs : take (length lhs) lhs ≡ lhs = take_all (length lhs) lhs (omega arith) in
      let whole_rhs : take (length lhs) rhs ≡ rhs = take_all (length lhs) rhs (omega arith) in
      rw (expanded.0, expanded.1)
        (
          rw (compare_loop_order lhs rhs true (length lhs), whole_lhs, whole_rhs) (ground arith),
          rw (compare_loop_order lhs rhs false (length lhs), whole_lhs, whole_rhs) (ground arith),
        )
