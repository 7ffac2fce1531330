-- ===== src/Bits/Wrapping/Multiplication.antt =====
-- `binary_multiplication` of src/types/bits.cpp: shift and add.
use native.Mathlib.Nat.{pow-suc}
use native.Mathlib.Numerals.{add-one}
use wudoovm.Common.{
  ℕ, zero, suc, ◌+◌, ◌*◌, ◌^◌, ◌≡◌, refl, ap, ◌∙◌, true, false, List, [], ◌∷◌, ◌++◌, arith, length,
  replicate,
}
use wudoovm.Bits.Vector.{BitVector}
use wudoovm.Bits.Value.{value, value-replicate-false, pow-suc_mul}
use wudoovm.Bits.Wrapping.{
  binary_addition, partial_products, accumulate, intermediates, binary_multiplication,
}
use wudoovm.Bits.Wrapping.Addition.{value-addition}

total : List BitVector → ℕ
total [] = 0
total (v ∷ vs) = value v + total vs

accumulate-total :
    (acc : BitVector) (vs : List BitVector) → value (accumulate acc vs) ≡ value acc + total vs
unfolding accumulate total
accumulate-total acc [] = omega arith
accumulate-total acc (v ∷ vs) =
    omega (arith, accumulate-total (binary_addition acc v) vs, value-addition acc v)

value-shifted : (i : ℕ) (v : BitVector) → value (replicate i false ++ v) ≡ 2 ^ i * value v
value-shifted zero v = omega arith
value-shifted (suc i) v = omega (arith, value-shifted i v, pow-suc_mul i (value v))

pow-add_one : (i : ℕ) → 2 ^ (i + 1) ≡ 2 * 2 ^ i
pow-add_one i = rw add-one (omega (arith, pow-suc 2 i))

total-partial_products :
    (i : ℕ) (lhs rhs : BitVector)
    → total (partial_products i lhs rhs) ≡ 2 ^ i * value lhs * value rhs
unfolding total partial_products
total-partial_products i lhs [] = omega arith
total-partial_products i lhs (true ∷ rhs) = omega (
  arith,
  value-shifted i lhs,
  total-partial_products (i + 1) lhs rhs,
  ap (λ (t : ℕ). t * value lhs * value rhs) (pow-add_one i),
)
total-partial_products i lhs (false ∷ rhs) = omega (
  arith,
  total-partial_products (i + 1) lhs rhs,
  ap (λ (t : ℕ). t * value lhs * value rhs) (pow-add_one i),
)

-- The sum of the intermediates, from any start, is the product.
accumulate-intermediates :
    (acc lhs rhs : BitVector)
    → value (accumulate acc (intermediates lhs rhs)) ≡ value acc + value lhs * value rhs
unfolding intermediates
accumulate-intermediates acc lhs rhs =
    accumulate-total acc (intermediates lhs rhs)
    ∙ omega (
      arith,
      value-replicate-false (length lhs + length rhs),
      total-partial_products 0 lhs rhs,
      unfolded,
    )
  where
    unfolded :
        total (intermediates lhs rhs)
        ≡ value (replicate (length lhs + length rhs) false) + total (partial_products 0 lhs rhs)
    unfolded = unfold total in refl

-- The vector that `binary_multiplication` returns has the product of the two values, for vectors
-- of any widths.
pub value-multiplication :
    (lhs rhs : BitVector) → value (binary_multiplication lhs rhs) ≡ value lhs * value rhs
unfolding binary_multiplication
value-multiplication lhs rhs = accumulate-intermediates [] lhs rhs ∙ omega arith
