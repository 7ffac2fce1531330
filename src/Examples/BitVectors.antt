-- ===== src/Examples/BitVectors.antt =====
-- The helpers of src/types/bits.cpp on vectors of eight bits.
use wudoovm.Common.{
  not, ◌⊎◌, ℕ, zero, suc, ◌+◌, ◌-◌, ◌/◌, ◌%◌, ◌^◌, ◌≡◌, ◌≢◌, refl, true, [], ◌∷◌, length, ltb, leb,
  ◌==◌, if◌then◌else◌, arith,
}
use wudoovm.Common.Int.{pos, pos_part, neg_part, sub_ℕ, ◌+ℤ◌, ◌-ℤ◌}
use wudoovm.Common.Outcome.{ok, throw}
use wudoovm.Bits.Error.{checked_subtraction_overflow}
use wudoovm.Bits.Vector.{BitVector, binary_is_negative, differ}
use wudoovm.Bits.Value.{value}
use wudoovm.Bits.Signed.{signed, InRange, OutOfRange, Saturated}
use wudoovm.Bits.Wrapping.{
  binary_addition, binary_subtraction, binary_multiplication, binary_division, binary_lte,
  binary_lt,
}
use wudoovm.Bits.Checked
use wudoovm.Bits.Saturating
use wudoovm.Bits.Wrapping.Addition.{binary_addition_lem, value-subtraction}
use wudoovm.Bits.Wrapping.Multiplication.{value-multiplication}
use wudoovm.Bits.Wrapping.Division.{value-division, quotient_bits, magnitude}
use wudoovm.Bits.Wrapping.Comparison.{binary_lte-value}
use wudoovm.Bits.Checked.Subtraction as CheckedSubtraction
use wudoovm.Bits.Saturating.Addition as SaturatingAddition

-- The low bits of a number.
abbrev to_vector : ℕ → ℕ → BitVector
to_vector zero n = []
to_vector (suc w) n = (n % 2 == 1) ∷ to_vector w (n / 2)

abbrev hundred : BitVector
hundred = to_vector 8 100

abbrev seven : BitVector
seven = to_vector 8 7

abbrev minus_three : BitVector
minus_three = to_vector 8 253

value-multiplication_example : value (binary_multiplication hundred seven) ≡ 700
value-multiplication_example = value-multiplication hundred seven

value-division_example :
    (q : BitVector) × (binary_division minus_three seven ≡ ok q)
    × (length q ≡ 8)
    × (value q
        ≡ quotient_bits 8
            (differ (binary_is_negative seven) (binary_is_negative minus_three))
            (magnitude minus_three / magnitude seven))
value-division_example = value-division 7 minus_three seven refl refl (omega arith)

binary_addition_lem_example :
    (value (binary_addition hundred minus_three) ≡ value hundred + value minus_three)
    × (length (binary_addition hundred minus_three)
        ≡ (if leb (2 ^ 8) (value hundred + value minus_three) then 9 else 8))
binary_addition_lem_example = binary_addition_lem hundred minus_three

value-subtraction_example :
    (value (binary_subtraction seven hundred) ≡ 163)
    × (length (binary_subtraction seven hundred) ≡ 8)
value-subtraction_example = value-subtraction seven hundred refl

binary_lte-value_example : (binary_lte seven hundred ≡ true) × (binary_lt seven hundred ≡ true)
binary_lte-value_example = binary_lte-value seven hundred refl

saturating_add_example :
    Saturated 7 (signed hundred +ℤ signed hundred) (Saturating.signed_add hundred hundred)
saturating_add_example = SaturatingAddition.signed_add-Saturated 7 hundred hundred refl refl refl

saturating_add_mixed_example :
    let z = signed seven +ℤ signed minus_three in
    InRange 7 z
    × (signed (Saturating.signed_add seven minus_three) ≡ (
        if binary_is_negative minus_three
        then (if ltb 0 (neg_part z) then z else sub_ℕ 0 (2 ^ 7))
        else (if ltb 0 (neg_part z) then pos (2 ^ 7 - 1) else z)))
unfolding binary_is_negative
saturating_add_mixed_example =
    SaturatingAddition.signed_add-mixed_signs 7 seven minus_three refl refl refl

checked_subtract_example :
    let z = signed seven -ℤ signed minus_three in
    ((difference : BitVector) × (Checked.signed_sub seven minus_three ≡ ok difference)
      × (length difference ≡ 8)
      × (signed difference ≡ z)
      × ((seven ≡ minus_three)
          ⊎ ((neg_part (signed minus_three) ≢ 2 ^ 7)
              × (ltb 0 (neg_part z) ≡ ltb 0 (pos_part (signed minus_three))))))
    ⊎ ((Checked.signed_sub seven minus_three ≡ throw checked_subtraction_overflow)
        × (seven ≢ minus_three)
        × (OutOfRange 7 z
            ⊎ (neg_part (signed minus_three) ≡ 2 ^ 7)
            ⊎ (InRange 7 z
                × (binary_is_negative seven ≡ not (ltb 0 (pos_part (signed minus_three))))
                × (ltb 0 (neg_part z) ≡ binary_is_negative seven))))
checked_subtract_example = CheckedSubtraction.signed_sub-cases 7 seven minus_three refl refl
