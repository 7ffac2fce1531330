-- ===== src/Bits/Vector.antt =====
-- The static helpers on `std::vector<bool>` at the top of src/types/bits.cpp.
-- A vector is a list whose head is index 0, the lowest bit.
use wudoovm.Common.{
  ℕ, zero, suc, ◌-◌, min, max, Bool, true, false, not, List, [], ◌∷◌, ◌++◌, map, Option, none, some,
  length, get_or, take, drop, replicate, if◌then◌else◌,
}

abbrev pub BitVector : Type 0
BitVector = List Bool

-- `v.back()`. It is undefined for an empty vector, where the model reads `false`.
unfoldable pub back : BitVector → Bool
back [] = false
back (b ∷ []) = b
back (b ∷ c ∷ v) = back (c ∷ v)

-- The characters 0 and 1, the highest bit first.
unfoldable pub to_string : BitVector → List ℕ
to_string [] = []
to_string (b ∷ v) = to_string v ++ (if b then b'1' else b'0') ∷ []

unfoldable pub binary_expand : BitVector → ℕ → BitVector
binary_expand v n = v ++ replicate (n - length v) (back v)

-- `std::copy_n(bits.begin(), n, result.begin())`.
unfoldable pub copy_n : BitVector → ℕ → BitVector → BitVector
copy_n bits n result = take n bits ++ drop n result

unfoldable pub binary_clip : BitVector → ℕ → BitVector
unfolding copy_n
binary_clip bits width =
    binary_expand (copy_n bits (min (length bits) width) (replicate width false)) width

unfoldable pub binary_inversion : BitVector → BitVector
binary_inversion v = map not v

unfoldable pub binary_to_bool : BitVector → Bool
binary_to_bool [] = false
binary_to_bool (b ∷ v) = if b then true else binary_to_bool v

unfoldable pub binary_fill_with_zeroes : BitVector → BitVector
binary_fill_with_zeroes v = map (λ _. false) v

unfoldable pub binary_is_negative : BitVector → Bool
unfolding back
binary_is_negative v = back v

-- The loop of `binary_last_bit_set`, with `i` bits left to look at.
unfoldable pub last_bit_set_below : BitVector → ℕ → Option ℕ
last_bit_set_below v zero = none
last_bit_set_below v (suc i) = if get_or v i false then some i else last_bit_set_below v i

unfoldable pub binary_last_bit_set : BitVector → Option ℕ
unfolding last_bit_set_below
binary_last_bit_set v = last_bit_set_below v (length v)

-- `!=` of two bits.
unfoldable pub differ : Bool → Bool → Bool
differ a b = if a then not b else b

-- The loop of `binary_eq`. Its vectors are of one size, so `rhs.at(i)` is in range.
unfoldable pub same_bits : BitVector → BitVector → Bool
unfolding differ
same_bits [] rhs = true
same_bits (x ∷ lhs) [] = false
same_bits (x ∷ lhs) (y ∷ rhs) = if differ x y then false else same_bits lhs rhs

unfoldable pub binary_eq : BitVector → BitVector → Bool
unfolding same_bits
binary_eq lhs rhs =
    let l = binary_expand lhs (max (length lhs) (length rhs)) in
    let r = binary_expand rhs (max (length l) (length rhs)) in same_bits l r

-- `==` of two vectors.
unfoldable pub vector_eq : BitVector → BitVector → Bool
unfolding differ
vector_eq [] [] = true
vector_eq [] (y ∷ rhs) = false
vector_eq (x ∷ lhs) [] = false
vector_eq (x ∷ lhs) (y ∷ rhs) = if differ x y then false else vector_eq lhs rhs
