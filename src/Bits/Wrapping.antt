-- ===== src/Bits/Wrapping.antt =====
-- Namespace `viua::arithmetic::wrapping` of src/types/bits.cpp.
pub mod Increment
pub mod Addition
pub mod Comparison
pub mod Division
pub mod Multiplication
use wudoovm.Common.{
  ℕ, zero, suc, ◌+◌, ◌^◌, max, Bool, true, false, not, ◌&&◌, ◌||◌, List, [], ◌∷◌, ◌++◌, length,
  get_or, replicate, if◌then◌else◌,
}
use wudoovm.Common.Outcome.{Outcome, ok, throw, unfinished, ◌>>=◌}
use wudoovm.Bits.Error.{ArithmeticError, division_by_zero}
use wudoovm.Bits.Vector.{
  BitVector, binary_expand, binary_clip, binary_inversion, binary_to_bool, binary_is_negative,
  binary_eq,
}

-- The carry and the vector. The loop ends when the carry is used up.
unfoldable pub binary_increment : BitVector → Bool × BitVector
binary_increment [] = (true, [])
binary_increment (false ∷ v) = (false, true ∷ v)
binary_increment (true ∷ v) = let (carry, rest) = binary_increment v in (carry, false ∷ rest)

-- The loop of `binary_decrement`, with the borrow so far.
unfoldable pub decrement_loop : Bool → BitVector → Bool × BitVector
decrement_loop borrow [] = (borrow, [])
decrement_loop borrow (true ∷ v) = (false, false ∷ v)
decrement_loop borrow (false ∷ v) =
    let (borrow', rest) = decrement_loop true v in (borrow', true ∷ rest)

unfoldable pub binary_decrement : BitVector → Bool × BitVector
unfolding decrement_loop
binary_decrement v = decrement_loop false v

unfoldable pub take_twos_complement : BitVector → BitVector
take_twos_complement v = (binary_increment (binary_inversion v)).1

-- The loop of `binary_lte` and `binary_lt` from the highest bit; `equal` is returned at its end.
unfoldable pub compare_loop : BitVector → BitVector → Bool → ℕ → Bool
compare_loop lhs rhs equal zero = equal
compare_loop lhs rhs equal (suc i) =
    let l = get_or lhs i false in
    let r = get_or rhs i false in
    if not l && r then true else if l && not r then false else compare_loop lhs rhs equal i

unfoldable pub binary_lte : BitVector → BitVector → Bool
unfolding compare_loop
binary_lte lhs rhs =
    let l = binary_expand lhs (max (length lhs) (length rhs)) in
    let r = binary_expand rhs (max (length l) (length rhs)) in compare_loop l r true (length l)

unfoldable pub binary_lt : BitVector → BitVector → Bool
unfolding compare_loop
binary_lt lhs rhs =
    let l = binary_expand lhs (max (length lhs) (length rhs)) in
    let r = binary_expand rhs (max (length l) (length rhs)) in compare_loop l r false (length l)

-- `i < v.size() ? v.at(i) : false`, and the bits behind it.
unfoldable pub first : BitVector → Bool
first [] = false
first (b ∷ v) = b

unfoldable pub behind : BitVector → BitVector
behind [] = []
behind (b ∷ v) = v

-- One round of the addition loop: the bit of the result and the new carry.
unfoldable pub add_bits : Bool → Bool → Bool → Bool × Bool
add_bits from_lhs from_rhs carry =
    if not from_rhs && not from_lhs
    then (carry, false)
    else if from_rhs && from_lhs
    then (carry, true)
    else if carry
    then (false, true)
    else (true, false)

-- `left` rounds of the addition loop: the bits of the result and the last carry.
unfoldable pub addition_loop : ℕ → Bool → BitVector → BitVector → BitVector × Bool
unfolding first behind add_bits
addition_loop zero carry lhs rhs = ([], carry)
addition_loop (suc left) carry lhs rhs =
    let (bit, carry') = add_bits (first lhs) (first rhs) carry in
    let (bits, last) = addition_loop left carry' (behind lhs) (behind rhs) in (bit ∷ bits, last)

unfoldable pub binary_addition : BitVector → BitVector → BitVector
unfolding addition_loop
binary_addition lhs rhs =
    let (result, carry) = addition_loop (max (length lhs) (length rhs)) false lhs rhs in
    if carry then result ++ carry ∷ [] else result

unfoldable pub binary_subtraction : BitVector → BitVector → BitVector
binary_subtraction lhs rhs =
    let width = max (length lhs) (length rhs) in
    binary_clip
      (binary_addition (binary_expand lhs width) (take_twos_complement (binary_expand rhs width)))
      (length lhs)

-- The intermediates behind the first: `lhs` shifted for each enabled bit of `rhs` from bit `i`.
unfoldable pub partial_products : ℕ → BitVector → BitVector → List BitVector
partial_products i lhs [] = []
partial_products i lhs (b ∷ rhs) =
    let more = partial_products (i + 1) lhs rhs in
    if b then (replicate i false ++ lhs) ∷ more else more

-- `std::accumulate` with `binary_addition`.
unfoldable pub accumulate : BitVector → List BitVector → BitVector
accumulate acc [] = acc
accumulate acc (v ∷ vs) = accumulate (binary_addition acc v) vs

unfoldable pub intermediates : BitVector → BitVector → List BitVector
unfolding partial_products
intermediates lhs rhs = replicate (length lhs + length rhs) false ∷ partial_products 0 lhs rhs

unfoldable pub binary_multiplication : BitVector → BitVector → BitVector
unfolding accumulate intermediates
binary_multiplication lhs rhs = accumulate [] (intermediates lhs rhs)

-- `while (binary_lte(divisor, remainder))`: the quotient. Each round takes one unit of fuel.
unfoldable pub division_loop :
    ℕ → BitVector → BitVector → BitVector → Outcome ArithmeticError BitVector
division_loop zero divisor remainder quotinent = unfinished
division_loop (suc fuel) divisor remainder quotinent =
    let more =
      division_loop fuel divisor (binary_subtraction remainder divisor)
        (binary_increment quotinent).1 in
    if binary_lte divisor remainder then more else ok quotinent

unfoldable pub binary_division : BitVector → BitVector → Outcome ArithmeticError BitVector
unfolding division_loop
binary_division dividend rhs =
    let quotinent = replicate (length dividend) false in
    let negative_divisor = binary_is_negative rhs in
    let negative_dividend = binary_is_negative dividend in
    let divisor = if negative_divisor then take_twos_complement rhs else rhs in
    let remainder = if negative_dividend then take_twos_complement dividend else dividend in
    let negative_quotinent =
      (negative_divisor || negative_dividend) && not (negative_divisor && negative_dividend) in
    if not (binary_to_bool rhs)
    then throw division_by_zero
    else if binary_eq rhs dividend
    then ok (binary_increment quotinent).1
    else (do
      q ← division_loop (2 ^ length dividend) divisor remainder quotinent
      ok (if negative_quotinent then take_twos_complement q else q))
