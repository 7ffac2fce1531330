-- ===== src/Bits/Checked.antt =====
-- Namespace `viua::arithmetic::checked` of src/types/bits.cpp.
pub mod Increment
pub mod Addition
pub mod Subtraction
use wudoovm.Common.{
  ℕ, zero, suc, ◌-◌, ◌^◌, max, Bool, true, false, not, ◌&&◌, ◌||◌, none, some, length, replicate,
  leb, if◌then◌else◌,
}
use wudoovm.Common.Outcome.{Outcome, ok, throw, unfinished, ◌>>=◌, ◌>>◌, rethrow}
use wudoovm.Bits.Error.{
  ArithmeticError, division_by_zero, checked_increment_overflow, checked_decrement_overflow,
  checked_addition_overflow, checked_subtraction_overflow, checked_multiplication_overflow,
  checked_division_overflow,
}
use wudoovm.Bits.Vector.{
  BitVector, binary_expand, binary_clip, binary_inversion, binary_to_bool, binary_is_negative,
  binary_last_bit_set, binary_eq, vector_eq, differ,
}
use wudoovm.Bits.Wrapping.{
  binary_increment, binary_decrement, compare_loop, addition_loop, accumulate, intermediates,
  division_loop,
}

-- A vector, or the exception thrown.
abbrev pub Checked : Type 0
Checked = Outcome ArithmeticError BitVector

-- The loop is that of `wrapping::binary_increment`, with its carry dropped.
unfoldable pub signed_increment : BitVector → Checked
signed_increment v =
    let incremented = (binary_increment v).1 in
    if not (binary_is_negative v) && binary_is_negative incremented
    then throw checked_increment_overflow
    else ok incremented

unfoldable pub signed_decrement : BitVector → Checked
signed_decrement v =
    let decremented = (binary_decrement v).1 in
    if binary_is_negative v && not (binary_is_negative decremented)
    then throw checked_decrement_overflow
    else ok decremented

unfoldable pub take_twos_complement : BitVector → Checked
take_twos_complement v = signed_increment (binary_inversion v)

unfoldable pub absolute : BitVector → Checked
absolute v = if binary_is_negative v then take_twos_complement v else ok v

unfoldable pub signed_lt : BitVector → BitVector → Outcome ArithmeticError Bool
signed_lt lhs rhs =
    let l = binary_expand lhs (max (length lhs) (length rhs)) in
    let r = binary_expand rhs (max (length l) (length rhs)) in
    if binary_is_negative l && not (binary_is_negative r)
    then ok true
    else if not (binary_is_negative l) && binary_is_negative r
    then ok false
    else (do l' ← absolute l; r' ← absolute r; ok (compare_loop l' r' true (length l' - 1)))

-- The sign that `signed_add` expects of its result.
unfoldable pub sum_should_be_negative : BitVector → BitVector → Outcome ArithmeticError Bool
sum_should_be_negative lhs rhs =
    let lhs_negative = binary_is_negative lhs in
    let rhs_negative = binary_is_negative rhs in
    do
      below ← if lhs_negative && not rhs_negative then signed_lt rhs lhs else ok false
      above ← if not lhs_negative && rhs_negative then signed_lt lhs lhs else ok false
      ok (lhs_negative && rhs_negative || below || above)

unfoldable pub signed_add : BitVector → BitVector → Checked
signed_add lhs rhs = do
  result_should_be_negative ← sum_should_be_negative lhs rhs
  let result = (addition_loop (max (length lhs) (length rhs)) false lhs rhs).0
  if differ result_should_be_negative (binary_is_negative result)
      then throw checked_addition_overflow
      else ok result

unfoldable pub signed_sub : BitVector → BitVector → Checked
signed_sub lhs rhs =
    let width = max (length lhs) (length rhs) in
    if vector_eq lhs rhs then ok (replicate (length lhs) false) else (do
      rhs_used ←
          rethrow checked_subtraction_overflow (take_twos_complement (binary_expand rhs width))
      sum ← rethrow checked_subtraction_overflow (signed_add (binary_expand lhs width) rhs_used)
      ok (binary_clip sum (length lhs)))

-- `last_set and *last_set >= width`.
unfoldable pub set_beyond : BitVector → ℕ → Bool
set_beyond v width = elim (binary_last_bit_set v) [ none ↦ false | some i ↦ leb width i ]

-- The full, unclipped product.
unfoldable pub full_product : BitVector → BitVector → BitVector
full_product lhs rhs = accumulate (replicate (length lhs) false) (intermediates lhs rhs)

-- The body of `signed_mul`, which calls itself on absolute values. The fuel bounds that
-- recursion.
unfoldable pub multiply_at : ℕ → BitVector → BitVector → Checked
unfolding set_beyond full_product
multiply_at zero lhs rhs = unfinished
multiply_at (suc fuel) lhs rhs =
    let lhs_negative = binary_is_negative lhs in
    let rhs_negative = binary_is_negative rhs in
    let result_should_be_negative = differ lhs_negative rhs_negative in
    let result = full_product lhs rhs in
    let clipped = binary_clip result (length lhs) in
    let overflow = λ (e : Bool). if e then throw checked_multiplication_overflow else ok tt in
    let compare_absolutes = λ (_ : Unit {0}). (do
      lhs_abs ← rethrow checked_multiplication_overflow (absolute lhs)
      rhs_abs ← rethrow checked_multiplication_overflow (absolute rhs)
      product ← multiply_at fuel lhs_abs rhs_abs
      overflow (not (vector_eq clipped product))) in
    do
      if set_beyond result (length lhs)
          then (do
            if not result_should_be_negative && (lhs_negative || rhs_negative)
                then compare_absolutes tt
                else ok tt
            overflow (not (lhs_negative || rhs_negative)))
          else ok tt
      overflow (differ result_should_be_negative (binary_is_negative clipped))
      ok clipped

unfoldable pub signed_mul : BitVector → BitVector → Checked
unfolding multiply_at
signed_mul lhs rhs = multiply_at 2 lhs rhs

unfoldable pub signed_div : BitVector → BitVector → Checked
unfolding division_loop
signed_div dividend rhs =
    let quotinent = replicate (length dividend) false in
    let negative_quotinent = differ (binary_is_negative rhs) (binary_is_negative dividend) in
    if not (binary_to_bool rhs)
    then throw division_by_zero
    else if binary_eq rhs dividend
    then ok (binary_increment quotinent).1
    else rethrow checked_division_overflow (do
      divisor ← absolute rhs
      remainder ← absolute dividend
      q ← division_loop (2 ^ length dividend) divisor remainder quotinent
      if negative_quotinent then take_twos_complement q else ok q)
