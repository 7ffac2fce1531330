-- ===== src/Bits/Saturating.antt =====
-- Namespace `viua::arithmetic::saturating` of src/types/bits.cpp. Nothing in it but
-- `signed_div` throws, so that the handlers of `signed_sub` and `signed_mul` are never entered.
pub mod Increment
pub mod Decrement
pub mod Addition
use wudoovm.Common.{
  ℕ, zero, suc, ◌-◌, ◌^◌, max, Bool, true, false, not, ◌&&◌, ◌||◌, [], ◌∷◌, ◌++◌, length, get_or,
  replicate, if◌then◌else◌,
}
use wudoovm.Common.Outcome.{ok, throw, unfinished, ◌>>=◌}
use wudoovm.Bits.Error.{division_by_zero}
use wudoovm.Bits.Vector.{
  BitVector, back, binary_expand, binary_clip, binary_inversion, binary_to_bool, binary_is_negative,
  binary_eq, vector_eq, differ,
}
use wudoovm.Bits.Wrapping.{
  binary_increment, binary_decrement, compare_loop, addition_loop, division_loop,
}
use wudoovm.Bits.Checked.{Checked, set_beyond, full_product}

unfoldable pub signed_make_max : ℕ → BitVector
signed_make_max n = replicate (n - 1) true ++ false ∷ []

unfoldable pub signed_make_min : ℕ → BitVector
signed_make_min n = replicate (n - 1) false ++ true ∷ []

-- The loop of `signed_is_min`, with `left` rounds from index `i`.
unfoldable pub none_set : ℕ → ℕ → BitVector → Bool
none_set zero i v = true
none_set (suc left) i v = if get_or v i false then false else none_set left (suc i) v

unfoldable pub signed_is_min : BitVector → Bool
unfolding none_set
signed_is_min v = if not (back v) then false else none_set (length v - 1) 0 v

unfoldable pub signed_increment : BitVector → BitVector
signed_increment v =
    let incremented = (binary_increment v).1 in
    if not (binary_is_negative v) && binary_is_negative incremented
    then signed_make_max (length v)
    else incremented

unfoldable pub signed_decrement : BitVector → BitVector
signed_decrement v = if signed_is_min v then v else (binary_decrement v).1

unfoldable pub take_twos_complement : BitVector → BitVector
take_twos_complement v = signed_increment (binary_inversion v)

unfoldable pub absolute : BitVector → BitVector
absolute v = if binary_is_negative v then take_twos_complement v else v

unfoldable pub signed_lt : BitVector → BitVector → Bool
signed_lt lhs rhs =
    let l = binary_expand lhs (max (length lhs) (length rhs)) in
    let r = binary_expand rhs (max (length l) (length rhs)) in
    if binary_is_negative l && not (binary_is_negative r)
    then true
    else if not (binary_is_negative l) && binary_is_negative r
    then false
    else (let l' = absolute l in let r' = absolute r in compare_loop l' r' true (length l' - 1))

-- The sign that `signed_add` expects of its result.
unfoldable pub sum_should_be_negative : BitVector → BitVector → Bool
sum_should_be_negative lhs rhs =
    let lhs_negative = binary_is_negative lhs in
    let rhs_negative = binary_is_negative rhs in
    lhs_negative && rhs_negative
    || lhs_negative && not rhs_negative && signed_lt rhs lhs
    || not lhs_negative && rhs_negative && signed_lt lhs lhs

unfoldable pub signed_add : BitVector → BitVector → BitVector
signed_add lhs rhs =
    let result_should_be_negative = sum_should_be_negative lhs rhs in
    let result = (addition_loop (max (length lhs) (length rhs)) false lhs rhs).0 in
    let result' =
      if result_should_be_negative && not (binary_is_negative result)
      then signed_make_min (length lhs)
      else result in
    if not result_should_be_negative && binary_is_negative result'
    then signed_make_max (length lhs)
    else result'

unfoldable pub signed_sub : BitVector → BitVector → BitVector
signed_sub lhs rhs =
    let width = max (length lhs) (length rhs) in
    let rhs_used = take_twos_complement (binary_expand rhs width) in
    let r = binary_clip (signed_add (binary_expand lhs width) rhs_used) (length lhs) in
    if vector_eq lhs rhs
    then replicate (length lhs) false
    else if signed_is_min rhs
    then signed_increment r
    else r

-- The body of `signed_mul`, which calls itself on absolute values. The fuel bounds that
-- recursion.
unfoldable pub multiply_at : ℕ → BitVector → BitVector → Checked
multiply_at zero lhs rhs = unfinished
multiply_at (suc fuel) lhs rhs =
    let lhs_negative = binary_is_negative lhs in
    let rhs_negative = binary_is_negative rhs in
    let result_should_be_negative = differ lhs_negative rhs_negative in
    let product = full_product lhs rhs in
    let clipped = binary_clip product (length lhs) in
    let compare_absolutes = λ (_ : Unit {0}). (do
      p ← multiply_at fuel (absolute lhs) (absolute rhs)
      ok (if vector_eq clipped p then clipped else signed_make_min (length lhs))) in
    do
      result ←
          (if set_beyond product (length lhs)
            then (do
              compared ←
                  (if not result_should_be_negative && (lhs_negative || rhs_negative)
                    then compare_absolutes tt
                    else ok clipped)
              ok (
                  if not (lhs_negative || rhs_negative)
                  then signed_make_max (length lhs)
                  else compared))
            else ok clipped)
      ok (
          if differ result_should_be_negative (binary_is_negative result)
          then (if result_should_be_negative
              then signed_make_min (length lhs)
              else signed_make_max (length lhs))
          else result)

unfoldable pub signed_mul : BitVector → BitVector → Checked
unfolding multiply_at
signed_mul lhs rhs = multiply_at 2 lhs rhs

unfoldable pub signed_div : BitVector → BitVector → Checked
unfolding division_loop
signed_div dividend divisor =
    let quotinent = replicate (length dividend) false in
    let negative_quotinent = differ (binary_is_negative divisor) (binary_is_negative dividend) in
    if not (binary_to_bool divisor)
    then throw division_by_zero
    else if signed_is_min divisor
    then ok quotinent
    else if binary_eq divisor dividend
    then ok (binary_increment quotinent).1
    else (do
      q ← division_loop (2 ^ length dividend) (absolute divisor) (absolute dividend) quotinent
      ok (if negative_quotinent then take_twos_complement q else q))
