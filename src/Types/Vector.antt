-- ===== src/Types/Vector.antt =====
-- `viua::types::Vector` of src/types/vector.cpp. The values it owns are those of a parameter. An
-- index counts from the front, or, where it is negative, from the back.
pub mod Cases
pub mod RoundTrip
use wudoovm.Common.{
  ℕ, zero, suc, ◌%◌, ◌^◌, Bool, true, false, not, ◌&&◌, Option, none, some, List, [], ◌∷◌, ◌++◌,
  length, get_elem?, take, drop, ◌==◌, ltb, leb, if◌then◌else◌,
}
use wudoovm.Common.Int.{ℤ, pos, negsuc, pos_part, neg_part, ◌+ℤ◌}
use wudoovm.Common.Outcome.{Outcome, ok, throw, ◌>>=◌, ◌>>◌}
use wudoovm.Codec.Decoder.{to_int32}

-- The exceptions with the tag `Out_of_bounds`, and an iterator outside of the vector.
pub data Fault : Type 0 where
  positive_index : ℤ → ℕ → Fault
  negative_index : ℤ → ℕ → Fault
  empty_vector : ℤ → Fault
  undefined : Fault

abbrev pub is_positive : ℤ → Bool
is_positive (pos zero) = false
is_positive (pos (suc n)) = true
is_positive (negsuc n) = false

abbrev pub is_negative : ℤ → Bool
is_negative (pos n) = false
is_negative (negsuc n) = true

-- The tests of `insert`, which may also place the object behind the last one.
abbrev pub check_insert : ℤ → ℕ → Outcome Fault (Unit {0})
check_insert index size =
    if is_positive index && ltb size (pos_part index)
    then throw (positive_index index size)
    else if is_negative index && ltb size (neg_part index)
    then throw (negative_index index size)
    else ok tt

-- The tests of `pop` and `at`.
abbrev pub check_access : ℤ → ℕ → Outcome Fault (Unit {0})
check_access index size =
    if size == 0
    then throw (empty_vector index)
    else if is_positive index && leb size (pos_part index)
    then throw (positive_index index size)
    else if is_negative index && ltb size (neg_part index)
    then throw (negative_index index size)
    else ok tt

unfoldable pub offset_of : ℤ → ℕ → ℤ
unfolding ◌+ℤ◌
offset_of index size = if is_negative index then pos size +ℤ index else index

-- `internal_object.begin() + offset`, with the offset of the end allowed.
abbrev pub position : ℤ → ℕ → Outcome Fault ℕ
position (pos o) size = if leb o size then ok o else throw undefined
position (negsuc o) size = throw undefined

module _ {V : Type 0} where
  -- `*it`.
  abbrev pub dereference : Option V → Outcome Fault V
  dereference none = throw undefined
  dereference (some x) = ok x

  unfoldable pub insert : List V → ℤ → V → Outcome Fault (List V)
  unfolding offset_of
  insert xs index object =
      check_insert index (length xs)
      >> (position (offset_of index (length xs)) (length xs) >>= λ it.
          ok (take it xs ++ (object ∷ drop it xs)))

  unfoldable pub push : List V → V → List V
  push xs object = xs ++ (object ∷ [])

  -- The object that is taken out, and what is left.
  unfoldable pub pop : List V → ℤ → Outcome Fault (V × List V)
  unfolding offset_of
  pop xs index =
      check_access index (length xs)
      >> (position (offset_of index (length xs)) (length xs) >>= λ it.
          dereference (get_elem? xs it) >>= λ object. ok (object, take it xs ++ drop (suc it) xs))

  unfoldable pub at : List V → ℤ → Outcome Fault V
  unfolding offset_of
  at xs index =
      check_access index (length xs)
      >> (position (offset_of index (length xs)) (length xs) >>= λ it.
          dereference (get_elem? xs it))

  -- The size as an `int` of 32 bits.
  unfoldable pub vlen : List V → ℤ
  vlen xs = to_int32 (length xs % 2 ^ 32)

  unfoldable pub boolean : List V → Bool
  boolean xs = not (length xs == 0)

  -- The loop of `copy`, with the objects not yet copied; `copy_of` is how an object copies itself.
  unfoldable pub copy_loop : (V → V) → List V → List V → List V
  unfolding push
  copy_loop copy_of [] v = v
  copy_loop copy_of (x ∷ xs) v = copy_loop copy_of xs (push v (copy_of x))

  unfoldable pub copy : (V → V) → List V → List V
  unfolding copy_loop
  copy copy_of xs = copy_loop copy_of xs []
