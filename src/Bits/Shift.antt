-- ===== src/Bits/Shift.antt =====
-- `binary_shr` and `binary_shl` of src/types/bits.cpp: the in-place loops, over the vector and
-- the bits that are shifted out.
pub mod Right
pub mod Left
pub mod Edges
use wudoovm.Common.{
  ℕ, zero, suc, ◌+◌, ◌-◌, ◌%◌, ◌^◌, Bool, false, length, get_or, set, replicate, ltb, leb,
  if◌then◌else◌,
}
use wudoovm.Bits.Vector.{BitVector, binary_fill_with_zeroes}

-- a - b on `size_type`, which is 64 bits wide.
unfoldable pub sub_size : ℕ → ℕ → ℕ
sub_size a b = (a + 2 ^ 64 - b) % 2 ^ 64

-- `shifted` and `v`.
abbrev pub Shifted : Type 0
Shifted = BitVector × BitVector

-- One round of the main loop of `binary_shr`.
unfoldable pub shr_round : ℕ → Bool → ℕ → Shifted → Shifted
shr_round n padding i (shifted, v) =
    let index_of_value = i + n in
    let shifted' = if ltb i n then set shifted i (get_or v i false) else shifted in
    if ltb index_of_value (length v)
    then (shifted', set (set v i (get_or v index_of_value false)) index_of_value padding)
    else (shifted', set v i padding)

-- `left` rounds from index `i`.
unfoldable pub shr_loop : ℕ → Bool → ℕ → ℕ → Shifted → Shifted
unfolding shr_round
shr_loop n padding zero i s = s
shr_loop n padding (suc left) i s = shr_loop n padding left (i + 1) (shr_round n padding i s)

-- The loop of the case `n >= v.size()`.
unfoldable pub shr_copy : ℕ → ℕ → BitVector → BitVector → BitVector
shr_copy zero i v shifted = shifted
shr_copy (suc left) i v shifted = shr_copy left (i + 1) v (set shifted i (get_or v i false))

unfoldable pub binary_shr : BitVector → ℕ → Bool → Shifted
unfolding shr_loop shr_copy
binary_shr v n padding =
    let shifted = replicate n false in
    if leb (length v) n
    then (shr_copy (length v) 0 v shifted, binary_fill_with_zeroes v)
    else shr_loop n padding (length v) 0 (shifted, v)

-- One round of the main loop of `binary_shl`; the indices may wrap.
unfoldable pub shl_round : ℕ → ℕ → Shifted → Shifted
shl_round n i (shifted, v) =
    let index_to_set = sub_size (sub_size (length v) i) 1 in
    let index_of_value = sub_size (sub_size (sub_size (length v) n) i) 1 in
    let index_to_set_in_shifted = sub_size (sub_size n i) 1 in
    let shifted' =
      if ltb index_to_set_in_shifted n
      then set shifted index_to_set_in_shifted (get_or v index_to_set false)
      else shifted in
    if ltb index_of_value (length v)
    then (shifted', set (set v index_to_set (get_or v index_of_value false)) index_of_value false)
    else (shifted', set v index_to_set false)

unfoldable pub shl_loop : ℕ → ℕ → ℕ → Shifted → Shifted
unfolding shl_round
shl_loop n zero i s = s
shl_loop n (suc left) i s = shl_loop n left (i + 1) (shl_round n i s)

unfoldable pub shl_copy : ℕ → ℕ → BitVector → BitVector → BitVector
shl_copy zero i v shifted = shifted
shl_copy (suc left) i v shifted = shl_copy left (i + 1) v (
    set shifted (sub_size (sub_size (length shifted) 1) i)
      (get_or v (sub_size (sub_size (length v) 1) i) false))

unfoldable pub binary_shl : BitVector → ℕ → Shifted
unfolding shl_loop shl_copy
binary_shl v n =
    let shifted = replicate n false in
    if leb (length v) n
    then (shl_copy (length v) 0 v shifted, binary_fill_with_zeroes v)
    else shl_loop n (length v) 0 (shifted, v)
