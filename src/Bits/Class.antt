-- ===== src/Bits/Class.antt =====
-- The class `viua::types::Bits` of src/types/bits.cpp. A method that changes the object returns
-- the new object; one that may throw also keeps what was written before the exception.
pub mod Rotate
pub mod Arithmetic
pub mod Shifting
pub mod Contents
use wudoovm.Common.{
  ℕ, zero, suc, ◌+◌, ◌*◌, ◌^◌, min, Bool, false, not, ◌&&◌, ◌||◌, List, [], ◌∷◌, length, get_or,
  set, replicate, bit_and, ltb, ◌==◌, if◌then◌else◌,
}
use wudoovm.Common.Outcome.{Outcome, ok, throw, ◌>>=◌}
use wudoovm.Bits.Error.{ArithmeticError, out_of_range}
use wudoovm.Bits.Vector.{
  BitVector, to_string, binary_clip, binary_inversion, binary_to_bool, vector_eq, differ,
}
use wudoovm.Bits.Shift.{binary_shl, binary_shr, sub_size}
use wudoovm.Bits.Wrapping.{
  binary_increment, binary_decrement, binary_addition, binary_subtraction, binary_multiplication,
  binary_division,
}
use wudoovm.Bits.Checked
use wudoovm.Bits.Saturating

pub record Bits : Type 0 where
  pub underlying_array : BitVector

abbrev pub of_vector : BitVector → Bits
of_vector v = record { underlying_array = v }

abbrev pub size : Bits → ℕ
size b = length b.underlying_array

-- A result, or the exception thrown.
abbrev pub Fallible : Type 0 → Type 0
Fallible A = Outcome ArithmeticError A

unfoldable pub str : Bits → List ℕ
str b = to_string b.underlying_array

unfoldable pub boolean : Bits → Bool
boolean b = binary_to_bool b.underlying_array

unfoldable pub at : Bits → ℕ → Fallible Bool
at b i = if ltb i (size b) then ok (get_or b.underlying_array i false) else throw out_of_range

-- The new object and the old bit.
unfoldable pub set_bit : Bits → ℕ → Bool → Fallible (Bits × Bool)
unfolding at
set_bit b i value = do was ← at b i; ok (of_vector (set b.underlying_array i value), was)

-- The loop of `clear`.
unfoldable pub clear_loop : ℕ → ℕ → Bits → Bits
clear_loop zero i b = b
clear_loop (suc left) i b = clear_loop left (i + 1) (of_vector (set b.underlying_array i false))

unfoldable pub clear : Bits → Bits
unfolding clear_loop
clear b = clear_loop (size b) 0 b

-- The new object, and the bits that were shifted out.
unfoldable pub shl : Bits → ℕ → Bits × Bits
shl b n = let (shifted, v) = binary_shl b.underlying_array n in (of_vector v, of_vector shifted)

unfoldable pub shr_padding : Bits → ℕ → Bool → Bits × Bits
shr_padding b n padding =
    let (shifted, v) = binary_shr b.underlying_array n padding in (of_vector v, of_vector shifted)

unfoldable pub shr : Bits → ℕ → Bits × Bits
unfolding shr_padding
shr b n = shr_padding b n false

unfoldable pub ashl : Bits → ℕ → Fallible (Bits × Bits)
unfolding at set_bit shl
ashl b n = do
  sign ← at b (sub_size (size b) 1)
  let after = (shl b n).0
  done ← set_bit after (sub_size (size after) 1) sign
  ok (done.0, (shl b n).1)

unfoldable pub ashr : Bits → ℕ → Fallible (Bits × Bits)
unfolding at shr_padding
ashr b n = do sign ← at b (sub_size (size b) 1); ok (shr_padding b n sign)

-- The object after a loop of writes, and the exception that ended the loop early.
abbrev pub Written : Type 0
Written = Bits × Fallible (Unit {0})

-- The loop of `rol`: `left` rounds from index `i`.
unfoldable pub rol_loop : ℕ → ℕ → BitVector → Bits → Written
rol_loop zero i shifted b = (b, ok tt)
rol_loop (suc left) i shifted b =
    let more =
      rol_loop left (i + 1) shifted
        (of_vector (set b.underlying_array i (get_or shifted i false))) in
    if ltb i (size b) then more else (b, throw out_of_range)

unfoldable pub rol : Bits → ℕ → Written
unfolding shl rol_loop
rol b n =
    let shifted = (shl b n).1.underlying_array in rol_loop (length shifted) 0 shifted (shl b n).0

-- The loop of `ror`, of which `offset` rounds are made in all.
unfoldable pub ror_loop : ℕ → ℕ → ℕ → BitVector → Bits → Written
ror_loop zero i offset shifted b = (b, ok tt)
ror_loop (suc left) i offset shifted b =
    let target_index = sub_size (sub_size (size b) 1) i in
    let source_index = sub_size (sub_size offset 1) i in
    let more =
      ror_loop left (i + 1) offset shifted
        (of_vector (set b.underlying_array target_index (get_or shifted source_index false))) in
    if ltb target_index (size b) then more else (b, throw out_of_range)

unfoldable pub ror : Bits → ℕ → Written
unfolding shr ror_loop
ror b n =
    let shifted = (shr b n).1.underlying_array in
    ror_loop (length shifted) 0 (length shifted) shifted (shr b n).0

unfoldable pub inverted : Bits → Bits
inverted b = of_vector (binary_inversion b.underlying_array)

unfoldable pub increment : Bits → Bits
increment b = of_vector (binary_increment b.underlying_array).1

unfoldable pub decrement : Bits → Bits
decrement b = of_vector (binary_decrement b.underlying_array).1

unfoldable pub wrapadd : Bits → Bits → Bits
wrapadd b that =
    of_vector (binary_clip (binary_addition b.underlying_array that.underlying_array) (size b))

unfoldable pub wrapsub : Bits → Bits → Bits
wrapsub b that =
    of_vector (binary_clip (binary_subtraction b.underlying_array that.underlying_array) (size b))

unfoldable pub wrapmul : Bits → Bits → Bits
wrapmul b that =
    of_vector
      (binary_clip (binary_multiplication b.underlying_array that.underlying_array) (size b))

-- The vector that a call returns, clipped to a width where the method clips, as an object.
abbrev to_bits : Fallible BitVector → Fallible Bits
to_bits m = m >>= λ v. ok (of_vector v)

abbrev clip_to_bits : ℕ → Fallible BitVector → Fallible Bits
clip_to_bits width m = m >>= λ v. ok (of_vector (binary_clip v width))

unfoldable pub wrapdiv : Bits → Bits → Fallible Bits
wrapdiv b that = clip_to_bits (size b) (binary_division b.underlying_array that.underlying_array)

unfoldable pub checked_signed_increment : Bits → Fallible Bits
checked_signed_increment b = to_bits (Checked.signed_increment b.underlying_array)

unfoldable pub checked_signed_decrement : Bits → Fallible Bits
checked_signed_decrement b = to_bits (Checked.signed_decrement b.underlying_array)

unfoldable pub checked_signed_add : Bits → Bits → Fallible Bits
checked_signed_add b that =
    clip_to_bits (size b) (Checked.signed_add b.underlying_array that.underlying_array)

unfoldable pub checked_signed_sub : Bits → Bits → Fallible Bits
checked_signed_sub b that =
    clip_to_bits (size b) (Checked.signed_sub b.underlying_array that.underlying_array)

unfoldable pub checked_signed_mul : Bits → Bits → Fallible Bits
checked_signed_mul b that = to_bits (Checked.signed_mul b.underlying_array that.underlying_array)

unfoldable pub checked_signed_div : Bits → Bits → Fallible Bits
checked_signed_div b that = to_bits (Checked.signed_div b.underlying_array that.underlying_array)

unfoldable pub saturating_signed_increment : Bits → Bits
saturating_signed_increment b = of_vector (Saturating.signed_increment b.underlying_array)

unfoldable pub saturating_signed_decrement : Bits → Bits
saturating_signed_decrement b = of_vector (Saturating.signed_decrement b.underlying_array)

unfoldable pub saturating_signed_add : Bits → Bits → Bits
saturating_signed_add b that =
    of_vector
      (binary_clip (Saturating.signed_add b.underlying_array that.underlying_array) (size b))

unfoldable pub saturating_signed_sub : Bits → Bits → Bits
saturating_signed_sub b that =
    of_vector
      (binary_clip (Saturating.signed_sub b.underlying_array that.underlying_array) (size b))

unfoldable pub saturating_signed_mul : Bits → Bits → Fallible Bits
saturating_signed_mul b that =
    to_bits (Saturating.signed_mul b.underlying_array that.underlying_array)

unfoldable pub saturating_signed_div : Bits → Bits → Fallible Bits
saturating_signed_div b that =
    to_bits (Saturating.signed_div b.underlying_array that.underlying_array)

unfoldable pub equals : Bits → Bits → Bool
equals b that = size b == size that && vector_eq b.underlying_array that.underlying_array

-- The loop of `perform_bitwise_logic`, with `left` rounds from index `i`.
unfoldable pub logic_loop :
    (Bool → Bool → Bool) → ℕ → ℕ → BitVector → BitVector → BitVector → BitVector
logic_loop f zero i lhs rhs result = result
logic_loop f (suc left) i lhs rhs result =
    logic_loop f left (i + 1) lhs rhs (set result i (f (get_or lhs i false) (get_or rhs i false)))

unfoldable pub perform_bitwise_logic : (Bool → Bool → Bool) → Bits → Bits → Bits
unfolding logic_loop
perform_bitwise_logic f lhs rhs = of_vector (
    logic_loop f (min (size lhs) (size rhs)) 0 lhs.underlying_array rhs.underlying_array
      (replicate (size lhs) false))

unfoldable pub bitwise_or : Bits → Bits → Bits
unfolding perform_bitwise_logic
bitwise_or lhs rhs = perform_bitwise_logic ◌||◌ lhs rhs

unfoldable pub bitwise_and : Bits → Bits → Bits
unfolding perform_bitwise_logic
bitwise_and lhs rhs = perform_bitwise_logic ◌&&◌ lhs rhs

unfoldable pub bitwise_xor : Bits → Bits → Bits
unfolding perform_bitwise_logic
bitwise_xor lhs rhs = perform_bitwise_logic differ lhs rhs

-- `Bits(size_type)`.
unfoldable pub of_size : ℕ → Bits
of_size i = of_vector (replicate i false)

-- The inner loop of `Bits(std::vector<uint8_t>)`: `left` bits of a byte, written from index
-- `base + i`.
unfoldable pub write_byte : ℕ → ℕ → ℕ → ℕ → BitVector → BitVector
write_byte zero i base a_byte v = v
write_byte (suc left) i base a_byte v =
    write_byte left (i + 1) base a_byte (set v (base + i) (not (bit_and a_byte (2 ^ i) == 0)))

-- The outer loop, from a byte index.
unfoldable pub write_bytes : ℕ → List ℕ → BitVector → BitVector
write_bytes byte_index [] v = v
write_bytes byte_index (a_byte ∷ rest) v =
    write_bytes (byte_index + 1) rest (write_byte 8 0 (byte_index * 8) a_byte v)

unfoldable pub of_bytes : List ℕ → Bits
unfolding write_bytes
of_bytes bytes = of_vector (write_bytes 0 bytes (replicate (length bytes * 8) false))
