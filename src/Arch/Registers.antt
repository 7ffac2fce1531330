-- ===== src/Arch/Registers.antt =====
-- The encoding of `Register_access` (new/src/arch/arch.cpp) as numbers.
use wudoovm.Common.{
  ℕ, ◌+◌, ◌*◌, ◌/◌, ◌%◌, ◌^◌, ◌<◌, ◌≡◌, refl, sym, ap, ◌∙◌, Bool, true, false, not, bit_and, arith,
  ◌==◌,
}
use wudoovm.Arch.Access.{
  RegisterAccess, from_raw, to_raw, register_access, bool_bit, decode, encode,
}
use wudoovm.Arch.Fields.{read_field, or_above}
use wudoovm.Common.Words.{low_mask_bits, mask_bits}

-- An index of eight bits, and one of the enumerators.
abbrev pub IsAccess : RegisterAccess → Type 0
IsAccess a = (a.index < 256) × (to_raw a.set < 4) × (from_raw (to_raw a.set) ≡ a.set)

bool_bit-le : (b : Bool) → bool_bit b < 2
bool_bit-le true = omega arith
bool_bit-le false = omega arith

pub encode_sum :
    (a : RegisterAccess)
    → a.index < 256
    → to_raw a.set < 8
    → encode a ≡ a.index + 256 * bool_bit a.direct + 512 * to_raw a.set
unfolding encode
encode_sum a hi hs =
    let bound = bool_bit-le a.direct in
    let first = or_above 8 a.index (bool_bit a.direct) hi in
    let second = or_above 9 (a.index + 2 ^ 8 * bool_bit a.direct) (to_raw a.set) (omega arith) in
    let small : to_raw a.set % 2 ^ 16 ≡ to_raw a.set = omega arith in
    rw (small, first) (omega (arith, second))

decode_parts :
    (raw : ℕ)
    → decode raw ≡ register_access (from_raw (raw / 512 % 8)) (not (raw / 256 % 2 == 0)) (raw % 256)
unfolding decode
decode_parts raw =
    let set : bit_and raw 0x0e00 / 2 ^ 9 ≡ raw / 512 % 8 = read_field 9 3 raw in
    let masked : bit_and raw 0x0100 ≡ 256 * bit_and (raw / 256) 1 = mask_bits 8 1 raw in
    let bit : bit_and (raw / 256) 1 ≡ raw / 256 % 2 = low_mask_bits 1 (raw / 256) in
    let index : bit_and raw 0x00ff ≡ raw % 256 = low_mask_bits 8 raw in
    let mode : not (bit_and raw 0x0100 == 0) ≡ not (raw / 256 % 2 == 0) = ground arith in
    rw (set, mode) (ap (register_access _ _) (omega (arith, index)))

mode_bit : (b : Bool) (n : ℕ) → n ≡ bool_bit b → not (n == 0) ≡ b
mode_bit true n e = ground arith
mode_bit false n e = ground arith

bit_mode : (n : ℕ) → n < 2 → bool_bit (not (n == 0)) ≡ n
bit_mode n h = ground arith

to_raw-from_raw : (n : ℕ) → to_raw (from_raw n) ≡ n
to_raw-from_raw n = ground arith

-- Decoding undoes encoding, for an access with an index of eight bits and a named register set.
pub decode-encode : (a : RegisterAccess) → IsAccess a → decode (encode a) ≡ a
decode-encode a (hi, hs, named) =
    let raw = encode a in
    let sum = encode_sum a hi (omega arith) in
    let set : raw / 512 % 8 ≡ to_raw a.set = omega (arith, sum, bool_bit-le a.direct) in
    let mode : not (raw / 256 % 2 == 0) ≡ a.direct =
      mode_bit a.direct (raw / 256 % 2) (omega (arith, sum, bool_bit-le a.direct)) in
    let index : raw % 256 ≡ a.index = omega (arith, sum) in
    decode_parts raw ∙ rw (set, mode, index, named) refl

-- Encoding undoes decoding up to the four highest bits, which `decode` ignores.
encode-decode : (raw : ℕ) → encode (decode raw) ≡ raw % 4096
encode-decode raw =
    let set = to_raw-from_raw (raw / 512 % 8) in
    let mode = bit_mode (raw / 256 % 2) (omega arith) in
    let parts = register_access (from_raw (raw / 512 % 8)) (not (raw / 256 % 2 == 0)) (raw % 256) in
    let sum = encode_sum parts (omega arith) (omega (arith, set)) in
    ap encode (decode_parts raw) ∙ sum ∙ omega (arith, set, mode)

-- An access takes at most eleven bits.
pub encode-lt : (a : RegisterAccess) → IsAccess a → encode a < 2048
encode-lt a (hi, hs, named) = omega (arith, encode_sum a hi (omega arith), bool_bit-le a.direct)

-- `decode` ignores the four highest bits.
pub decode_high : (raw h : ℕ) → decode (raw + 4096 * h) ≡ decode raw
decode_high raw h =
    let set : (raw + 4096 * h) / 512 % 8 ≡ raw / 512 % 8 = omega arith in
    let mode : (raw + 4096 * h) / 256 % 2 ≡ raw / 256 % 2 = omega arith in
    let index : (raw + 4096 * h) % 256 ≡ raw % 256 = omega arith in
    decode_parts (raw + 4096 * h) ∙ rw (set, mode, index) (sym (decode_parts raw))
