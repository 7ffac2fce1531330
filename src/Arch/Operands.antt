-- ===== src/Arch/Operands.antt =====
-- The operand registers of an instruction of new/src/arch/ops.cpp as digits of its number.
use wudoovm.Common.{ℕ, ◌+◌, ◌*◌, ◌/◌, ◌%◌, ◌^◌, ◌<◌, ◌≡◌, ap, ◌∙◌, bit_and, bit_or, arith}
use wudoovm.Common.Words.{low_mask_bits}
use wudoovm.Arch.Access
use wudoovm.Arch.Access.{RegisterAccess}
use wudoovm.Arch.Registers.{IsAccess, decode-encode, decode_high, encode-lt}
use wudoovm.Arch.Fields.{read_field, or_above}
use wudoovm.Arch.Formats.{◌<<◌, ◌>>◌, read_opcode, read_out, read_in}

pub read_opcode-mod : (raw : ℕ) → read_opcode raw ≡ raw % 65536
read_opcode-mod raw =
    let low : bit_and raw 0xffff ≡ raw % 65536 = low_mask_bits 16 raw in omega (arith, low)

-- The register that is read from a number whose digit has the register's encoding, below four
-- bits `h` of something else.
pub read_out_access :
    (raw rest h op : ℕ) (a : RegisterAccess)
    → IsAccess a
    → op < 65536
    → h < 16
    → raw ≡ op + 65536 * (Access.encode a + 4096 * h + 65536 * rest)
    → read_out raw ≡ a
read_out_access raw rest h op a valid hop hh e =
    let field : bit_and raw 0x00000000ffff0000 / 2 ^ 16 ≡ raw / 2 ^ 16 % 2 ^ 16 =
      read_field 16 16 raw in
    let small = encode-lt a valid in
    let code : (bit_and raw 0x00000000ffff0000 >> 16) % 2 ^ 16 ≡ Access.encode a + 4096 * h =
      omega (arith, field, small) in
    ap Access.decode code ∙ decode_high (Access.encode a) h ∙ decode-encode a valid

pub read_in_access :
    (raw rest h low : ℕ) (a : RegisterAccess)
    → IsAccess a
    → low < 4294967296
    → h < 16
    → raw ≡ low + 4294967296 * (Access.encode a + 4096 * h + 65536 * rest)
    → read_in raw ≡ a
read_in_access raw rest h low a valid hlow hh e =
    let field : bit_and raw 0x0000ffff00000000 / 2 ^ 32 ≡ raw / 2 ^ 32 % 2 ^ 16 =
      read_field 32 16 raw in
    let small = encode-lt a valid in
    let code : (bit_and raw 0x0000ffff00000000 >> 32) % 2 ^ 16 ≡ Access.encode a + 4096 * h =
      omega (arith, field, small) in
    ap Access.decode code ∙ decode_high (Access.encode a) h ∙ decode-encode a valid

-- The numbers that the first steps of `encode` make.
pub with_out : (op x : ℕ) → op < 65536 → x < 65536 → bit_or op (x << 16) ≡ op + 65536 * x
with_out op x hop hx =
    let shifted : x << 16 ≡ x * 2 ^ 16 = omega arith in rw shifted (or_above 16 op x hop)

pub with_in :
    (low x : ℕ) → low < 4294967296 → x < 4294967296 → bit_or low (x << 32) ≡ low + 4294967296 * x
with_in low x hlow hx =
    let shifted : x << 32 ≡ x * 2 ^ 32 = omega arith in rw shifted (or_above 32 low x hlow)

pub with_top :
    (low x : ℕ)
    → low < 281474976710656
    → x < 65536
    → bit_or low (x << 48) ≡ low + 281474976710656 * x
with_top low x hlow hx =
    let shifted : x << 48 ≡ x * 2 ^ 48 = omega arith in rw shifted (or_above 48 low x hlow)

abbrev pub IsOpcode : ℕ → Type 0
IsOpcode op = op < 65536

-- The part of `encode` that several formats begin with.
pub with_both :
    (op out input : ℕ)
    → op < 65536
    → out < 65536
    → input < 65536
    → bit_or (bit_or op (out << 16)) (input << 32) ≡ op + 65536 * out + 4294967296 * input
with_both op out input hop ho hi =
    let first = with_out op out hop ho in
    rw first (with_in (op + 65536 * out) input (omega arith) (omega arith))
