-- ===== src/Arch/Immediates.antt =====
-- The formats E, R and M of new/src/arch/ops.cpp, whose immediates are split into several fields.
use wudoovm.Common.{ℕ, ◌+◌, ◌*◌, ◌/◌, ◌%◌, ◌^◌, ◌<◌, ◌≡◌, ap₂, ◌∙◌, bit_and, bit_or, arith}
use wudoovm.Common.Words.{low_mask_bits}
use wudoovm.Arch.Access
use wudoovm.Arch.Access.{RegisterAccess}
use wudoovm.Arch.Registers.{IsAccess, encode-lt}
use wudoovm.Arch.Fields.{read_field, or_above, or_below, or_inside}
use wudoovm.Arch.Formats.{◌<<◌, ◌>>◌, read_opcode, E, decode_e, encode_e, R, decode_r, encode_r}
use wudoovm.Arch.Operands.{
  read_opcode-mod, read_out_access, read_in_access, with_out, with_in, with_top, with_both,
  IsOpcode,
}

encode_e-sum :
    (i : E)
    → IsOpcode i.opcode
    → Access.encode i.out < 2048
    → i.immediate < 68719476736
    → encode_e i
      ≡ i.opcode
        + 65536 * (Access.encode i.out + 4096 * (i.immediate / 4294967296))
        + 4294967296 * (i.immediate % 4294967296)
unfolding encode_e
encode_e-sum i hop so him =
    let high : bit_and i.immediate 0x0000000f00000000 / 2 ^ 32 ≡ i.immediate / 2 ^ 32 % 2 ^ 4 =
      read_field 32 4 i.immediate in
    let low : bit_and i.immediate 0x00000000ffffffff ≡ i.immediate % 2 ^ 32 =
      low_mask_bits 32 i.immediate in
    let nibble : (bit_and i.immediate 0x0000000f00000000 >> 32) << 28
        ≡ i.immediate / 4294967296 * 2 ^ 28 =
      omega (arith, high) in
    let start = with_out i.opcode (Access.encode i.out) hop (omega (arith, so)) in
    let middle =
      or_above 28 (i.opcode + 65536 * Access.encode i.out) (i.immediate / 4294967296)
        (omega (arith, so)) in
    let sum =
      with_in (i.opcode + 65536 * Access.encode i.out + 2 ^ 28 * (i.immediate / 4294967296))
        (i.immediate % 4294967296) (omega (arith, so)) (omega arith) in
    rw (low, nibble, start, middle) (sum ∙ omega arith)

-- An instruction of format E, with an opcode of 16 bits, a valid register and an immediate of 36
-- bits, is recovered.
decode_e-encode_e :
    (i : E)
    → IsOpcode i.opcode
    → IsAccess i.out
    → i.immediate < 68719476736
    → decode_e (encode_e i) ≡ i
unfolding decode_e
decode_e-encode_e i hop ho him =
    let so = encode-lt i.out ho in
    let sum = encode_e-sum i hop so him in
    let raw = encode_e i in
    let high_bits : bit_and (raw / 2 ^ 28) 0xf ≡ raw / 2 ^ 28 % 2 ^ 4 =
      low_mask_bits 4 (raw / 2 ^ 28) in
    let low_bits : bit_and (raw / 2 ^ 32) 0xffffffff ≡ raw / 2 ^ 32 % 2 ^ 32 =
      low_mask_bits 32 (raw / 2 ^ 32) in
    let high : bit_and (raw >> 28) 0xf << 32 ≡ 2 ^ 32 * (i.immediate / 4294967296) =
      omega (arith, high_bits, sum, so) in
    let low : bit_and (raw >> 32) 0x00000000ffffffff ≡ i.immediate % 4294967296 =
      omega (arith, low_bits, sum, so) in
    let joined = or_below 32 (i.immediate % 4294967296) (i.immediate / 4294967296) (omega arith) in
    let op : read_opcode raw ≡ i.opcode = read_opcode-mod raw ∙ omega (arith, sum) in
    let out =
      read_out_access raw (i.immediate % 4294967296) (i.immediate / 4294967296) i.opcode i.out ho
        hop (omega arith) (omega (arith, sum)) in
    let immediate = ap₂ bit_or high low ∙ joined ∙ omega arith in
    λ k. record { opcode = op k; out = out k; immediate = immediate k }

-- The four fields above the registers, when two nibbles are put on top of the registers.
with_nibbles :
    (op out input short high low : ℕ)
    → op < 65536
    → out < 2048
    → input < 2048
    → short < 65536
    → high < 16
    → low < 16
    → bit_or
        (bit_or (op + 65536 * out + 4294967296 * input + 281474976710656 * short) (high << 28))
        (low << 44)
      ≡ op + 65536 * (out + 4096 * high) + 4294967296 * (input + 4096 * low + 65536 * short)
with_nibbles op out input short high low hop ho hi hs hh hl =
    let h : high << 28 ≡ high * 2 ^ 28 = omega arith in
    let l : low << 44 ≡ low * 2 ^ 44 = omega arith in
    let at_28 : op + 65536 * out + 4294967296 * input + 281474976710656 * short
        ≡ (op + 65536 * out) + 2 ^ 28 * (2 ^ 4 * (input + 65536 * short)) =
      omega arith in
    let first =
      or_inside 28 (op + 65536 * out) (2 ^ 4 * (input + 65536 * short)) high (omega arith) in
    let nibble = or_below 4 high (input + 65536 * short) hh in
    let at_44 : (op + 65536 * out) + 2 ^ 28 * (high + 2 ^ 4 * (input + 65536 * short))
        ≡ (op + 65536 * (out + 4096 * high) + 4294967296 * input) + 2 ^ 44 * (2 ^ 4 * short) =
      omega arith in
    let second =
      or_inside 44 (op + 65536 * (out + 4096 * high) + 4294967296 * input) (2 ^ 4 * short) low
        (omega arith) in
    let other = or_below 4 low short hl in
    rw (h, l, at_28, first, nibble, at_44, second, other) (omega arith)

encode_r-sum :
    (i : R)
    → IsOpcode i.opcode
    → Access.encode i.out < 2048
    → Access.encode i.in_register < 2048
    → i.immediate < 16777216
    → encode_r i
      ≡ i.opcode
        + 65536 * (Access.encode i.out + 4096 * (i.immediate / 1048576))
        + 4294967296
          * (Access.encode i.in_register
              + 4096 * (i.immediate / 65536 % 16)
              + 65536 * (i.immediate % 65536))
unfolding encode_r
encode_r-sum i hop so si him =
    let high : bit_and i.immediate 0x00f00000 / 2 ^ 20 ≡ i.immediate / 2 ^ 20 % 2 ^ 4 =
      read_field 20 4 i.immediate in
    let low : bit_and i.immediate 0x000f0000 / 2 ^ 16 ≡ i.immediate / 2 ^ 16 % 2 ^ 4 =
      read_field 16 4 i.immediate in
    let short : bit_and i.immediate 0x0000ffff ≡ i.immediate % 2 ^ 16 =
      low_mask_bits 16 i.immediate in
    let high_nibble : bit_and i.immediate 0x00f00000 >> 20 ≡ i.immediate / 1048576 =
      omega (arith, high) in
    let low_nibble : bit_and i.immediate 0x000f0000 >> 16 ≡ i.immediate / 65536 % 16 = low in
    let low_short : bit_and i.immediate 0x0000ffff >> 0 ≡ i.immediate % 65536 =
      omega (arith, short) in
    let both =
      with_both i.opcode (Access.encode i.out) (Access.encode i.in_register) hop (omega arith)
        (omega arith) in
    let head = i.opcode + 65536 * Access.encode i.out + 4294967296 * Access.encode i.in_register in
    let top = with_top head (i.immediate % 65536) (omega arith) (omega arith) in
    let sum =
      with_nibbles i.opcode (Access.encode i.out) (Access.encode i.in_register)
        (i.immediate % 65536) (i.immediate / 1048576) (i.immediate / 65536 % 16) hop so si
        (omega arith) (omega arith) (omega arith) in
    rw (high_nibble, low_nibble, low_short, both, top) sum

-- An instruction of format R, with an opcode of 16 bits, valid registers and an immediate of 24
-- bits, is recovered.
pub decode_r-encode_r :
    (i : R)
    → IsOpcode i.opcode
    → IsAccess i.out
    → IsAccess i.in_register
    → i.immediate < 16777216
    → decode_r (encode_r i) ≡ i
unfolding decode_r
decode_r-encode_r i hop ho hi him =
    let so = encode-lt i.out ho in
    let si = encode-lt i.in_register hi in
    let sum = encode_r-sum i hop so si him in
    let raw = encode_r i in
    let short_field : bit_and raw 0xffff000000000000 / 2 ^ 48 ≡ raw / 2 ^ 48 % 2 ^ 16 =
      read_field 48 16 raw in
    let low_field : bit_and raw 0x0000f00000000000 / 2 ^ 44 ≡ raw / 2 ^ 44 % 2 ^ 4 =
      read_field 44 4 raw in
    let high_field : bit_and raw 0x00000000f0000000 / 2 ^ 28 ≡ raw / 2 ^ 28 % 2 ^ 4 =
      read_field 28 4 raw in
    let short : (bit_and raw 0xffff000000000000 >> 48) % 2 ^ 32 ≡ i.immediate % 65536 =
      omega (arith, short_field, sum, so, si) in
    let low : (bit_and raw 0x0000f00000000000 >> 44) % 2 ^ 32 * 2 ^ 16 % 2 ^ 32
        ≡ i.immediate / 65536 % 16 * 2 ^ 16 =
      omega (arith, low_field, sum, so, si) in
    let high : (bit_and raw 0x00000000f0000000 >> 28) % 2 ^ 32 * 2 ^ 20 % 2 ^ 32
        ≡ i.immediate / 1048576 * 2 ^ 20 =
      omega (arith, high_field, sum, so, si) in
    let first = or_above 16 (i.immediate % 65536) (i.immediate / 65536 % 16) (omega arith) in
    let second =
      or_above 20 (i.immediate % 65536 + 2 ^ 16 * (i.immediate / 65536 % 16))
        (i.immediate / 1048576) (omega arith) in
    let op : read_opcode raw ≡ i.opcode = read_opcode-mod raw ∙ omega (arith, sum) in
    let out =
      read_out_access raw
        (Access.encode i.in_register
          + 4096 * (i.immediate / 65536 % 16)
          + 65536 * (i.immediate % 65536))
        (i.immediate / 1048576) i.opcode i.out ho hop (omega arith) (omega (arith, sum)) in
    let input =
      read_in_access raw (i.immediate % 65536) (i.immediate / 65536 % 16)
        (i.opcode + 65536 * (Access.encode i.out + 4096 * (i.immediate / 1048576))) i.in_register hi
        (omega arith) (omega arith) (omega (arith, sum)) in
    let immediate = ap₂ bit_or (ap₂ bit_or short low ∙ first) high ∙ second ∙ omega arith in
    λ k. record { opcode = op k; out = out k; in_register = input k; immediate = immediate k }
