-- ===== src/Arch/Memory.antt =====
-- The format M of new/src/arch/ops.cpp, which loads and stores use.
use wudoovm.Common.{ℕ, ◌+◌, ◌*◌, ◌/◌, ◌%◌, ◌^◌, ◌<◌, ◌≡◌, ap, ap₂, ◌∙◌, bit_and, bit_or, arith}
use wudoovm.Common.Words.{low_mask_bits, mask_bits, bit_or_parts, bit_or-zero}
use wudoovm.Arch.Access
use wudoovm.Arch.Access.{RegisterAccess, register_access, to_raw, bool_bit}
use wudoovm.Arch.Registers.{IsAccess, encode_sum, encode-lt}
use wudoovm.Arch.Fields.{read_field, or_below, or_inside}
use wudoovm.Arch.Formats.{◌<<◌, ◌>>◌, read_opcode, M, decode_m, encode_m}
use wudoovm.Arch.Operands.{
  read_opcode-mod, read_out_access, read_in_access, with_both, with_top, IsOpcode,
}

-- The operands of format M that the encoding has room for.
abbrev pub IsMemory : M → Type 0
IsMemory i =
    IsOpcode i.opcode
    × IsAccess i.out
    × IsAccess i.in_register
    × (i.immediate < 65536)
    × (i.spec < 256)

-- A register whose index also has the bits of `q`.
abbrev pub with_index_bits : RegisterAccess → ℕ → RegisterAccess
with_index_bits a q = register_access a.set a.direct (bit_or a.index q)

index_bits-lt : (a : RegisterAccess) (q : ℕ) → a.index < 256 → q < 256 → bit_or a.index q < 256
index_bits-lt a q ha hq = (bit_or_parts 8 a.index 0 q 0 ha hq).0

-- Bits that are put on the lowest byte of a number with an encoded register at its lowest end.
encode-index_bits :
    (a : RegisterAccess) (q top : ℕ)
    → IsAccess a
    → q < 256
    → bit_or (Access.encode a + 65536 * top) q ≡ Access.encode (with_index_bits a q) + 65536 * top
encode-index_bits a q top (hi, hs, named) hq =
    let sum = encode_sum a hi (omega arith) in
    let bound = index_bits-lt a q hi hq in
    let changed = encode_sum (with_index_bits a q) bound (omega arith) in
    let rest = bool_bit a.direct + 2 * to_raw a.set + 256 * top in
    let old : Access.encode a + 65536 * top ≡ a.index + 2 ^ 8 * rest = omega (arith, sum) in
    let bits : q ≡ q + 2 ^ 8 * 0 = omega arith in
    let parts = (bit_or_parts 8 a.index rest q 0 hi hq).1 in
    ap₂ bit_or old bits ∙ parts ∙ omega (arith, bit_or-zero rest, changed)

mask_high : (s : ℕ) → bit_and s 0xf0 ≡ 16 * (s / 16 % 16)
mask_high s =
    let masked : bit_and s 0xf0 ≡ 2 ^ 4 * bit_and (s / 2 ^ 4) 0x0f = mask_bits 4 15 s in
    let low : bit_and (s / 2 ^ 4) 0x0f ≡ s / 2 ^ 4 % 2 ^ 4 = low_mask_bits 4 (s / 2 ^ 4) in
    omega (arith, masked, low)

-- The two halves of `spec` on top of the other operands.
with_halves :
    (low short spec : ℕ) (input : RegisterAccess)
    → low < 4294967296
    → IsAccess input
    → short < 65536
    → spec < 256
    → bit_or
        (bit_or
          (low + 4294967296 * Access.encode input + 281474976710656 * short)
          (16 * (spec / 16) << 28))
        (spec % 16 << 44)
      ≡ low
        + 4294967296
          * (Access.encode (with_index_bits input (spec / 16)) + 4096 * (spec % 16) + 65536 * short)
with_halves low short spec input hl hi hs hspec =
    let changed = with_index_bits input (spec / 16) in
    let bound = index_bits-lt input (spec / 16) hi.0 (omega arith) in
    let sc = encode-lt changed (bound, hi.1, hi.2) in
    let high_nibble : 16 * (spec / 16) << 28 ≡ spec / 16 * 2 ^ 32 = omega arith in
    let low_nibble : spec % 16 << 44 ≡ spec % 16 * 2 ^ 44 = omega arith in
    let at_32 : low + 4294967296 * Access.encode input + 281474976710656 * short
        ≡ low + 2 ^ 32 * (Access.encode input + 65536 * short) =
      omega arith in
    let first = or_inside 32 low (Access.encode input + 65536 * short) (spec / 16) hl in
    let index = encode-index_bits input (spec / 16) short hi (omega arith) in
    let at_44 : low + 2 ^ 32 * (Access.encode changed + 65536 * short)
        ≡ (low + 4294967296 * Access.encode changed) + 2 ^ 44 * (2 ^ 4 * short) =
      omega arith in
    let second =
      or_inside 44 (low + 4294967296 * Access.encode changed) (2 ^ 4 * short) (spec % 16)
        (omega (arith, sc)) in
    let nibble = or_below 4 (spec % 16) short (omega arith) in
    rw (high_nibble, low_nibble, at_32, first, index, at_44, second, nibble) (omega arith)

-- Encoding puts the high half of `spec` on the index of the input register, and no bit of it
-- where `decode` looks for it.
encode_m-sum :
    (i : M)
    → IsMemory i
    → encode_m i
      ≡ i.opcode
        + 65536 * Access.encode i.out
        + 4294967296
          * (Access.encode (with_index_bits i.in_register (i.spec / 16))
              + 4096 * (i.spec % 16)
              + 65536 * i.immediate)
unfolding encode_m
encode_m-sum i (hop, ho, hi, him, hspec) =
    let so = encode-lt i.out ho in
    let si = encode-lt i.in_register hi in
    let high : bit_and i.spec 0xf0 ≡ 16 * (i.spec / 16) = omega (arith, mask_high i.spec) in
    let low : bit_and i.spec 0x0f ≡ i.spec % 16 = low_mask_bits 4 i.spec in
    let short : bit_and i.immediate 0x0000ffff ≡ i.immediate % 2 ^ 16 =
      low_mask_bits 16 i.immediate in
    let low_short : bit_and i.immediate 0x0000ffff >> 0 ≡ i.immediate = omega (arith, short) in
    let both =
      with_both i.opcode (Access.encode i.out) (Access.encode i.in_register) hop (omega (arith, so))
        (omega (arith, si)) in
    let head = i.opcode + 65536 * Access.encode i.out + 4294967296 * Access.encode i.in_register in
    let top = with_top head i.immediate (omega (arith, so, si)) him in
    let sum =
      with_halves (i.opcode + 65536 * Access.encode i.out) i.immediate i.spec i.in_register
        (omega (arith, so)) hi him hspec in
    rw (high, low, low_short, both, top) sum

-- What encoding and decoding an instruction of format M gives, for an opcode and an immediate of
-- 16 bits, valid registers and a `spec` of 8 bits: only the low half of `spec`
-- comes back, and the high half has been put on the index of the input register.
pub decode_m-encode_m :
    (i : M)
    → IsMemory i
    → decode_m (encode_m i) ≡ record {
      opcode = i.opcode;
      out = i.out;
      in_register = with_index_bits i.in_register (i.spec / 16);
      immediate = i.immediate;
      spec = i.spec % 16;
    }
unfolding decode_m
decode_m-encode_m i (hop, ho, hi, him, hspec) =
    let sum = encode_m-sum i (hop, ho, hi, him, hspec) in
    let raw = encode_m i in
    let so = encode-lt i.out ho in
    let changed = with_index_bits i.in_register (i.spec / 16) in
    let bound = index_bits-lt i.in_register (i.spec / 16) hi.0 (omega arith) in
    let sc = encode-lt changed (bound, hi.1, hi.2) in
    let short_field : bit_and raw 0xffff000000000000 / 2 ^ 48 ≡ raw / 2 ^ 48 % 2 ^ 16 =
      read_field 48 16 raw in
    let low_field : bit_and raw 0x0000f00000000000 / 2 ^ 44 ≡ raw / 2 ^ 44 % 2 ^ 4 =
      read_field 44 4 raw in
    let high_field : bit_and raw 0x00000000f0000000 / 2 ^ 28 ≡ raw / 2 ^ 28 % 2 ^ 4 =
      read_field 28 4 raw in
    let short : (bit_and raw 0xffff000000000000 >> 48) % 2 ^ 16 ≡ i.immediate =
      omega (arith, short_field, sum, so, sc) in
    let low : (bit_and raw 0x0000f00000000000 >> 44) % 2 ^ 16 ≡ i.spec % 16 =
      omega (arith, low_field, sum, so, sc) in
    let high : (bit_and raw 0x00000000f0000000 >> 28) % 2 ^ 16 * 2 ^ 4 ≡ 0 =
      omega (arith, high_field, sum, so, sc) in
    let op : read_opcode raw ≡ i.opcode = read_opcode-mod raw ∙ omega (arith, sum) in
    let out =
      read_out_access raw (Access.encode changed + 4096 * (i.spec % 16) + 65536 * i.immediate) 0
        i.opcode i.out ho hop (omega arith) (omega (arith, sum)) in
    let input =
      read_in_access raw i.immediate (i.spec % 16) (i.opcode + 65536 * Access.encode i.out) changed
        (bound, hi.1, hi.2) (omega (arith, so)) (omega arith) (omega (arith, sum)) in
    let joined = ap₂ bit_or low high ∙ bit_or-zero (i.spec % 16) in
    let spec = ap (λ s. s % 2 ^ 8) joined ∙ omega arith in
    λ k. record {
      opcode = op k;
      out = out k;
      in_register = input k;
      immediate = short k;
      spec = spec k;
    }

-- An instruction of format M with an opcode and an immediate of 16 bits and valid registers is
-- recovered when its `spec` fits four bits.
decode_m-encode_m_low : (i : M) → IsMemory i → i.spec < 16 → decode_m (encode_m i) ≡ i
decode_m-encode_m_low i h small =
    let none_above : i.spec / 16 ≡ 0 = omega arith in
    let all_low : i.spec % 16 ≡ i.spec = omega arith in
    let index = ap (bit_or i.in_register.index) none_above ∙ bit_or-zero i.in_register.index in
    decode_m-encode_m i h ∙ λ k. record {
      opcode = i.opcode;
      out = i.out;
      in_register = register_access i.in_register.set i.in_register.direct (index k);
      immediate = i.immediate;
      spec = all_low k;
    }
