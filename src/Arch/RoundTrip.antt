-- ===== src/Arch/RoundTrip.antt =====
-- Decoding an encoded instruction of new/src/arch/ops.cpp gives the instruction back.
use wudoovm.Common.{◌+◌, ◌*◌, ◌/◌, ◌%◌, ◌^◌, ◌<◌, ◌≡◌, ap, ◌∙◌, bit_and, bit_or, arith}
use wudoovm.Arch.Access
use wudoovm.Arch.Access.{RegisterAccess}
use wudoovm.Arch.Registers.{IsAccess, decode-encode, encode-lt}
use wudoovm.Arch.Fields.{read_field}
use wudoovm.Arch.Formats.{
  ◌<<◌, ◌>>◌, read_opcode, T, decode_t, encode_t, D, decode_d, encode_d, S, decode_s, encode_s, F,
  decode_f, encode_f,
}
use wudoovm.Arch.Operands.{
  read_opcode-mod, read_out_access, read_in_access, with_out, with_in, with_top, with_both,
  IsOpcode,
}

-- An instruction of format S, with an opcode of 16 bits and a valid register, is recovered.
decode_s-encode_s : (i : S) → IsOpcode i.opcode → IsAccess i.out → decode_s (encode_s i) ≡ i
unfolding decode_s encode_s
decode_s-encode_s i hop ho =
    let so = encode-lt i.out ho in
    let sum = with_out i.opcode (Access.encode i.out) hop (omega (arith, so)) in
    let op : read_opcode (encode_s i) ≡ i.opcode =
      read_opcode-mod (encode_s i) ∙ omega (arith, sum) in
    let out =
      read_out_access (encode_s i) 0 0 i.opcode i.out ho hop (omega arith) (omega (arith, sum)) in
    λ k. record { opcode = op k; out = out k }

-- An instruction of format D, with an opcode of 16 bits and valid registers, is recovered.
decode_d-encode_d :
    (i : D)
    → IsOpcode i.opcode
    → IsAccess i.out
    → IsAccess i.in_register
    → decode_d (encode_d i) ≡ i
unfolding decode_d encode_d
decode_d-encode_d i hop ho hi =
    let so = encode-lt i.out ho in
    let si = encode-lt i.in_register hi in
    let sum =
      with_both i.opcode (Access.encode i.out) (Access.encode i.in_register) hop (omega (arith, so))
        (omega (arith, si)) in
    let op : read_opcode (encode_d i) ≡ i.opcode =
      read_opcode-mod (encode_d i) ∙ omega (arith, sum) in
    let out =
      read_out_access (encode_d i) (Access.encode i.in_register) 0 i.opcode i.out ho hop
        (omega arith) (omega (arith, sum)) in
    let input =
      read_in_access (encode_d i) 0 0 (i.opcode + 65536 * Access.encode i.out) i.in_register hi
        (omega (arith, so)) (omega arith) (omega (arith, sum)) in
    λ k. record { opcode = op k; out = out k; in_register = input k }

-- An instruction of format T, with an opcode of 16 bits and valid registers, is recovered.
decode_t-encode_t :
    (i : T)
    → IsOpcode i.opcode
    → IsAccess i.out
    → IsAccess i.lhs
    → IsAccess i.rhs
    → decode_t (encode_t i) ≡ i
unfolding decode_t encode_t
decode_t-encode_t i hop ho hl hr =
    let so = encode-lt i.out ho in
    let sl = encode-lt i.lhs hl in
    let sr = encode-lt i.rhs hr in
    let both =
      with_both i.opcode (Access.encode i.out) (Access.encode i.lhs) hop (omega (arith, so))
        (omega (arith, sl)) in
    let sum =
      with_top (bit_or (bit_or i.opcode (Access.encode i.out << 16)) (Access.encode i.lhs << 32))
        (Access.encode i.rhs) (omega (arith, both, so, sl)) (omega (arith, sr)) in
    let op : read_opcode (encode_t i) ≡ i.opcode =
      read_opcode-mod (encode_t i) ∙ omega (arith, sum, both) in
    let out =
      read_out_access (encode_t i) (Access.encode i.lhs + 65536 * Access.encode i.rhs) 0 i.opcode
        i.out ho hop (omega arith) (omega (arith, sum, both)) in
    let lhs =
      read_in_access (encode_t i) (Access.encode i.rhs) 0 (i.opcode + 65536 * Access.encode i.out)
        i.lhs hl (omega (arith, so)) (omega arith) (omega (arith, sum, both)) in
    let field : bit_and (encode_t i) 0xffff000000000000 / 2 ^ 48 ≡ encode_t i / 2 ^ 48 % 2 ^ 16 =
      read_field 48 16 (encode_t i) in
    let code : (bit_and (encode_t i) 0xffff000000000000 >> 48) % 2 ^ 16 ≡ Access.encode i.rhs =
      omega (arith, field, sum, both, so, sl, sr) in
    let rhs = ap Access.decode code ∙ decode-encode i.rhs hr in
    λ k. record { opcode = op k; out = out k; lhs = lhs k; rhs = rhs k }

-- An instruction of format F, with an opcode of 16 bits, a valid register and an immediate of 32
-- bits, is recovered.
decode_f-encode_f :
    (i : F)
    → IsOpcode i.opcode
    → IsAccess i.out
    → i.immediate < 4294967296
    → decode_f (encode_f i) ≡ i
unfolding decode_f encode_f
decode_f-encode_f i hop ho him =
    let so = encode-lt i.out ho in
    let low = with_out i.opcode (Access.encode i.out) hop (omega (arith, so)) in
    let sum =
      with_in (bit_or i.opcode (Access.encode i.out << 16)) i.immediate (omega (arith, low, so))
        him in
    let op : read_opcode (encode_f i) ≡ i.opcode =
      read_opcode-mod (encode_f i) ∙ omega (arith, sum, low) in
    let out =
      read_out_access (encode_f i) i.immediate 0 i.opcode i.out ho hop (omega arith)
        (omega (arith, sum, low)) in
    let immediate : (encode_f i >> 32) % 2 ^ 32 ≡ i.immediate = omega (arith, sum, low, so) in
    λ k. record { opcode = op k; out = out k; immediate = immediate k }
