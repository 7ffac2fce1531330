-- ===== src/Arch/Formats.antt =====
-- The instruction formats of new/include/viua/arch/ops.h and their `encode` and `decode` of
-- new/src/arch/ops.cpp. The source is for a little-endian host, where `htole32` and `le32toh`
-- change nothing.
use wudoovm.Common.{ℕ, ◌*◌, ◌/◌, ◌%◌, ◌^◌, bit_and, bit_or}
use wudoovm.Arch.Access
use wudoovm.Arch.Access.{RegisterAccess}

-- Shifts of a `uint64_t`.
infix 60 ◌<<◌
abbrev pub ◌<<◌ : ℕ → ℕ → ℕ
a << n = a * 2 ^ n % 2 ^ 64

infix 60 ◌>>◌
abbrev pub ◌>>◌ : ℕ → ℕ → ℕ
a >> n = a / 2 ^ n

-- The operands that the formats share, as their `decode` functions read them.
abbrev pub read_opcode : ℕ → ℕ
read_opcode raw = bit_and raw 0x000000000000ffff % 2 ^ 16

abbrev pub read_out : ℕ → RegisterAccess
read_out raw = Access.decode ((bit_and raw 0x00000000ffff0000 >> 16) % 2 ^ 16)

abbrev pub read_in : ℕ → RegisterAccess
read_in raw = Access.decode ((bit_and raw 0x0000ffff00000000 >> 32) % 2 ^ 16)

pub record T : Type 0 where
  pub opcode : ℕ
  pub out : RegisterAccess
  pub lhs : RegisterAccess
  pub rhs : RegisterAccess

unfoldable pub decode_t : ℕ → T
decode_t raw = record {
  opcode = read_opcode raw;
  out = read_out raw;
  lhs = read_in raw;
  rhs = Access.decode ((bit_and raw 0xffff000000000000 >> 48) % 2 ^ 16);
}

unfoldable pub encode_t : T → ℕ
encode_t i =
    let base = i.opcode in
    let output_register = Access.encode i.out in
    let left_hand_register = Access.encode i.lhs in
    let right_hand_register = Access.encode i.rhs in
    bit_or (bit_or (bit_or base (output_register << 16)) (left_hand_register << 32))
      (right_hand_register << 48)

pub record D : Type 0 where
  pub opcode : ℕ
  pub out : RegisterAccess
  pub in_register : RegisterAccess

unfoldable pub decode_d : ℕ → D
decode_d raw = record { opcode = read_opcode raw; out = read_out raw; in_register = read_in raw }

unfoldable pub encode_d : D → ℕ
encode_d i =
    let base = i.opcode in
    let output_register = Access.encode i.out in
    let input_register = Access.encode i.in_register in
    bit_or (bit_or base (output_register << 16)) (input_register << 32)

pub record S : Type 0 where
  pub opcode : ℕ
  pub out : RegisterAccess

unfoldable pub decode_s : ℕ → S
decode_s raw = record { opcode = read_opcode raw; out = read_out raw }

unfoldable pub encode_s : S → ℕ
encode_s i =
    let base = i.opcode in
    let output_register = Access.encode i.out in bit_or base (output_register << 16)

-- A 32-bit immediate.
pub record F : Type 0 where
  pub opcode : ℕ
  pub out : RegisterAccess
  pub immediate : ℕ

unfoldable pub decode_f : ℕ → F
decode_f raw = record {
  opcode = read_opcode raw;
  out = read_out raw;
  immediate = (raw >> 32) % 2 ^ 32;
}

unfoldable pub encode_f : F → ℕ
encode_f i =
    let base = i.opcode in
    let output_register = Access.encode i.out in
    let value = i.immediate in bit_or (bit_or base (output_register << 16)) (value << 32)

-- A 36-bit immediate.
pub record E : Type 0 where
  pub opcode : ℕ
  pub out : RegisterAccess
  pub immediate : ℕ

unfoldable pub decode_e : ℕ → E
decode_e raw =
    let high = bit_and (raw >> 28) 0xf << 32 in
    let low = bit_and (raw >> 32) 0x00000000ffffffff in
    record { opcode = read_opcode raw; out = read_out raw; immediate = bit_or high low }

unfoldable pub encode_e : E → ℕ
encode_e i =
    let base = i.opcode in
    let output_register = Access.encode i.out in
    let high = bit_and i.immediate 0x0000000f00000000 >> 32 in
    let low = bit_and i.immediate 0x00000000ffffffff in
    bit_or (bit_or (bit_or base (output_register << 16)) (high << 28)) (low << 32)

-- A 24-bit immediate, in an `uint32_t`.
pub record R : Type 0 where
  pub opcode : ℕ
  pub out : RegisterAccess
  pub in_register : RegisterAccess
  pub immediate : ℕ

unfoldable pub decode_r : ℕ → R
decode_r raw =
    let low_short = (bit_and raw 0xffff000000000000 >> 48) % 2 ^ 32 in
    let low_nibble = (bit_and raw 0x0000f00000000000 >> 44) % 2 ^ 32 in
    let high_nibble = (bit_and raw 0x00000000f0000000 >> 28) % 2 ^ 32 in
    let immediate =
      bit_or (bit_or low_short (low_nibble * 2 ^ 16 % 2 ^ 32)) (high_nibble * 2 ^ 20 % 2 ^ 32) in
    record {
      opcode = read_opcode raw;
      out = read_out raw;
      in_register = read_in raw;
      immediate = immediate;
    }

unfoldable pub encode_r : R → ℕ
encode_r i =
    let base = i.opcode in
    let output_register = Access.encode i.out in
    let input_register = Access.encode i.in_register in
    let high_nibble = bit_and i.immediate 0x00f00000 >> 20 in
    let low_nibble = bit_and i.immediate 0x000f0000 >> 16 in
    let low_short = bit_and i.immediate 0x0000ffff >> 0 in
    bit_or
      (bit_or
        (bit_or (bit_or (bit_or base (output_register << 16)) (input_register << 32))
          (low_short << 48))
        (high_nibble << 28))
      (low_nibble << 44)

pub record N : Type 0 where
  pub opcode : ℕ

unfoldable pub decode_n : ℕ → N
decode_n raw = record { opcode = read_opcode raw }

unfoldable pub encode_n : N → ℕ
encode_n i = i.opcode

-- A 16-bit offset and an 8-bit specifier.
pub record M : Type 0 where
  pub opcode : ℕ
  pub out : RegisterAccess
  pub in_register : RegisterAccess
  pub immediate : ℕ
  pub spec : ℕ

unfoldable pub decode_m : ℕ → M
decode_m raw =
    let low_short = (bit_and raw 0xffff000000000000 >> 48) % 2 ^ 16 in
    let low_nibble = (bit_and raw 0x0000f00000000000 >> 44) % 2 ^ 16 in
    let high_nibble = (bit_and raw 0x00000000f0000000 >> 28) % 2 ^ 16 in
    let spec = bit_or low_nibble (high_nibble * 2 ^ 4) % 2 ^ 8 in
    record {
      opcode = read_opcode raw;
      out = read_out raw;
      in_register = read_in raw;
      immediate = low_short;
      spec = spec;
    }

unfoldable pub encode_m : M → ℕ
encode_m i =
    let base = i.opcode in
    let output_register = Access.encode i.out in
    let input_register = Access.encode i.in_register in
    let high_nibble = bit_and i.spec 0xf0 in
    let low_nibble = bit_and i.spec 0x0f in
    let low_short = bit_and i.immediate 0x0000ffff >> 0 in
    bit_or
      (bit_or
        (bit_or (bit_or (bit_or base (output_register << 16)) (input_register << 32))
          (low_short << 48))
        (high_nibble << 28))
      (low_nibble << 44)
