-- ===== src/Codec/Encoder.antt =====
-- `Encoder` of src/bytecode/codec/main/encoder.cpp. A method is modelled by the bytes that it
-- writes from its address on; the address it returns is the one behind them.
use mathlib.Core.List.{reverse}
use wudoovm.Common.{ℕ, ◌-◌, ◌%◌, ◌^◌, Bool, List, [], ◌∷◌, ◌++◌, length, if◌then◌else◌}
use wudoovm.Common.Int.{ℤ, pos, negsuc}
use wudoovm.Codec.Bytes.{Memory, big_endian, little_endian}
use wudoovm.Codec.OperandType.{
  ot_bits, ot_false, ot_int, ot_pointer, ot_register_index, ot_register_reference, ot_string,
  ot_true, ot_void,
}
use wudoovm.Codec.Operands.{
  RegisterAccess, AccessSpecifier, direct, register_indirect, pointer_dereference, set_to_byte,
}

-- The underlying type of `OPCODE` has one byte.
unfoldable pub encode_opcode : ℕ → Memory
encode_opcode op = (op % 2 ^ 8) ∷ []

abbrev pub access_tag : AccessSpecifier → ℕ
access_tag direct = ot_register_index
access_tag register_indirect = ot_register_reference
access_tag pointer_dereference = ot_pointer

unfoldable pub encode_register : RegisterAccess → Memory
encode_register ra = access_tag ra.access ∷ set_to_byte ra.set ∷ big_endian 2 ra.index

unfoldable pub encode_void : Memory
encode_void = ot_void ∷ []

-- A `double` is taken as the 64 bits of its object representation, on a little-endian host.
unfoldable pub encode_f64 : ℕ → Memory
encode_f64 n = little_endian 8 n

-- `static_cast<uint32_t>` of a signed number.
abbrev pub to_uint32 : ℤ → ℕ
to_uint32 (pos n) = n % 2 ^ 32
to_uint32 (negsuc n) = 2 ^ 32 - 1 - n % 2 ^ 32

unfoldable pub encode_i32 : ℤ → Memory
encode_i32 n = ot_int ∷ big_endian 4 (to_uint32 n)

unfoldable pub encode_bool : Bool → Memory
encode_bool n = (if n then ot_true else ot_false) ∷ []

unfoldable pub encode_raw_string : List ℕ → Memory
encode_raw_string s = s ++ (0 ∷ [])

unfoldable pub encode_string : List ℕ → Memory
unfolding encode_raw_string
encode_string s = ot_string ∷ encode_raw_string s

unfoldable pub encode_bits_string : List ℕ → Memory
encode_bits_string data_bytes =
    ot_bits ∷ (little_endian 8 (length data_bytes) ++ reverse data_bytes)

unfoldable pub encode_timeout : ℕ → Memory
encode_timeout value = ot_int ∷ big_endian 4 value

unfoldable pub encode_address : ℕ → Memory
encode_address dest = big_endian 8 dest
