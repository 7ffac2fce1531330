-- ===== src/Codec/Decoder.antt =====
-- `Decoder` of src/bytecode/codec/main/decoder.cpp, on the memory from its address on. A method
-- returns its value and the memory from the new address on.
use mathlib.Core.List.{reverse}
use wudoovm.Common.{ℕ, ◌-◌, ◌^◌, Bool, List, [], ◌∷◌, none, some, ltb, ◌==◌, if◌then◌else◌}
use wudoovm.Common.Int.{ℤ, pos, negsuc}
use wudoovm.Codec.Bytes.{
  Memory, Decoded, ◌>>=◌, read_byte, read_bytes, read_big_endian, read_little_endian,
}
use wudoovm.Codec.OperandType.{
  ot_pointer, ot_register_index, ot_register_reference, ot_true, ot_void,
}
use wudoovm.Codec.Operands.{
  RegisterAccess, AccessSpecifier, direct, register_indirect, pointer_dereference, set_from_byte,
}

abbrev pub get_operand_type : Memory → Decoded ℕ
get_operand_type m = read_byte m

unfoldable pub is_void : Memory → Decoded Bool
is_void m = do (ot, after) ← get_operand_type m; some (ot == ot_void, m)

-- An operand type that is none of the three leaves the access direct.
abbrev pub tag_access : ℕ → AccessSpecifier
tag_access ot =
    if ot == ot_register_index
    then direct
    else if ot == ot_pointer
    then pointer_dereference
    else if ot == ot_register_reference
    then register_indirect
    else direct

unfoldable pub decode_register : Memory → Decoded RegisterAccess
decode_register m = do
  (ot, after_type) ← read_byte m
  (set, after_set) ← read_byte after_type
  (index, after) ← read_big_endian 2 after_set
  some (record { set = set_from_byte set; index = index; access = tag_access ot }, after)

-- The constructor of `std::string` from a `char const*`, which reads up to a zero byte.
unfoldable pub decode_string : Memory → Decoded (List ℕ)
decode_string [] = none
decode_string (b ∷ m) =
    let rest = decode_string m in
    if b == 0 then some ([], m) else (rest >>= λ r. some (b ∷ r.0, r.1))

unfoldable pub decode_bits_string : Memory → Decoded (List ℕ)
decode_bits_string m = do
  (ot, after_type) ← read_byte m
  (size, after_size) ← read_little_endian 8 after_type
  (bytes, after) ← read_bytes size after_size
  some (reverse bytes, after)

unfoldable pub decode_timeout : Memory → Decoded ℕ
decode_timeout m = do (ot, after_type) ← read_byte m; read_big_endian 4 after_type

unfoldable pub decode_f64 : Memory → Decoded ℕ
decode_f64 m = read_little_endian 8 m

-- `static_cast<int32_t>` of an unsigned number of 32 bits.
abbrev pub to_int32 : ℕ → ℤ
to_int32 n = if ltb n (2 ^ 31) then pos n else negsuc (2 ^ 32 - 1 - n)

unfoldable pub decode_i32 : Memory → Decoded ℤ
decode_i32 m = do
  (ot, after_type) ← read_byte m
  (n, after) ← read_big_endian 4 after_type
  some (to_int32 n, after)

unfoldable pub decode_bool : Memory → Decoded Bool
decode_bool m = do (ot, after) ← read_byte m; some (ot == ot_true, after)

unfoldable pub decode_address : Memory → Decoded ℕ
decode_address m = read_big_endian 8 m
