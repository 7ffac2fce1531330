-- ===== src/Codec/OperandType.antt =====
-- The values of `OperandType` in include/viua/bytecode/operand_types.h that the encoder and the
-- decoder use.
use wudoovm.Common.{ℕ, bit_or}

abbrev pub ot_register_index : ℕ
ot_register_index = 1

abbrev pub ot_register_reference : ℕ
ot_register_reference = 2

abbrev pub ot_pointer : ℕ
ot_pointer = 4

abbrev pub ot_string : ℕ
ot_string = 7

abbrev pub ot_bits : ℕ
ot_bits = 8

abbrev pub ot_int : ℕ
ot_int = 9

abbrev pub ot_void : ℕ
ot_void = 11

abbrev pub ot_bool : ℕ
ot_bool = 128

abbrev pub ot_true : ℕ
ot_true = bit_or 12 ot_bool

abbrev pub ot_false : ℕ
ot_false = bit_or 13 ot_bool
