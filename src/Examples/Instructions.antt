-- ===== src/Examples/Instructions.antt =====
-- Instructions of new/src/arch/ops.cpp.
use wudoovm.Common.{some, ◌≡◌, refl, true, false, arith}
use wudoovm.Arch.Access.{RegisterAccess, local, argument, parameter, register_access}
use wudoovm.Arch.Formats.{T, E, R, decode_r, encode_r, M, decode_m, encode_m}
use wudoovm.Arch.Names.{parse_opcode, to_string, keeps_greedy, parse_opcode-to_string}
use wudoovm.Arch.Immediates.{decode_r-encode_r}
use wudoovm.Arch.Memory.{decode_m-encode_m}

abbrev out_register : RegisterAccess
out_register = register_access local true 3

abbrev in_register : RegisterAccess
in_register = register_access parameter false 64

abbrev add_instruction : T
add_instruction = record {
  opcode = 0x1001;
  out = out_register;
  lhs = in_register;
  rhs = register_access argument true 255;
}

abbrev cast_instruction : E
cast_instruction = record { opcode = 0x5001; out = out_register; immediate = 0xf00000001 }

abbrev addi_instruction : R
addi_instruction = record {
  opcode = 0x6001;
  out = out_register;
  in_register = in_register;
  immediate = 0xabcdef;
}

decode_r-encode_r_example : decode_r (encode_r addi_instruction) ≡ addi_instruction
decode_r-encode_r_example =
    decode_r-encode_r addi_instruction (omega arith) (omega arith, omega arith, refl)
      (omega arith, omega arith, refl) (omega arith)

-- A load whose specifier takes more than four bits.
abbrev load_instruction : M
load_instruction = record {
  opcode = 0x7002;
  out = out_register;
  in_register = in_register;
  immediate = 8;
  spec = 0x53;
}

decode_m-encode_m_example : decode_m (encode_m load_instruction) ≡ record {
  opcode = 0x7002;
  out = out_register;
  in_register = register_access parameter false 69;
  immediate = 8;
  spec = 3;
}
decode_m-encode_m_example = decode_m-encode_m load_instruction (
  omega arith,
  (omega arith, omega arith, refl),
  (omega arith, omega arith, refl),
  omega arith,
  omega arith,
)

abbrev store_instruction : M
store_instruction = record {
  opcode = 0x7001;
  out = out_register;
  in_register = in_register;
  immediate = 8;
  spec = 3;
}

-- The comparison `eq`, at index 17 of the enumerators.
parse_opcode-to_string_example :
    (parse_opcode (to_string 0x100e) ≡ some 0x100e)
    × (parse_opcode (to_string 0x900e) ≡ some 0x100e)
unfolding keeps_greedy
parse_opcode-to_string_example = parse_opcode-to_string 17 0x100e refl
