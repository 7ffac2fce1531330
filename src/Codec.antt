-- ===== src/Codec.antt =====
-- The encoding of operands of the main bytecode: include/viua/bytecode/codec.h,
-- include/viua/bytecode/operand_types.h and src/bytecode/codec/main/.
pub mod Bytes
pub mod OperandType
pub mod Operands
pub mod Encoder
pub mod Decoder
pub mod RoundTrip
