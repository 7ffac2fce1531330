-- ===== src/Arch.antt =====
-- Register accesses and the instruction formats of the new virtual machine:
-- new/src/arch/arch.cpp, new/src/arch/ops.cpp and their headers.
pub mod Access
pub mod Formats
pub mod Fields
pub mod Registers
pub mod Operands
pub mod RoundTrip
pub mod Immediates
pub mod Memory
pub mod Opcodes
pub mod Names
