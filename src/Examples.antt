-- ===== src/Examples.antt =====
-- The theorems of the other modules at concrete inputs.
mod BitVectors
mod BitObjects
mod Registers
mod Processes
mod Instructions
mod Operands
mod Vectors
mod Returns
