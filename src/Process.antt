-- ===== src/Process.antt =====
-- Processes, their call stacks and exceptions: src/process.cpp, src/process/stack.cpp,
-- src/process/instr/calls.cpp and src/process/instr/tcmechanism.cpp.
pub mod Code
pub mod State
pub mod Action
pub mod Frames
pub mod Prepared
pub mod Unwinding
pub mod Places
pub mod Parameters
pub mod Calls
pub mod Registers
pub mod Blocks
pub mod Runs
pub mod Pushing
pub mod Deferred
pub mod Calling
pub mod Tick
pub mod Life
pub mod Ownership
