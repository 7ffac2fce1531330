-- ===== src/Kernel.antt =====
-- Registers and register sets of the kernel: src/kernel/registerset.cpp and
-- include/viua/kernel/registerset.h.
pub mod Value
pub mod Register
pub mod RegisterSet
pub mod Bounds
pub mod Calls
pub mod Moves
pub mod Whole
pub mod Guards
pub mod Masks
pub mod Verdicts
pub mod Sizes
