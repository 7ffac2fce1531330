-- ===== src/Bits.antt =====
-- src/types/bits.cpp: fixed-width bit strings and their arithmetic. `Vector`, `Shift`,
-- `Wrapping`, `Checked` and `Saturating` are its parts in the order of the source, `Class` is the
-- class `viua::types::Bits`.
pub mod Error
pub mod Vector
pub mod Shift
pub mod Wrapping
pub mod Checked
pub mod Saturating
pub mod Signed
pub mod Class
pub mod Value
