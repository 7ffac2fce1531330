-- ===== src/Types.antt =====
-- Types of values, in src/types.
pub mod Vector
