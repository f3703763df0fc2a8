-- ===== src/Scalar.antt =====
-- The integer scalars of the runtime: src/byte.rs, src/int.rs and the integer part of src/math.rs.
pub mod Byte
pub mod Int
pub mod Math
mod Tests
