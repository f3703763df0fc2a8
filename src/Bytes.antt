-- ===== src/Bytes.antt =====
-- src/bytes.rs: the built-in `bytes` value. A pointer that a caller passes is an `Option Value`,
-- `none` where it is null. An operation that updates the value in place returns the updated pointer.
pub mod Value
pub mod Buffer
pub mod Uint
pub mod Varint
pub mod Format
pub mod Cursor
mod Tests
