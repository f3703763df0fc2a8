-- ===== src/Json.antt =====
-- JSON documents as values of the runtime (src/json.rs): pointers into them, patches and merges.
pub mod Value
pub mod Numbers
pub mod Equality
pub mod Token
pub mod Convert
pub mod Pointer
pub mod Patch
pub mod Merge
mod Tests
