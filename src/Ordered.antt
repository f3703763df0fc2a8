-- ===== src/Ordered.antt =====
-- src/ordered.rs: the insertion-ordered hash map and set behind Mux's `map` and `set`.
pub mod Table
pub mod Map
pub mod Iter
pub mod Chain
pub mod Spec
pub mod Rep
pub mod Unique
pub mod Reads
pub mod Insert
pub mod Remove
pub mod Run
pub mod Equality
pub mod Set
mod Tests
