-- ===== src/Sync.antt =====
-- src/sync_primitives.rs: the handles of std.sync and what they name.
pub mod Handles
pub mod Atomic
pub mod Semaphore
pub mod Once
pub mod Channel
pub mod Pool
mod Tests
