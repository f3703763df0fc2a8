-- ===== src/Net.antt =====
-- src/net.rs: the parts that are computation, the frames of a WebSocket and the routes of an HTTP router.
pub mod WebSocket
pub mod Route
pub mod Body
mod Tests
