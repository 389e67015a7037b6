-- ===== src/Protocol.antt =====
-- The crate shared/protocol: message validation and replay protection.
pub mod Replay
pub mod Freshness
pub mod Messages
pub mod Signed
pub mod Capacity
pub mod Tests
