-- ===== src/Relay.antt =====
-- The relay server (relay/src).
pub mod Blob
pub mod Routes
pub mod Candidates
pub mod Hub
pub mod Ws
mod Tests
