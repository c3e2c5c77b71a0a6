-- ===== src/Core.antt =====
-- The shared client library (core/src).
pub mod Crypto
pub mod Protocol
pub mod Net
pub mod Dedup
pub mod Delivery
pub mod FileTransfer
pub mod Lan
pub mod Client
pub mod BlobClient
mod Tests
