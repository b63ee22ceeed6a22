-- ===== src/Runtime.antt =====
-- The session of client/modules/runtime.
pub mod Types
pub mod Init
pub mod Session
pub mod Kept
pub mod Peers
pub mod Attempts
pub mod Sending
pub mod InitLaws
mod Tests
