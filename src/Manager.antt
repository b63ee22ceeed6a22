-- ===== src/Manager.antt =====
-- The connection manager of vtsrtc/src.
pub mod Link
pub mod LinkLaws
pub mod Frames
pub mod Divisor
pub mod FrameSizes
pub mod Peers
pub mod Requests
pub mod Held
pub mod Stable
pub mod PeersLaws
pub mod Replaced
pub mod Senders
pub mod Joining
mod Tests
