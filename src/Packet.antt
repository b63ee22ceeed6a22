-- ===== src/Packet.antt =====
-- vtsrtc/src/packet: the splitting of messages into packets and back.
pub mod Types
pub mod Packetizer
pub mod Depacketizer
pub mod Header
pub mod Slots
pub mod Sending
pub mod Receiving
pub mod Roundtrip
pub mod Channel
pub mod Accounts
pub mod Counters
mod Tests
