-- ===== src/Vision.antt =====
-- The detection protocol of client/protocols/vision.
pub mod Types
pub mod Codec
pub mod Envelopes
pub mod Laws
pub mod Roundtrip
pub mod Arrival
pub mod ClassRoundtrip
pub mod Messages
pub mod Accepted
mod Tests
