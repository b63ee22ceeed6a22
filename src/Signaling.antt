-- ===== src/Signaling.antt =====
-- The signalling server of signaling-server/.
pub mod Rooms
pub mod Seats
pub mod Leaving
pub mod RoomsLaws
pub mod Server
pub mod ServerLaws
mod Tests
