-- ===== src/View.antt =====
-- The views of the video: client/protocols/vision's view control, and what the console and the edge do
-- with a mode.
pub mod Types
pub mod Codec
pub mod CodecLaws
pub mod Modes
mod Tests
