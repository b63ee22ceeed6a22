-- ===== src/Console.antt =====
-- The vehicle control of client/apps/rtc_console: what is sent, and to whom.
pub mod Targets
pub mod TargetsLaws
pub mod Slots
pub mod SlotsLaws
pub mod SlotsHistory
pub mod Commands
pub mod Gamepad
pub mod GamepadLaws
pub mod GamepadHeld
pub mod Acks
pub mod LogLimiter
pub mod Fullscreen
mod Tests
