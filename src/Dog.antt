-- ===== src/Dog.antt =====
-- The dog command forwarder of client/modules/dog.
pub mod Types
pub mod Connection
pub mod Incoming
pub mod Tasks
pub mod Notices
pub mod StopFirst
pub mod StopFirstRun
pub mod Accounts
pub mod AccountsSteps
pub mod AccountsEvents
pub mod AccountsRun
pub mod Priority
pub mod Framing
pub mod FramingLaws
pub mod Buffer
pub mod Readings
pub mod Idle
pub mod Fuel
pub mod Chunks
pub mod Url
pub mod Forward
pub mod ForwardLaws
pub mod Braking
mod Tests
