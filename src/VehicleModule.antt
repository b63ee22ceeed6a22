-- ===== src/VehicleModule.antt =====
-- The vehicle control module of client/modules/vehicle.
pub mod State
pub mod Interfaces
pub mod InterfaceLaws
pub mod Send
pub mod Drive
pub mod Dog
pub mod Events
pub mod Queue
pub mod Tick
pub mod Safety
pub mod SafetyEvents
pub mod SafetyRun
pub mod Lockout
pub mod LockoutMessages
pub mod LockoutEvents
pub mod Session
mod Tests
pub mod DogLaws
pub mod QueueLaws
