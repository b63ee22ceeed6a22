-- ===== src/VehicleProtocol.antt =====
-- The vehicle control protocol of client/protocols/vehicle.
pub mod Types
pub mod Pb
pub mod Enums
pub mod Validate
pub mod Gate
pub mod Encode
pub mod Decode
pub mod EnumLaws
pub mod ValidateLaws
pub mod Roundtrip
pub mod Payloads
pub mod DecodeLaws
pub mod GateLaws
pub mod Examples
mod Tests
