-- ===== src/VehicleProtocol/EnumLaws.antt =====
-- The enum conversions of vehicle_control_protocol.cpp in both directions.
use rtc_framework.Base.{ℕ, ◌≤◌, ◌≡◌, refl, true, arith}
use rtc_framework.VehicleProtocol.Types.{
  MessageType, DriveDirection, SteeringDirection, VehicleGear, VehicleErrorCode, DogActionType,
}
use rtc_framework.VehicleProtocol.Enums.{
  to_pb_message_type, from_pb_message_type, to_pb_drive_direction, from_pb_drive_direction,
  is_known_drive_direction, is_known_pb_drive_direction, to_pb_steering_direction,
  from_pb_steering_direction, is_known_steering_direction, is_known_pb_steering_direction,
  to_pb_gear, from_pb_gear, is_known_gear, is_known_pb_gear, to_pb_error_code, from_pb_error_code,
  is_known_error_code, is_known_pb_error_code, to_pb_dog_action_type, from_pb_dog_action_type,
  is_known_dog_action_type, is_known_pb_dog_action_type,
}

-- What a codec of an enum owes: the pair of `to_pb x` is known, small, and read back as `x`.
pub message_type_codec : (t : MessageType) → from_pb_message_type (to_pb_message_type t) ≡ t
unfolding from_pb_message_type to_pb_message_type
message_type_codec MessageType.unknown = refl
message_type_codec _ = refl

pub drive_direction_codec :
    (d : DriveDirection)
    → is_known_drive_direction d ≡ true
    → (from_pb_drive_direction (to_pb_drive_direction d) ≡ d)
      × (is_known_pb_drive_direction (to_pb_drive_direction d) ≡ true)
      × (to_pb_drive_direction d ≤ 5)
unfolding from_pb_drive_direction to_pb_drive_direction is_known_drive_direction
    is_known_pb_drive_direction
drive_direction_codec d h = ground arith

pub steering_direction_codec :
    (d : SteeringDirection)
    → is_known_steering_direction d ≡ true
    → (from_pb_steering_direction (to_pb_steering_direction d) ≡ d)
      × (is_known_pb_steering_direction (to_pb_steering_direction d) ≡ true)
      × (to_pb_steering_direction d ≤ 5)
unfolding from_pb_steering_direction to_pb_steering_direction is_known_steering_direction
    is_known_pb_steering_direction
steering_direction_codec d h = ground arith

pub gear_codec :
    (g : VehicleGear)
    → is_known_gear g ≡ true
    → (from_pb_gear (to_pb_gear g) ≡ g)
      × (is_known_pb_gear (to_pb_gear g) ≡ true)
      × (to_pb_gear g ≤ 5)
unfolding from_pb_gear to_pb_gear is_known_gear is_known_pb_gear
gear_codec g h = ground arith

pub error_code_codec :
    (c : VehicleErrorCode)
    → is_known_error_code c ≡ true
    → (from_pb_error_code (to_pb_error_code c) ≡ c)
      × (is_known_pb_error_code (to_pb_error_code c) ≡ true)
      × (to_pb_error_code c ≤ 5)
unfolding from_pb_error_code to_pb_error_code is_known_error_code is_known_pb_error_code
error_code_codec c h = ground arith

pub dog_action_type_codec :
    (a : DogActionType)
    → is_known_dog_action_type a ≡ true
    → (from_pb_dog_action_type (to_pb_dog_action_type a) ≡ a)
      × (is_known_pb_dog_action_type (to_pb_dog_action_type a) ≡ true)
      × (to_pb_dog_action_type a ≤ 5)
unfolding from_pb_dog_action_type to_pb_dog_action_type is_known_dog_action_type
    is_known_pb_dog_action_type
dog_action_type_codec a h = ground arith

pub from_pb_gear_known : (n : ℕ) → is_known_gear (from_pb_gear n) ≡ true
unfolding from_pb_gear is_known_gear
from_pb_gear_known n = ground arith

pub from_pb_error_code_known : (n : ℕ) → is_known_error_code (from_pb_error_code n) ≡ true
unfolding from_pb_error_code is_known_error_code
from_pb_error_code_known n = ground arith
