-- ===== src/VehicleProtocol/Enums.antt =====
-- The enumerators of rtc_vehicle.pb.h and the conversions of vehicle_control_protocol.cpp between
-- them and the enum classes.
use rtc_framework.Base.{ℕ, Bool, true, false, ◌||◌, ◌==◌, if◌then◌else◌}
use rtc_framework.VehicleProtocol.Types.{
  MessageType, DriveDirection, SteeringDirection, VehicleGear, VehicleErrorCode, DogActionType,
}

abbrev pub pb_message_type_unknown : ℕ
pb_message_type_unknown = 0

abbrev pub pb_message_type_drive_command : ℕ
pb_message_type_drive_command = 1

abbrev pub pb_message_type_set_gear : ℕ
pb_message_type_set_gear = 2

abbrev pub pb_message_type_event_ack : ℕ
pb_message_type_event_ack = 3

abbrev pub pb_message_type_vehicle_state : ℕ
pb_message_type_vehicle_state = 4

abbrev pub pb_message_type_dog_action : ℕ
pb_message_type_dog_action = 5

unfoldable pub to_pb_message_type : MessageType → ℕ
to_pb_message_type MessageType.drive_command = pb_message_type_drive_command
to_pb_message_type MessageType.set_gear = pb_message_type_set_gear
to_pb_message_type MessageType.event_ack = pb_message_type_event_ack
to_pb_message_type MessageType.vehicle_state = pb_message_type_vehicle_state
to_pb_message_type MessageType.dog_action = pb_message_type_dog_action
to_pb_message_type _ = pb_message_type_unknown

unfoldable pub from_pb_message_type : ℕ → MessageType
from_pb_message_type n =
    if n == pb_message_type_drive_command
    then MessageType.drive_command
    else if n == pb_message_type_set_gear
    then MessageType.set_gear
    else if n == pb_message_type_event_ack
    then MessageType.event_ack
    else if n == pb_message_type_vehicle_state
    then MessageType.vehicle_state
    else if n == pb_message_type_dog_action
    then MessageType.dog_action
    else MessageType.unknown

unfoldable pub is_known_message_type : MessageType → Bool
is_known_message_type MessageType.unknown = false
is_known_message_type _ = true

abbrev pub pb_drive_direction_stop : ℕ
pb_drive_direction_stop = 0

abbrev pub pb_drive_direction_forward : ℕ
pb_drive_direction_forward = 1

abbrev pub pb_drive_direction_reverse : ℕ
pb_drive_direction_reverse = 2

unfoldable pub to_pb_drive_direction : DriveDirection → ℕ
to_pb_drive_direction DriveDirection.forward = pb_drive_direction_forward
to_pb_drive_direction DriveDirection.reverse = pb_drive_direction_reverse
to_pb_drive_direction _ = pb_drive_direction_stop

unfoldable pub from_pb_drive_direction : ℕ → DriveDirection
from_pb_drive_direction n =
    if n == pb_drive_direction_forward
    then DriveDirection.forward
    else if n == pb_drive_direction_reverse
    then DriveDirection.reverse
    else DriveDirection.stop

unfoldable pub is_known_drive_direction : DriveDirection → Bool
is_known_drive_direction DriveDirection.stop = true
is_known_drive_direction DriveDirection.forward = true
is_known_drive_direction DriveDirection.reverse = true
is_known_drive_direction _ = false

unfoldable pub is_known_pb_drive_direction : ℕ → Bool
is_known_pb_drive_direction n =
    (n == pb_drive_direction_stop
      || (n == pb_drive_direction_forward || (n == pb_drive_direction_reverse)))

abbrev pub pb_steering_direction_center : ℕ
pb_steering_direction_center = 0

abbrev pub pb_steering_direction_left : ℕ
pb_steering_direction_left = 1

abbrev pub pb_steering_direction_right : ℕ
pb_steering_direction_right = 2

unfoldable pub to_pb_steering_direction : SteeringDirection → ℕ
to_pb_steering_direction SteeringDirection.left = pb_steering_direction_left
to_pb_steering_direction SteeringDirection.right = pb_steering_direction_right
to_pb_steering_direction _ = pb_steering_direction_center

unfoldable pub from_pb_steering_direction : ℕ → SteeringDirection
from_pb_steering_direction n =
    if n == pb_steering_direction_left
    then SteeringDirection.left
    else if n == pb_steering_direction_right
    then SteeringDirection.right
    else SteeringDirection.center

unfoldable pub is_known_steering_direction : SteeringDirection → Bool
is_known_steering_direction SteeringDirection.center = true
is_known_steering_direction SteeringDirection.left = true
is_known_steering_direction SteeringDirection.right = true
is_known_steering_direction _ = false

unfoldable pub is_known_pb_steering_direction : ℕ → Bool
is_known_pb_steering_direction n =
    (n == pb_steering_direction_center
      || (n == pb_steering_direction_left || (n == pb_steering_direction_right)))

abbrev pub pb_gear_neutral : ℕ
pb_gear_neutral = 0

abbrev pub pb_gear_forward : ℕ
pb_gear_forward = 1

abbrev pub pb_gear_reverse : ℕ
pb_gear_reverse = 2

unfoldable pub to_pb_gear : VehicleGear → ℕ
to_pb_gear VehicleGear.forward = pb_gear_forward
to_pb_gear VehicleGear.reverse = pb_gear_reverse
to_pb_gear _ = pb_gear_neutral

unfoldable pub from_pb_gear : ℕ → VehicleGear
from_pb_gear n =
    if n == pb_gear_forward
    then VehicleGear.forward
    else if n == pb_gear_reverse
    then VehicleGear.reverse
    else VehicleGear.neutral

unfoldable pub is_known_gear : VehicleGear → Bool
is_known_gear VehicleGear.neutral = true
is_known_gear VehicleGear.forward = true
is_known_gear VehicleGear.reverse = true
is_known_gear _ = false

unfoldable pub is_known_pb_gear : ℕ → Bool
is_known_pb_gear n = (n == pb_gear_neutral || (n == pb_gear_forward || (n == pb_gear_reverse)))

abbrev pub pb_error_code_no_error : ℕ
pb_error_code_no_error = 0

abbrev pub pb_error_code_invalid_argument : ℕ
pb_error_code_invalid_argument = 1

abbrev pub pb_error_code_invalid_state : ℕ
pb_error_code_invalid_state = 2

abbrev pub pb_error_code_internal : ℕ
pb_error_code_internal = 3

unfoldable pub to_pb_error_code : VehicleErrorCode → ℕ
to_pb_error_code VehicleErrorCode.invalid_argument = pb_error_code_invalid_argument
to_pb_error_code VehicleErrorCode.invalid_state = pb_error_code_invalid_state
to_pb_error_code VehicleErrorCode.internal = pb_error_code_internal
to_pb_error_code _ = pb_error_code_no_error

unfoldable pub from_pb_error_code : ℕ → VehicleErrorCode
from_pb_error_code n =
    if n == pb_error_code_invalid_argument
    then VehicleErrorCode.invalid_argument
    else if n == pb_error_code_invalid_state
    then VehicleErrorCode.invalid_state
    else if n == pb_error_code_internal
    then VehicleErrorCode.internal
    else VehicleErrorCode.no_error

unfoldable pub is_known_error_code : VehicleErrorCode → Bool
is_known_error_code VehicleErrorCode.no_error = true
is_known_error_code VehicleErrorCode.invalid_argument = true
is_known_error_code VehicleErrorCode.invalid_state = true
is_known_error_code VehicleErrorCode.internal = true
is_known_error_code _ = false

unfoldable pub is_known_pb_error_code : ℕ → Bool
is_known_pb_error_code n =
    (n == pb_error_code_no_error
      || (n == pb_error_code_invalid_argument
          || (n == pb_error_code_invalid_state || (n == pb_error_code_internal))))

abbrev pub pb_dog_action_type_unknown : ℕ
pb_dog_action_type_unknown = 0

abbrev pub pb_dog_action_type_lateral_left : ℕ
pb_dog_action_type_lateral_left = 1

abbrev pub pb_dog_action_type_lateral_right : ℕ
pb_dog_action_type_lateral_right = 2

abbrev pub pb_dog_action_type_lateral_stop : ℕ
pb_dog_action_type_lateral_stop = 3

abbrev pub pb_dog_action_type_stand : ℕ
pb_dog_action_type_stand = 4

abbrev pub pb_dog_action_type_lie_down : ℕ
pb_dog_action_type_lie_down = 5

unfoldable pub to_pb_dog_action_type : DogActionType → ℕ
to_pb_dog_action_type DogActionType.lateral_left = pb_dog_action_type_lateral_left
to_pb_dog_action_type DogActionType.lateral_right = pb_dog_action_type_lateral_right
to_pb_dog_action_type DogActionType.lateral_stop = pb_dog_action_type_lateral_stop
to_pb_dog_action_type DogActionType.stand = pb_dog_action_type_stand
to_pb_dog_action_type DogActionType.lie_down = pb_dog_action_type_lie_down
to_pb_dog_action_type _ = pb_dog_action_type_unknown

unfoldable pub from_pb_dog_action_type : ℕ → DogActionType
from_pb_dog_action_type n =
    if n == pb_dog_action_type_lateral_left
    then DogActionType.lateral_left
    else if n == pb_dog_action_type_lateral_right
    then DogActionType.lateral_right
    else if n == pb_dog_action_type_lateral_stop
    then DogActionType.lateral_stop
    else if n == pb_dog_action_type_stand
    then DogActionType.stand
    else if n == pb_dog_action_type_lie_down
    then DogActionType.lie_down
    else DogActionType.unknown

unfoldable pub is_known_dog_action_type : DogActionType → Bool
is_known_dog_action_type DogActionType.lateral_left = true
is_known_dog_action_type DogActionType.lateral_right = true
is_known_dog_action_type DogActionType.lateral_stop = true
is_known_dog_action_type DogActionType.stand = true
is_known_dog_action_type DogActionType.lie_down = true
is_known_dog_action_type _ = false

unfoldable pub is_known_pb_dog_action_type : ℕ → Bool
is_known_pb_dog_action_type n =
    (n == pb_dog_action_type_lateral_left
      || (n == pb_dog_action_type_lateral_right
          || (n == pb_dog_action_type_lateral_stop
              || (n == pb_dog_action_type_stand || (n == pb_dog_action_type_lie_down)))))
