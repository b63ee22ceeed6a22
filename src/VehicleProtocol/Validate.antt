-- ===== src/VehicleProtocol/Validate.antt =====
-- vehicle_control_protocol.cpp: `Error` and the three `Validate` functions.
use Prim.Native.String.{◌++◌}
use rtc_framework.Base.{Bool, true, false, not, ◌||◌, String, ◌==◌, if◌then◌else◌}
use rtc_framework.Base.Float32.{Float, zero_f, one_f, is_finite, lt_float}
use rtc_framework.VehicleProtocol.Types.{DriveCommand, SetGear, DogAction, ValidationResult}
use rtc_framework.VehicleProtocol.Enums.{
  is_known_drive_direction, is_known_steering_direction, is_known_gear, is_known_dog_action_type,
}

unfoldable pub error : String → String → String
error field reason = field ++ ": " ++ reason

abbrev pub accept : ValidationResult
accept = record { valid = true; error_message = "" }

abbrev pub refuse : String → ValidationResult
refuse text = record { valid = false; error_message = text }

-- `!IsFinite(value) || value < 0.0f || value > 1.0f`
unfoldable pub is_out_of_range : Float → Bool
is_out_of_range f = not (is_finite f) || (lt_float f zero_f || lt_float one_f f)

unfoldable pub validate_drive_command : DriveCommand → ValidationResult
validate_drive_command c =
    if not (is_known_drive_direction c.drive_direction)
    then refuse (error "drive_command.drive_direction" "is unknown")
    else if not (is_known_steering_direction c.steering_direction)
    then refuse (error "drive_command.steering_direction" "is unknown")
    else if is_out_of_range c.throttle
    then refuse (error "drive_command.throttle" "must be finite and in range 0..1")
    else if is_out_of_range c.brake
    then refuse (error "drive_command.brake" "must be finite and in range 0..1")
    else accept

unfoldable pub validate_set_gear : SetGear → ValidationResult
validate_set_gear g =
    if g.request_id == 0
    then refuse (error "set_gear.request_id" "must be non-zero")
    else if not (is_known_gear g.gear)
    then refuse (error "set_gear.gear" "is unknown")
    else accept

unfoldable pub validate_dog_action : DogAction → ValidationResult
validate_dog_action a =
    if a.request_id == 0
    then refuse (error "dog_action.request_id" "must be non-zero")
    else if not (is_known_dog_action_type a.action)
    then refuse (error "dog_action.action" "is unknown")
    else if is_out_of_range a.speed
    then refuse (error "dog_action.speed" "must be finite and in range 0..1")
    else accept
