-- ===== src/Console/Commands.antt =====
-- client/apps/rtc_console/vehicle_control_sender.cpp: the drive command that is made of the input.
use rtc_framework.Base.{◌≡◌, ◌<◌, Bool, true, false, not, ◌&&◌, arith, if◌then◌else◌}
use rtc_framework.Base.Float32.{Float, zero_f, one_f, is_finite, lt_float, le_float}
use rtc_framework.VehicleProtocol.Types.{DriveDirection, SteeringDirection, DriveCommand}
use rtc_framework.VehicleProtocol.Enums.{is_known_drive_direction, is_known_steering_direction}
use rtc_framework.VehicleProtocol.Validate.{is_out_of_range, validate_drive_command}

pub record VehicleControlInput : Type 0 where
  pub forward : Bool
  pub reverse : Bool
  pub left : Bool
  pub right : Bool
  pub emergency_stop : Bool
  pub throttle : Float

-- `std::min(1.0f, throttle)`, then `std::max(0.0f, that)`.
unfoldable pub clamp_vehicle_throttle : Float → Float
unfolding is_finite lt_float
clamp_vehicle_throttle throttle =
    let low = if lt_float throttle one_f then throttle else one_f in
    if not (is_finite throttle) then zero_f else if lt_float zero_f low then low else zero_f

unfoldable pub make_vehicle_drive_command : VehicleControlInput → DriveCommand
unfolding clamp_vehicle_throttle
make_vehicle_drive_command i =
    if i.emergency_stop
    then record {
      drive_direction = DriveDirection.stop;
      steering_direction = SteeringDirection.center;
      throttle = zero_f;
      brake = one_f;
    }
    else record {
      drive_direction =
          if i.forward && not i.reverse
          then DriveDirection.forward
          else if i.reverse && not i.forward
          then DriveDirection.reverse
          else DriveDirection.stop;
      steering_direction =
          if i.left && not i.right
          then SteeringDirection.left
          else if i.right && not i.left
          then SteeringDirection.right
          else SteeringDirection.center;
      throttle = clamp_vehicle_throttle i.throttle;
      brake = zero_f;
    }

clamped_in_range :
    (throttle : Float)
    → throttle < 4294967296
    → is_out_of_range (clamp_vehicle_throttle throttle) ≡ false
unfolding clamp_vehicle_throttle is_out_of_range is_finite lt_float
clamped_in_range throttle h = ground arith

-- Whatever the input is, the command made of it passes the validation of the vehicle, and it brakes
-- exactly if the input is an emergency stop.
pub made_command_valid :
    (i : VehicleControlInput)
    → i.throttle < 4294967296
    → ((validate_drive_command (make_vehicle_drive_command i)).valid ≡ true)
      × (le_float (make_vehicle_drive_command i).brake zero_f ≡ not i.emergency_stop)
unfolding make_vehicle_drive_command validate_drive_command is_out_of_range le_float is_finite
    lt_float is_known_drive_direction is_known_steering_direction
made_command_valid i h = ground (arith, clamped_in_range i.throttle h)
