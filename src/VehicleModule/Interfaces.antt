-- ===== src/VehicleModule/Interfaces.antt =====
-- client/modules/vehicle/src/vehicle_control_interface.cpp: the two interfaces that move nothing. The
-- log callback is a flag: whether one is set, and in the placeholder whether it was told already.
use rtc_framework.Base.{ℕ, Bool, true, false, not, ◌&&◌, List, String, if◌then◌else◌}
use rtc_framework.VehicleProtocol.Types.{VehicleErrorCode, DriveCommand, VehicleGear}
use rtc_framework.VehicleProtocol.Validate.{validate_drive_command, validate_set_gear}
use rtc_framework.VehicleModule.State.{VehicleCommandResult, Device}

abbrev pub not_connected_result : VehicleCommandResult
not_connected_result = record {
  accepted = false;
  completion_pending = false;
  error_code = VehicleErrorCode.invalid_state;
  detail = "vehicle control interface is not implemented";
}

pub record Debug : Type 0 where
  pub has_logger : Bool
  pub opened : Bool

abbrev pub debug_result : Bool → Bool → VehicleCommandResult
debug_result opened valid = record {
  accepted = opened && valid;
  completion_pending = false;
  error_code =
      if opened && valid
      then VehicleErrorCode.no_error
      else if not opened
      then VehicleErrorCode.invalid_state
      else VehicleErrorCode.invalid_argument;
  detail = "DEBUG simulation only";
}

unfoldable pub debug_drive : DriveCommand → Debug → VehicleCommandResult
debug_drive c d = debug_result d.opened (validate_drive_command c).valid

unfoldable pub debug_gear : VehicleGear → Debug → VehicleCommandResult
debug_gear gear d =
    debug_result d.opened (validate_set_gear (record { request_id = 1; gear = gear })).valid

-- `VehicleControlInterface` over its state; the transport is a parameter.
abbrev pub debug_device : (ℕ → String → List ℕ → Debug → Debug × Bool) → Device Debug
debug_device send_data = record {
  has_vehicle_control = true;
  has_send_data = true;
  set_completion_callback = λ set d. d;
  open_interface = λ d. (record d { opened = true }, true);
  close_interface = λ d. record d { opened = false };
  send_drive_command = λ c d. (d, debug_drive c d);
  send_gear_command = λ gear d. (d, debug_gear gear d);
  send_dog_action = λ action d. (d, not_connected_result);
  send_stop = λ d. d;
  send_data = send_data;
}

pub record Placeholder : Type 0 where
  pub has_logger : Bool
  pub opened : Bool
  pub unavailable_logged : Bool

unfoldable pub log_once : Placeholder → Placeholder
log_once p =
    if not p.unavailable_logged && p.has_logger then record p { unavailable_logged = true } else p

abbrev pub placeholder_device :
    (ℕ → String → List ℕ → Placeholder → Placeholder × Bool) → Device Placeholder
placeholder_device send_data = record {
  has_vehicle_control = true;
  has_send_data = true;
  set_completion_callback = λ set p. p;
  open_interface = λ p. (record p { opened = true; unavailable_logged = false }, true);
  close_interface = λ p. record p { opened = false };
  send_drive_command = λ c p. (log_once p, not_connected_result);
  send_gear_command = λ gear p. (log_once p, not_connected_result);
  send_dog_action = λ action p. (log_once p, not_connected_result);
  send_stop = λ p. p;
  send_data = send_data;
}
