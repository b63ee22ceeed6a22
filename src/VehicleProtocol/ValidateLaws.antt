-- ===== src/VehicleProtocol/ValidateLaws.antt =====
-- What the `Validate` functions accept.
use rtc_framework.Base.{
  ◌≡◌, refl, sym, ◌≢◌, ◌↔◌, Bool, false, true, String, is_empty, if◌then◌else◌, not, ◌==◌, arith,
}
use rtc_framework.Base.Float32.{Float, IsUnit01, in_range_iff}
use rtc_framework.VehicleProtocol.Types.{DriveCommand, SetGear, DogAction, ValidationResult}
use rtc_framework.VehicleProtocol.Pb.{Fits32}
use rtc_framework.VehicleProtocol.Enums.{
  is_known_drive_direction, is_known_steering_direction, is_known_gear, is_known_dog_action_type,
}
use rtc_framework.VehicleProtocol.Validate.{
  error, accept, refuse, is_out_of_range, validate_drive_command, validate_set_gear,
  validate_dog_action,
}

pub record DriveCommandIsValid (c : DriveCommand) : Type 0 where
  pub drive_listed : is_known_drive_direction c.drive_direction ≡ true
  pub steering_listed : is_known_steering_direction c.steering_direction ≡ true
  pub throttle_unit : IsUnit01 c.throttle
  pub brake_unit : IsUnit01 c.brake

pub record SetGearIsValid (g : SetGear) : Type 0 where
  pub nonzero : g.request_id ≢ 0
  pub gear_listed : is_known_gear g.gear ≡ true

pub record DogActionIsValid (a : DogAction) : Type 0 where
  pub nonzero : a.request_id ≢ 0
  pub action_listed : is_known_dog_action_type a.action ≡ true
  pub speed_unit : IsUnit01 a.speed

out_of_range_iff : (f : Float) → Fits32 f → (is_out_of_range f ≡ false) ↔ IsUnit01 f
unfolding is_out_of_range
out_of_range_iff f h = in_range_iff f h

-- A drive command is accepted exactly when both directions are listed and throttle and brake are
-- numbers from 0 to 1.
pub validate_drive_command_iff :
    (c : DriveCommand)
    → Fits32 c.throttle
    → Fits32 c.brake
    → ((validate_drive_command c).valid ≡ true) ↔ DriveCommandIsValid c
unfolding validate_drive_command
validate_drive_command_iff c t b =
    ground (arith, out_of_range_iff c.throttle t, out_of_range_iff c.brake b)

pub validate_set_gear_iff : (g : SetGear) → ((validate_set_gear g).valid ≡ true) ↔ SetGearIsValid g
unfolding validate_set_gear
validate_set_gear_iff g = ground arith

pub validate_dog_action_iff :
    (a : DogAction) → Fits32 a.speed → ((validate_dog_action a).valid ≡ true) ↔ DogActionIsValid a
unfolding validate_dog_action
validate_dog_action_iff a s = ground (arith, out_of_range_iff a.speed s)

-- A result is valid exactly when its text is empty.
pub record Texted (v : ValidationResult) : Type 0 where
  pub valid_iff_empty : v.valid ≡ is_empty v.error_message

refuse_or :
    (b : Bool) (text : String) (v : ValidationResult)
    → is_empty text ≡ false
    → Texted v
    → Texted (if b then refuse text else v)
refuse_or true text v h t = record { valid_iff_empty = sym h }
refuse_or false text v h t = t

accept-Texted : Texted accept
accept-Texted = record { valid_iff_empty = refl }

-- A refusal always carries a text, so that an encoder that returns it reports failure.
pub validate_drive_command_text : (c : DriveCommand) → Texted (validate_drive_command c)
unfolding validate_drive_command error
validate_drive_command_text c =
    refuse_or (not (is_known_drive_direction c.drive_direction))
      (error "drive_command.drive_direction" "is unknown") _ refl
      (refuse_or (not (is_known_steering_direction c.steering_direction))
        (error "drive_command.steering_direction" "is unknown") _ refl
        (refuse_or (is_out_of_range c.throttle)
          (error "drive_command.throttle" "must be finite and in range 0..1") _ refl
          (refuse_or (is_out_of_range c.brake)
            (error "drive_command.brake" "must be finite and in range 0..1") _ refl accept-Texted)))

pub validate_set_gear_text : (g : SetGear) → Texted (validate_set_gear g)
unfolding validate_set_gear error
validate_set_gear_text g =
    refuse_or (g.request_id == 0) (error "set_gear.request_id" "must be non-zero") _ refl (
      refuse_or (not (is_known_gear g.gear)) (error "set_gear.gear" "is unknown") _ refl
        accept-Texted)

pub validate_dog_action_text : (a : DogAction) → Texted (validate_dog_action a)
unfolding validate_dog_action error
validate_dog_action_text a =
    refuse_or (a.request_id == 0) (error "dog_action.request_id" "must be non-zero") _ refl (
      refuse_or (not (is_known_dog_action_type a.action)) (error "dog_action.action" "is unknown") _
        refl
        (refuse_or (is_out_of_range a.speed)
          (error "dog_action.speed" "must be finite and in range 0..1") _ refl accept-Texted))
