-- ===== src/VehicleProtocol/Encode.antt =====
-- vehicle_control_protocol.cpp: the `Fill` and `Encode` functions. `Fill` gives the filled struct
-- or its error text. A zeroed envelope is filled field by field in the source; here each field is
-- written once.
use rtc_framework.Base.{ℕ, Bool, true, false, not, ◌&&◌, ◌||◌, String, [], ◌==◌, if◌then◌else◌}
use rtc_framework.VehicleProtocol.Types.{
  MessageType, VehicleErrorCode, DriveCommand, SetGear, DogAction, EventAck, VehicleState,
  EncodeResult, ValidationResult, vehicle_control_magic, protocol_major_version,
  protocol_minor_version,
}
use rtc_framework.VehicleProtocol.Pb.{
  PbDriveCommand, PbSetGear, PbDogAction, PbEventAck, PbState, PbPayload, PbEnvelope, PbResult,
  Nanopb,
}
use rtc_framework.VehicleProtocol.Enums.{
  to_pb_message_type, to_pb_drive_direction, to_pb_steering_direction, to_pb_gear, to_pb_error_code,
  to_pb_dog_action_type, is_known_error_code, is_known_gear,
}
use rtc_framework.VehicleProtocol.Validate.{
  error, validate_drive_command, validate_set_gear, validate_dog_action,
}

-- A filled struct, or the text that `Fill` leaves in `*error`.
pub data Filled (A : Type 0) : Type 0 where
  filled : A → Filled A
  refused : String → Filled A

abbrev pub fill_if : {A : Type 0} → ValidationResult → A → Filled A
fill_if v a = if v.valid then Filled.filled a else Filled.refused v.error_message

unfoldable pub fill_drive_command : DriveCommand → Filled PbDriveCommand
fill_drive_command c = fill_if (validate_drive_command c) (record {
  has_drive_direction = true;
  drive_direction = to_pb_drive_direction c.drive_direction;
  has_steering_direction = true;
  steering_direction = to_pb_steering_direction c.steering_direction;
  has_throttle = true;
  throttle = c.throttle;
  has_brake = true;
  brake = c.brake;
})

unfoldable pub fill_set_gear : SetGear → Filled PbSetGear
fill_set_gear g = fill_if (validate_set_gear g) (record {
  has_request_id = true;
  request_id = g.request_id;
  has_gear = true;
  gear = to_pb_gear g.gear;
})

unfoldable pub fill_dog_action : DogAction → Filled PbDogAction
fill_dog_action a = fill_if (validate_dog_action a) (record {
  has_request_id = true;
  request_id = a.request_id;
  has_action = true;
  action = to_pb_dog_action_type a.action;
  has_speed = true;
  speed = a.speed;
})

abbrev pub is_no_error : VehicleErrorCode → Bool
is_no_error VehicleErrorCode.no_error = true
is_no_error _ = false

unfoldable pub fill_event_ack : EventAck → Filled PbEventAck
fill_event_ack a =
    if a.request_id == 0
    then Filled.refused (error "event_ack.request_id" "must be non-zero")
    else if not (is_known_error_code a.error_code) || not (is_known_gear a.active_gear)
    then Filled.refused (error "event_ack" "contains an unknown enum value")
    else if (a.accepted && not (is_no_error a.error_code))
        || (not a.accepted && is_no_error a.error_code)
    then Filled.refused (error "event_ack" "acceptance and error_code are inconsistent")
    else Filled.filled (record {
      has_request_id = true;
      request_id = a.request_id;
      has_accepted = true;
      accepted = a.accepted;
      has_error_code = true;
      error_code = to_pb_error_code a.error_code;
      has_active_gear = true;
      active_gear = to_pb_gear a.active_gear;
    })

unfoldable pub fill_vehicle_state : VehicleState → Filled PbState
fill_vehicle_state s =
    if not (is_known_gear s.active_gear)
    then Filled.refused (error "vehicle_state.active_gear" "is unknown")
    else Filled.filled (record {
      has_active_gear = true;
      active_gear = to_pb_gear s.active_gear;
      has_last_received_drive_seq = true;
      last_received_drive_seq = s.last_received_drive_seq;
      has_watchdog_stopped = true;
      watchdog_stopped = s.watchdog_stopped;
    })

-- `FillHeader` over a zeroed envelope, with the payload that the caller sets beside it.
unfoldable pub fill_header : MessageType → ℕ → PbPayload → PbEnvelope
fill_header type seq payload = record {
  has_magic = true;
  magic = vehicle_control_magic;
  has_protocol_major = true;
  protocol_major = protocol_major_version;
  has_protocol_minor = true;
  protocol_minor = protocol_minor_version;
  has_type = true;
  type = to_pb_message_type type;
  has_seq = true;
  seq = seq;
  payload = payload;
}

module _ (pb : Nanopb) where
  unfoldable pub encode_pb_envelope : PbEnvelope → EncodeResult
  encode_pb_envelope e = elim (pb.encode e) [
    | PbResult.done bytes ↦ record { payload = bytes; error_message = "" }
    | PbResult.failed text ↦ record { payload = []; error_message = text }
  ]

  -- The common tail of the `Encode` functions.
  unfoldable pub encode_filled :
      {A : Type 0} → MessageType → ℕ → (A → PbPayload) → Filled A → EncodeResult
  encode_filled type seq wrap (Filled.filled a) = encode_pb_envelope (fill_header type seq (wrap a))
  encode_filled type seq wrap (Filled.refused text) = record { payload = []; error_message = text }

  unfoldable pub encode_drive_command : ℕ → DriveCommand → EncodeResult
  unfolding encode_filled
  encode_drive_command seq c =
      encode_filled MessageType.drive_command seq PbPayload.drive_command (fill_drive_command c)

  unfoldable pub encode_set_gear : ℕ → SetGear → EncodeResult
  unfolding encode_filled
  encode_set_gear seq g =
      encode_filled MessageType.set_gear seq PbPayload.set_gear (fill_set_gear g)

  unfoldable pub encode_dog_action : ℕ → DogAction → EncodeResult
  unfolding encode_filled
  encode_dog_action seq a =
      encode_filled MessageType.dog_action seq PbPayload.dog_action (fill_dog_action a)

  unfoldable pub encode_event_ack : ℕ → EventAck → EncodeResult
  unfolding encode_filled
  encode_event_ack seq a =
      encode_filled MessageType.event_ack seq PbPayload.event_ack (fill_event_ack a)

  unfoldable pub encode_vehicle_state : ℕ → VehicleState → EncodeResult
  unfolding encode_filled
  encode_vehicle_state seq s =
      encode_filled MessageType.vehicle_state seq PbPayload.vehicle_state (fill_vehicle_state s)
