-- ===== src/VehicleProtocol/Decode.antt =====
-- vehicle_control_protocol.cpp: `DecodeEnvelope`, its checks in their order, and one function for
-- each case of its switch. A null pointer is `none`; the overload on a vector gives `some`.
use rtc_framework.Base.{
  ℕ, not, ◌&&◌, ◌||◌, String, List, [], ◌∷◌, Option, none, some, ◌==◌, if◌then◌else◌,
}
use rtc_framework.VehicleProtocol.Types.{
  DriveCommand, SetGear, DogAction, MessageType, Envelope, DecodeStatus, DecodeResult,
  ValidationResult, default_envelope, vehicle_control_magic, protocol_major_version,
}
use rtc_framework.VehicleProtocol.Pb.{PbPayload, PbEnvelope, PbResult, Nanopb}
use rtc_framework.VehicleProtocol.Enums.{
  from_pb_message_type, from_pb_drive_direction, from_pb_steering_direction, from_pb_gear,
  from_pb_error_code, from_pb_dog_action_type, is_known_message_type, is_known_pb_drive_direction,
  is_known_pb_steering_direction, is_known_pb_gear, is_known_pb_error_code,
  is_known_pb_dog_action_type,
}
use rtc_framework.VehicleProtocol.Validate.{
  validate_drive_command, validate_set_gear, validate_dog_action,
}

abbrev pub decode_error : DecodeStatus → String → DecodeResult
decode_error status text = record {
  status = status;
  envelope = default_envelope;
  error_message = text;
}

abbrev success : Envelope → DecodeResult
success e = record { status = DecodeStatus.decode_ok; envelope = e; error_message = "" }

-- The end of a case: the validated envelope, or the text of the validation.
abbrev check : ValidationResult → Envelope → DecodeResult
check v e = if v.valid then success e else decode_error DecodeStatus.invalid_field v.error_message

abbrev pub mismatch : String → DecodeResult
mismatch text = decode_error DecodeStatus.unexpected_payload text

unfoldable pub decode_drive_command : Envelope → PbPayload → DecodeResult
decode_drive_command e (PbPayload.drive_command p) =
    let command : DriveCommand = record {
      drive_direction = from_pb_drive_direction p.drive_direction;
      steering_direction = from_pb_steering_direction p.steering_direction;
      throttle = p.throttle;
      brake = p.brake;
    } in
    if not (p.has_drive_direction && (p.has_steering_direction && (p.has_throttle && p.has_brake)))
      || (not (is_known_pb_drive_direction p.drive_direction)
          || not (is_known_pb_steering_direction p.steering_direction))
    then decode_error DecodeStatus.invalid_field "drive command has missing or unknown fields"
    else check (validate_drive_command command) (record e { drive_command = command })
decode_drive_command e _ = mismatch "drive command payload is missing or mismatched"

unfoldable pub decode_set_gear : Envelope → PbPayload → DecodeResult
decode_set_gear e (PbPayload.set_gear p) =
    let request : SetGear = record { request_id = p.request_id; gear = from_pb_gear p.gear } in
    if not (p.has_request_id && p.has_gear) || not (is_known_pb_gear p.gear)
    then decode_error DecodeStatus.invalid_field "set gear has missing or unknown fields"
    else check (validate_set_gear request) (record e { set_gear = request })
decode_set_gear e _ = mismatch "set gear payload is missing or mismatched"

unfoldable pub decode_dog_action : Envelope → PbPayload → DecodeResult
decode_dog_action e (PbPayload.dog_action p) =
    let request : DogAction = record {
      request_id = p.request_id;
      action = from_pb_dog_action_type p.action;
      speed = p.speed;
    } in
    if not (p.has_request_id && (p.has_action && p.has_speed))
      || not (is_known_pb_dog_action_type p.action)
    then decode_error DecodeStatus.invalid_field "dog action has missing or unknown fields"
    else check (validate_dog_action request) (record e { dog_action = request })
decode_dog_action e _ = mismatch "dog action payload is missing or mismatched"

unfoldable pub decode_event_ack : Envelope → PbPayload → DecodeResult
decode_event_ack e (PbPayload.event_ack p) =
    if not (p.has_request_id && (p.has_accepted && (p.has_error_code && p.has_active_gear)))
      || (not (is_known_pb_error_code p.error_code)
          || (not (is_known_pb_gear p.active_gear) || p.request_id == 0))
    then decode_error DecodeStatus.invalid_field "event ack has missing or unknown fields"
    else success (record e {
      event_ack = record {
        request_id = p.request_id;
        accepted = p.accepted;
        error_code = from_pb_error_code p.error_code;
        active_gear = from_pb_gear p.active_gear;
      };
    })
decode_event_ack e _ = mismatch "event ack payload is missing or mismatched"

unfoldable pub decode_vehicle_state : Envelope → PbPayload → DecodeResult
decode_vehicle_state e (PbPayload.vehicle_state p) =
    if not (p.has_active_gear && (p.has_last_received_drive_seq && p.has_watchdog_stopped))
      || not (is_known_pb_gear p.active_gear)
    then decode_error DecodeStatus.invalid_field "vehicle state has missing or unknown fields"
    else success (record e {
      vehicle_state = record {
        active_gear = from_pb_gear p.active_gear;
        last_received_drive_seq = p.last_received_drive_seq;
        watchdog_stopped = p.watchdog_stopped;
      };
    })
decode_vehicle_state e _ = mismatch "vehicle state payload is missing or mismatched"

-- The switch over the message type.
unfoldable pub decode_payload : MessageType → Envelope → PbPayload → DecodeResult
unfolding decode_drive_command decode_set_gear decode_dog_action decode_event_ack
    decode_vehicle_state
decode_payload MessageType.drive_command e p = decode_drive_command e p
decode_payload MessageType.set_gear e p = decode_set_gear e p
decode_payload MessageType.dog_action e p = decode_dog_action e p
decode_payload MessageType.event_ack e p = decode_event_ack e p
decode_payload MessageType.vehicle_state e p = decode_vehicle_state e p
decode_payload MessageType.unknown e p =
    decode_error DecodeStatus.invalid_envelope "unknown message type"

-- What follows a successful `pb_decode`.
unfoldable pub decode_pb_envelope : PbEnvelope → DecodeResult
decode_pb_envelope e =
    let type = from_pb_message_type e.type in
    if not e.has_magic || not (e.magic == vehicle_control_magic)
    then decode_error DecodeStatus.invalid_envelope "missing or invalid magic"
    else if not e.has_protocol_major
    then decode_error DecodeStatus.invalid_envelope "missing protocol_major"
    else if not (e.protocol_major == protocol_major_version)
    then decode_error DecodeStatus.unsupported_protocol "unsupported protocol_major"
    else if not e.has_type
    then decode_error DecodeStatus.invalid_envelope "missing type"
    else if not (is_known_message_type type)
    then decode_error DecodeStatus.invalid_envelope "unknown message type"
    else decode_payload type
        (record default_envelope { seq = if e.has_seq then e.seq else 0; type = type }) e.payload

module _ (pb : Nanopb) where
  unfoldable pub decode_envelope : Option (List ℕ) → DecodeResult
  decode_envelope none = decode_error DecodeStatus.empty_payload "empty payload"
  decode_envelope (some []) = decode_error DecodeStatus.empty_payload "empty payload"
  decode_envelope (some (b ∷ bytes)) = elim (pb.decode (b ∷ bytes)) [
    | PbResult.done e ↦ decode_pb_envelope e
    | PbResult.failed text ↦ decode_error DecodeStatus.decode_failed text
  ]
