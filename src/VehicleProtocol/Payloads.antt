-- ===== src/VehicleProtocol/Payloads.antt =====
-- The `Fill` functions of the encoder and the cases of the decoder's switch, message by message.
use rtc_framework.Base.{ℕ, ◌≡◌, Bool, true, not, is_empty, arith}
use rtc_framework.VehicleProtocol.Types.{
  MessageType, DecodeStatus, DriveCommand, SetGear, DogAction, EventAck, VehicleState, Envelope,
  DecodeResult, ValidationResult, default_envelope,
}
use rtc_framework.VehicleProtocol.Pb.{
  PbDriveCommand, PbSetGear, PbDogAction, PbEventAck, PbState, PbPayload, IsFull, Fits32, Fits64,
}
use rtc_framework.VehicleProtocol.EnumLaws.{
  drive_direction_codec, steering_direction_codec, gear_codec, error_code_codec,
  dog_action_type_codec,
}
use rtc_framework.VehicleProtocol.Validate.{
  error, validate_drive_command, validate_set_gear, validate_dog_action,
}
use rtc_framework.VehicleProtocol.ValidateLaws.{
  Texted, validate_drive_command_text, validate_set_gear_text, validate_dog_action_text,
}
use rtc_framework.VehicleProtocol.Encode.{
  Filled, fill_if, fill_drive_command, fill_set_gear, fill_dog_action, fill_event_ack,
  fill_vehicle_state,
}
use rtc_framework.VehicleProtocol.Decode.{decode_payload}

-- The envelope of a message, before its payload is put in.
abbrev pub headed : MessageType → ℕ → Envelope
headed t seq = record default_envelope { seq = seq; type = t }

abbrev pub decoded : Envelope → DecodeResult
decoded e = record { status = DecodeStatus.decode_ok; envelope = e; error_message = "" }

-- A refusal has a text.
abbrev pub has_text : {A : Type 0} → Filled A → Bool
has_text (Filled.filled a) = true
has_text (Filled.refused text) = not (is_empty text)

fill_if-has_text :
    {A : Type 0} (v : ValidationResult) (a : A) → Texted v → has_text (fill_if v a) ≡ true
fill_if-has_text v a x = ground (arith, x.valid_iff_empty)

pub drive_command_payload :
    (e : Envelope) (c : DriveCommand) (p : PbDriveCommand)
    → fill_drive_command c ≡ Filled.filled p
    → decode_payload MessageType.drive_command e (PbPayload.drive_command p)
      ≡ decoded (record e { drive_command = c })
unfolding fill_drive_command decode_payload validate_drive_command
drive_command_payload e c p h =
    ground (
      arith,
      drive_direction_codec c.drive_direction,
      steering_direction_codec c.steering_direction,
    )

pub drive_command-IsFull :
    (c : DriveCommand) (p : PbDriveCommand)
    → Fits32 c.throttle
    → Fits32 c.brake
    → fill_drive_command c ≡ Filled.filled p
    → IsFull (PbPayload.drive_command p)
unfolding fill_drive_command validate_drive_command
drive_command-IsFull c p f g h =
    ground (
      arith,
      drive_direction_codec c.drive_direction,
      steering_direction_codec c.steering_direction,
    )

pub drive_command_text : (c : DriveCommand) → has_text (fill_drive_command c) ≡ true
unfolding fill_drive_command
drive_command_text c = fill_if-has_text _ _ (validate_drive_command_text c)

pub set_gear_payload :
    (e : Envelope) (c : SetGear) (p : PbSetGear)
    → fill_set_gear c ≡ Filled.filled p
    → decode_payload MessageType.set_gear e (PbPayload.set_gear p)
      ≡ decoded (record e { set_gear = c })
unfolding fill_set_gear decode_payload validate_set_gear
set_gear_payload e c p h = ground (arith, gear_codec c.gear)

pub set_gear-IsFull :
    (c : SetGear) (p : PbSetGear)
    → Fits64 c.request_id
    → fill_set_gear c ≡ Filled.filled p
    → IsFull (PbPayload.set_gear p)
unfolding fill_set_gear validate_set_gear
set_gear-IsFull c p f h = ground (arith, gear_codec c.gear)

pub set_gear_text : (c : SetGear) → has_text (fill_set_gear c) ≡ true
unfolding fill_set_gear
set_gear_text c = fill_if-has_text _ _ (validate_set_gear_text c)

pub dog_action_payload :
    (e : Envelope) (c : DogAction) (p : PbDogAction)
    → fill_dog_action c ≡ Filled.filled p
    → decode_payload MessageType.dog_action e (PbPayload.dog_action p)
      ≡ decoded (record e { dog_action = c })
unfolding fill_dog_action decode_payload validate_dog_action
dog_action_payload e c p h = ground (arith, dog_action_type_codec c.action)

pub dog_action-IsFull :
    (c : DogAction) (p : PbDogAction)
    → Fits64 c.request_id
    → Fits32 c.speed
    → fill_dog_action c ≡ Filled.filled p
    → IsFull (PbPayload.dog_action p)
unfolding fill_dog_action validate_dog_action
dog_action-IsFull c p f g h = ground (arith, dog_action_type_codec c.action)

pub dog_action_text : (c : DogAction) → has_text (fill_dog_action c) ≡ true
unfolding fill_dog_action
dog_action_text c = fill_if-has_text _ _ (validate_dog_action_text c)

pub event_ack_payload :
    (e : Envelope) (c : EventAck) (p : PbEventAck)
    → fill_event_ack c ≡ Filled.filled p
    → decode_payload MessageType.event_ack e (PbPayload.event_ack p)
      ≡ decoded (record e { event_ack = c })
unfolding fill_event_ack decode_payload
event_ack_payload e c p h = ground (arith, error_code_codec c.error_code, gear_codec c.active_gear)

pub event_ack-IsFull :
    (c : EventAck) (p : PbEventAck)
    → Fits64 c.request_id
    → fill_event_ack c ≡ Filled.filled p
    → IsFull (PbPayload.event_ack p)
unfolding fill_event_ack
event_ack-IsFull c p f h = ground (arith, error_code_codec c.error_code, gear_codec c.active_gear)

pub event_ack_text : (c : EventAck) → has_text (fill_event_ack c) ≡ true
unfolding fill_event_ack error
event_ack_text c = ground arith

pub vehicle_state_payload :
    (e : Envelope) (c : VehicleState) (p : PbState)
    → fill_vehicle_state c ≡ Filled.filled p
    → decode_payload MessageType.vehicle_state e (PbPayload.vehicle_state p)
      ≡ decoded (record e { vehicle_state = c })
unfolding fill_vehicle_state decode_payload
vehicle_state_payload e c p h = ground (arith, gear_codec c.active_gear)

pub vehicle_state-IsFull :
    (c : VehicleState) (p : PbState)
    → Fits64 c.last_received_drive_seq
    → fill_vehicle_state c ≡ Filled.filled p
    → IsFull (PbPayload.vehicle_state p)
unfolding fill_vehicle_state
vehicle_state-IsFull c p f h = ground (arith, gear_codec c.active_gear)

pub vehicle_state_text : (c : VehicleState) → has_text (fill_vehicle_state c) ≡ true
unfolding fill_vehicle_state error
vehicle_state_text c = ground arith
