-- ===== src/VehicleProtocol/DecodeLaws.antt =====
-- What `DecodeEnvelope` lets through.
use rtc_framework.Base.{
  ℕ, ◌≡◌, ◌≢◌, refl, sym, subst, inl, inr, true, List, ◌∷◌, some, if◌then◌else◌, arith,
}
use rtc_framework.VehicleProtocol.Types.{
  default_envelope, MessageType, Envelope, decoded_ok, EventAck, vehicle_control_magic,
  protocol_major_version,
}
use rtc_framework.VehicleProtocol.Pb.{
  PbResult-cases, Nanopb, NanopbLaws, PbEnvelope, PbPayload, PbResult, PayloadFits,
}
use rtc_framework.VehicleProtocol.Enums.{
  from_pb_message_type, from_pb_drive_direction, from_pb_steering_direction, from_pb_gear,
  from_pb_dog_action_type, is_known_gear, is_known_error_code,
}
use rtc_framework.VehicleProtocol.EnumLaws.{from_pb_gear_known, from_pb_error_code_known}
use rtc_framework.VehicleProtocol.ValidateLaws.{
  DriveCommandIsValid, SetGearIsValid, DogActionIsValid, validate_drive_command_iff,
  validate_set_gear_iff, validate_dog_action_iff,
}
use rtc_framework.VehicleProtocol.Decode.{
  decode_payload, decode_pb_envelope, decode_envelope, decode_drive_command, decode_set_gear,
  decode_dog_action, decode_event_ack, decode_vehicle_state,
}

pub record EventAckIsValid (a : EventAck) : Type 0 where
  pub nonzero : a.request_id ≢ 0
  pub code_listed : is_known_error_code a.error_code ≡ true
  pub gear_listed : is_known_gear a.active_gear ≡ true

-- The message that an envelope is of is valid.
abbrev pub MessageIsValid : MessageType → Envelope → Type 0
MessageIsValid MessageType.unknown e = ⊥
MessageIsValid MessageType.drive_command e = DriveCommandIsValid e.drive_command
MessageIsValid MessageType.set_gear e = SetGearIsValid e.set_gear
MessageIsValid MessageType.dog_action e = DogActionIsValid e.dog_action
MessageIsValid MessageType.event_ack e = EventAckIsValid e.event_ack
MessageIsValid MessageType.vehicle_state e = is_known_gear e.vehicle_state.active_gear ≡ true

decode_drive_command_valid :
    (e : Envelope) (p : PbPayload)
    → PayloadFits p
    → decoded_ok (decode_drive_command e p) ≡ true
    → MessageIsValid MessageType.drive_command (decode_drive_command e p).envelope
unfolding decode_drive_command
decode_drive_command_valid e (PbPayload.drive_command p) f h = ground (
  arith,
  validate_drive_command_iff
      (record {
        drive_direction = from_pb_drive_direction p.drive_direction;
        steering_direction = from_pb_steering_direction p.steering_direction;
        throttle = p.throttle;
        brake = p.brake;
      })
      f.0 f.1,
)
decode_drive_command_valid e _ f h = cc

decode_set_gear_valid :
    (e : Envelope) (p : PbPayload)
    → decoded_ok (decode_set_gear e p) ≡ true
    → MessageIsValid MessageType.set_gear (decode_set_gear e p).envelope
unfolding decode_set_gear
decode_set_gear_valid e (PbPayload.set_gear p) h = ground (
  arith,
  validate_set_gear_iff (record { request_id = p.request_id; gear = from_pb_gear p.gear }),
)
decode_set_gear_valid e _ h = cc

decode_dog_action_valid :
    (e : Envelope) (p : PbPayload)
    → PayloadFits p
    → decoded_ok (decode_dog_action e p) ≡ true
    → MessageIsValid MessageType.dog_action (decode_dog_action e p).envelope
unfolding decode_dog_action
decode_dog_action_valid e (PbPayload.dog_action p) f h = ground (
  arith,
  validate_dog_action_iff
      (record {
        request_id = p.request_id;
        action = from_pb_dog_action_type p.action;
        speed = p.speed;
      })
      f.1,
)
decode_dog_action_valid e _ f h = cc

decode_event_ack_valid :
    (e : Envelope) (p : PbPayload)
    → decoded_ok (decode_event_ack e p) ≡ true
    → MessageIsValid MessageType.event_ack (decode_event_ack e p).envelope
unfolding decode_event_ack
decode_event_ack_valid e (PbPayload.event_ack p) h =
    ground (arith, from_pb_error_code_known p.error_code, from_pb_gear_known p.active_gear)
decode_event_ack_valid e _ h = cc

decode_vehicle_state_valid :
    (e : Envelope) (p : PbPayload)
    → decoded_ok (decode_vehicle_state e p) ≡ true
    → MessageIsValid MessageType.vehicle_state (decode_vehicle_state e p).envelope
unfolding decode_vehicle_state
decode_vehicle_state_valid e (PbPayload.vehicle_state p) h =
    ground (arith, from_pb_gear_known p.active_gear)
decode_vehicle_state_valid e _ h = cc

decode_payload_valid :
    (t : MessageType) (e : Envelope) (p : PbPayload)
    → PayloadFits p
    → decoded_ok (decode_payload t e p) ≡ true
    → MessageIsValid t (decode_payload t e p).envelope
unfolding decode_payload
decode_payload_valid MessageType.unknown e p f h = cc
decode_payload_valid MessageType.drive_command e p f h = decode_drive_command_valid e p f h
decode_payload_valid MessageType.set_gear e p f h = decode_set_gear_valid e p h
decode_payload_valid MessageType.dog_action e p f h = decode_dog_action_valid e p f h
decode_payload_valid MessageType.event_ack e p f h = decode_event_ack_valid e p h
decode_payload_valid MessageType.vehicle_state e p f h = decode_vehicle_state_valid e p h

decode_payload_type :
    (t : MessageType) (e : Envelope) (p : PbPayload)
    → e.type ≡ t
    → decoded_ok (decode_payload t e p) ≡ true
    → ((decode_payload t e p).envelope.type ≡ t) × ((decode_payload t e p).envelope.seq ≡ e.seq)
unfolding decode_payload
decode_payload_type MessageType.unknown e p q h = cc
decode_payload_type MessageType.drive_command e p q h = ground arith
decode_payload_type _ e p q h = ground arith

-- A message that was let through carried this header, and the sequence number is the one read.
pub record HeaderIsChecked (e : PbEnvelope) (result : Envelope) : Type 0 where
  pub magic_right : (e.has_magic ≡ true) × (e.magic ≡ vehicle_control_magic)
  pub major_right : (e.has_protocol_major ≡ true) × (e.protocol_major ≡ protocol_major_version)
  pub type_right : (e.has_type ≡ true) × (result.type ≡ from_pb_message_type e.type)
  pub seq_right : result.seq ≡ (if e.has_seq then e.seq else 0)
  pub message_valid : MessageIsValid result.type result

-- The envelope that the switch starts from.
abbrev pub read_header : PbEnvelope → Envelope
read_header e = record default_envelope {
  seq = if e.has_seq then e.seq else 0;
  type = from_pb_message_type e.type;
}

decode_pb_envelope_header :
    (e : PbEnvelope)
    → decoded_ok (decode_pb_envelope e) ≡ true
    → (e.has_magic ≡ true)
      × (e.magic ≡ vehicle_control_magic)
      × (e.has_protocol_major ≡ true)
      × (e.protocol_major ≡ protocol_major_version)
      × (e.has_type ≡ true)
      × (decode_pb_envelope e
          ≡ decode_payload (from_pb_message_type e.type) (read_header e) e.payload)
unfolding decode_pb_envelope
decode_pb_envelope_header e h = ground arith

pub decode_pb_envelope_checked :
    (e : PbEnvelope)
    → PayloadFits e.payload
    → decoded_ok (decode_pb_envelope e) ≡ true
    → HeaderIsChecked e (decode_pb_envelope e).envelope
decode_pb_envelope_checked e f h =
    let (a, b, c, d, g, q) = decode_pb_envelope_header e h in
    let t = from_pb_message_type e.type in
    let r = decode_payload_type t (read_header e) e.payload refl (rw q at h) in
    rw q (record {
      magic_right = (a, b);
      major_right = (c, d);
      type_right = (g, r.0);
      seq_right = r.1;
      message_valid =
          subst (λ u. MessageIsValid u (decode_payload t (read_header e) e.payload).envelope)
            (sym r.0) (decode_payload_valid t (read_header e) e.payload f (rw q at h));
    })

module _ (pb : Nanopb) (laws : NanopbLaws pb) where
  -- Bytes that decode were a nanopb message with the right magic and major version and a known
  -- type, and the decoded message is of that type, in range, listed and with a non-zero request id.
  pub decode_envelope_checked :
      (b : ℕ) (bytes : List ℕ)
      → decoded_ok (decode_envelope pb (some (b ∷ bytes))) ≡ true
      → (e : PbEnvelope) × (pb.decode (b ∷ bytes) ≡ PbResult.done e)
        × HeaderIsChecked e (decode_envelope pb (some (b ∷ bytes))).envelope
  unfolding decode_envelope
  decode_envelope_checked b bytes h = elim (PbResult-cases (pb.decode (b ∷ bytes))) [
    | inl (e, q) ↦ (
      e,
      q,
      rw (q, decode_envelope)
          (decode_pb_envelope_checked e (laws.decode_fits _ e q).1 (rw (q, decode_envelope) at h)),
    )
    | inr (text, q) ↦ cc (rw (q, decode_envelope) at h)
  ]
