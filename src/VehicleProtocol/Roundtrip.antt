-- ===== src/VehicleProtocol/Roundtrip.antt =====
-- `Encode...` followed by `DecodeEnvelope`, message by message.
use rtc_framework.Base.{ℕ, ◌≡◌, ◌≢◌, refl, ap, not, true, List, [], ◌∷◌, some, ◌∙◌, inl, inr, arith}
use rtc_framework.VehicleProtocol.Types.{
  MessageType, DriveCommand, SetGear, DogAction, EventAck, VehicleState, Envelope, encoded_ok,
  default_envelope,
}
use rtc_framework.VehicleProtocol.Pb.{
  Nanopb, NanopbLaws, PbEnvelope, PbPayload, PbResult, PbResult-cases, IsFull, HeaderIsFull, Fits32,
  Fits64,
}
use rtc_framework.VehicleProtocol.Enums.{to_pb_message_type, is_known_message_type}
use rtc_framework.VehicleProtocol.EnumLaws.{message_type_codec}
use rtc_framework.VehicleProtocol.Encode.{
  fill_header, encode_pb_envelope, encode_drive_command, fill_drive_command, encode_set_gear,
  fill_set_gear, encode_dog_action, fill_dog_action, encode_event_ack, fill_event_ack,
  encode_vehicle_state, fill_vehicle_state, encode_filled, Filled,
}
use rtc_framework.VehicleProtocol.Payloads.{
  headed, decoded, has_text, drive_command_payload, drive_command-IsFull, drive_command_text,
  set_gear_payload, set_gear-IsFull, set_gear_text, dog_action_payload, dog_action-IsFull,
  dog_action_text, event_ack_payload, event_ack-IsFull, event_ack_text, vehicle_state_payload,
  vehicle_state-IsFull, vehicle_state_text,
}
use rtc_framework.VehicleProtocol.Decode.{decode_envelope, decode_pb_envelope, decode_payload}

header-HeaderIsFull :
    (t : MessageType) (seq : ℕ) (p : PbPayload) → Fits64 seq → HeaderIsFull (fill_header t seq p)
unfolding fill_header to_pb_message_type
header-HeaderIsFull t seq p h = ground arith

-- A header that `FillHeader` wrote passes every check before the switch.
decode-header :
    (t : MessageType) (seq : ℕ) (p : PbPayload)
    → is_known_message_type t ≡ true
    → decode_pb_envelope (fill_header t seq p)
      ≡ decode_payload t (record default_envelope { seq = seq; type = t }) p
unfolding decode_pb_envelope fill_header is_known_message_type
decode-header t seq p k = rw (message_type_codec t) (rw k)

module _ (pb : Nanopb) (laws : NanopbLaws pb) where
  decode_bytes :
      (e : PbEnvelope) (bytes : List ℕ)
      → bytes ≢ []
      → pb.decode bytes ≡ PbResult.done e
      → decode_envelope pb (some bytes) ≡ decode_pb_envelope e
  unfolding decode_envelope
  decode_bytes e [] ne d = absurd (ne refl)
  decode_bytes e (b ∷ bytes) ne d = rw (d, decode_envelope)

  decode_written :
      (e : PbEnvelope)
      → HeaderIsFull e
      → IsFull e.payload
      → encoded_ok (encode_pb_envelope pb e) ≡ true
      → decode_envelope pb (some (encode_pb_envelope pb e).payload) ≡ decode_pb_envelope e
  unfolding encode_pb_envelope
  decode_written e h f ok = elim (PbResult-cases (pb.encode e)) [
    | inl (bytes, q) ↦
        rw (q, encode_pb_envelope)
          (decode_bytes e bytes (laws.encode-ne-nil e bytes h q) (laws.decode-encode e bytes h f q))
    | inr (text, q) ↦ cc (laws.encode_error_text e text q, rw (q, encode_pb_envelope) at ok)
  ]

  -- A filled message that was written is read by its case of the switch.
  decode-encode_filled :
      {A : Type 0} (t : MessageType) (seq : ℕ) (wrap : A → PbPayload) (a : A)
      → is_known_message_type t ≡ true
      → Fits64 seq
      → IsFull (wrap a)
      → encoded_ok (encode_filled pb t seq wrap (Filled.filled a)) ≡ true
      → decode_envelope pb (some (encode_filled pb t seq wrap (Filled.filled a)).payload)
        ≡ decode_payload t (headed t seq) (wrap a)
  unfolding encode_filled fill_header
  decode-encode_filled t seq wrap a k s f ok =
      decode_written (fill_header t seq (wrap a)) (header-HeaderIsFull t seq (wrap a) s) f ok
      ∙ decode-header t seq (wrap a) k

  decode-encode_of_fill :
      {A : Type 0} (t : MessageType) (seq : ℕ) (wrap : A → PbPayload) (r : Filled A) (e : Envelope)
      → is_known_message_type t ≡ true
      → Fits64 seq
      → has_text r ≡ true
      → ((a : A) → r ≡ Filled.filled a → IsFull (wrap a))
      → ((a : A) → r ≡ Filled.filled a → decode_payload t (headed t seq) (wrap a) ≡ decoded e)
      → encoded_ok (encode_filled pb t seq wrap r) ≡ true
      → decode_envelope pb (some (encode_filled pb t seq wrap r).payload) ≡ decoded e
  unfolding encode_filled
  decode-encode_of_fill t seq wrap (Filled.filled a) e k s x full back ok =
      decode-encode_filled t seq wrap a k s (full a refl) ok ∙ back a refl
  decode-encode_of_fill t seq wrap (Filled.refused text) e k s x full back ok = cc (ap not ok)

  -- A drive command that was encoded is decoded to itself, with its sequence number.
  pub decode-encode_drive_command :
      (seq : ℕ) (c : DriveCommand)
      → Fits64 seq
      → Fits32 c.throttle
      → Fits32 c.brake
      → encoded_ok (encode_drive_command pb seq c) ≡ true
      → decode_envelope pb (some (encode_drive_command pb seq c).payload)
        ≡ decoded (record (headed MessageType.drive_command seq) { drive_command = c })
  unfolding encode_drive_command is_known_message_type
  decode-encode_drive_command seq c s t b ok =
      decode-encode_of_fill MessageType.drive_command seq PbPayload.drive_command
        (fill_drive_command c) _ refl s (drive_command_text c) (λ p. drive_command-IsFull c p t b)
        (drive_command_payload (headed MessageType.drive_command seq) c) ok

  -- A gear request that was encoded is decoded to itself, with its sequence number.
  pub decode-encode_set_gear :
      (seq : ℕ) (c : SetGear)
      → Fits64 seq
      → Fits64 c.request_id
      → encoded_ok (encode_set_gear pb seq c) ≡ true
      → decode_envelope pb (some (encode_set_gear pb seq c).payload)
        ≡ decoded (record (headed MessageType.set_gear seq) { set_gear = c })
  unfolding encode_set_gear is_known_message_type
  decode-encode_set_gear seq c s r ok =
      decode-encode_of_fill MessageType.set_gear seq PbPayload.set_gear (fill_set_gear c) _ refl s
        (set_gear_text c) (λ p. set_gear-IsFull c p r)
        (set_gear_payload (headed MessageType.set_gear seq) c) ok

  -- A dog action that was encoded is decoded to itself, with its sequence number.
  pub decode-encode_dog_action :
      (seq : ℕ) (c : DogAction)
      → Fits64 seq
      → Fits64 c.request_id
      → Fits32 c.speed
      → encoded_ok (encode_dog_action pb seq c) ≡ true
      → decode_envelope pb (some (encode_dog_action pb seq c).payload)
        ≡ decoded (record (headed MessageType.dog_action seq) { dog_action = c })
  unfolding encode_dog_action is_known_message_type
  decode-encode_dog_action seq c s r v ok =
      decode-encode_of_fill MessageType.dog_action seq PbPayload.dog_action (fill_dog_action c) _
        refl s (dog_action_text c) (λ p. dog_action-IsFull c p r v)
        (dog_action_payload (headed MessageType.dog_action seq) c) ok

  -- An acknowledgement that was encoded is decoded to itself, with its sequence number.
  pub decode-encode_event_ack :
      (seq : ℕ) (c : EventAck)
      → Fits64 seq
      → Fits64 c.request_id
      → encoded_ok (encode_event_ack pb seq c) ≡ true
      → decode_envelope pb (some (encode_event_ack pb seq c).payload)
        ≡ decoded (record (headed MessageType.event_ack seq) { event_ack = c })
  unfolding encode_event_ack is_known_message_type
  decode-encode_event_ack seq c s r ok =
      decode-encode_of_fill MessageType.event_ack seq PbPayload.event_ack (fill_event_ack c) _ refl
        s (event_ack_text c) (λ p. event_ack-IsFull c p r)
        (event_ack_payload (headed MessageType.event_ack seq) c) ok

  -- A vehicle state that was encoded is decoded to itself, with its sequence number.
  pub decode-encode_vehicle_state :
      (seq : ℕ) (c : VehicleState)
      → Fits64 seq
      → Fits64 c.last_received_drive_seq
      → encoded_ok (encode_vehicle_state pb seq c) ≡ true
      → decode_envelope pb (some (encode_vehicle_state pb seq c).payload)
        ≡ decoded (record (headed MessageType.vehicle_state seq) { vehicle_state = c })
  unfolding encode_vehicle_state is_known_message_type
  decode-encode_vehicle_state seq c s r ok =
      decode-encode_of_fill MessageType.vehicle_state seq PbPayload.vehicle_state
        (fill_vehicle_state c) _ refl s (vehicle_state_text c) (λ p. vehicle_state-IsFull c p r)
        (vehicle_state_payload (headed MessageType.vehicle_state seq) c) ok
