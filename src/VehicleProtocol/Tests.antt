-- ===== src/VehicleProtocol/Tests.antt =====
-- The theorems of the vehicle control protocol at concrete messages.
use rtc_framework.Base.{◌≡◌, ◌↔◌, refl, Bool, true, List, [], ◌∷◌, some, arith}
use rtc_framework.Base.Float32.{one_f, zero_f, is_finite, lt_float}
use rtc_framework.VehicleProtocol.Types.{
  DriveCommand, DriveDirection, SteeringDirection, VehicleGear, VehicleErrorCode, DogActionType,
  MessageType, SetGear, DogAction, EventAck, VehicleState, DriveReceiveStatus, encoded_ok,
}
use rtc_framework.VehicleProtocol.Pb.{PbResult, PbEnvelope}
use rtc_framework.VehicleProtocol.Enums.{
  is_known_drive_direction, is_known_steering_direction, is_known_gear, is_known_error_code,
  is_known_dog_action_type, from_pb_message_type, is_known_message_type, is_known_pb_gear,
  from_pb_gear,
}
use rtc_framework.VehicleProtocol.Validate.{
  validate_drive_command, validate_set_gear, validate_dog_action, is_out_of_range,
}
use rtc_framework.VehicleProtocol.ValidateLaws.{DriveCommandIsValid, validate_drive_command_iff}
use rtc_framework.VehicleProtocol.Gate.{
  DriveCommandGate, new_gate, start_gate, accept_drive, recover_drive,
}
use rtc_framework.VehicleProtocol.GateLaws.{
  GateCall, accepts, recovers, polls, IsTimely, IsFresh, RisingFrom, accepted_seqs, run_gate,
  GateIsValid, accept_drive_iff, recover_drive_iff, accepted_seqs-RisingFrom, session-GateIsValid,
}
use rtc_framework.VehicleProtocol.Encode.{
  encode_pb_envelope, fill_drive_command, fill_set_gear, fill_dog_action, fill_event_ack,
  fill_vehicle_state, encode_drive_command, encode_set_gear, encode_dog_action, encode_event_ack,
  encode_vehicle_state,
}
use rtc_framework.VehicleProtocol.Decode.{decode_envelope, decode_pb_envelope, decode_payload}
use rtc_framework.VehicleProtocol.Payloads.{headed, decoded}
use rtc_framework.VehicleProtocol.Roundtrip.{
  decode-encode_drive_command, decode-encode_set_gear, decode-encode_dog_action,
  decode-encode_event_ack, decode-encode_vehicle_state,
}
use rtc_framework.VehicleProtocol.DecodeLaws.{HeaderIsChecked, decode_envelope_checked}
use rtc_framework.VehicleProtocol.Examples.{numbers, numbers-NanopbLaws}

-- Half throttle forward, to the left.
abbrev half_left : DriveCommand
half_left = record {
  drive_direction = DriveDirection.forward;
  steering_direction = SteeringDirection.left;
  throttle = 0x3f000000;
  brake = zero_f;
}

abbrev shift_up : SetGear
shift_up = record { request_id = 7; gear = VehicleGear.forward }

abbrev side_step : DogAction
side_step = record { request_id = 9; action = DogActionType.lateral_left; speed = one_f }

abbrev refusal : EventAck
refusal = record {
  request_id = 7;
  accepted = Bool.false;
  error_code = VehicleErrorCode.invalid_state;
  active_gear = VehicleGear.neutral;
}

abbrev stopped_state : VehicleState
stopped_state = record {
  active_gear = VehicleGear.reverse;
  last_received_drive_seq = 41;
  watchdog_stopped = true;
}

-- 2.0f, a NaN and -1.0f are refused; -0.0f is not.
range_tests :
    (is_out_of_range 0x40000000 ≡ true)
    × (is_out_of_range 0x7fc00000 ≡ true)
    × (is_out_of_range 0xbf800000 ≡ true)
    × (is_out_of_range 0x80000000 ≡ Bool.false)
unfolding is_out_of_range is_finite lt_float
range_tests = (refl, refl, refl, refl)

validate_drive_command_iff_example :
    ((validate_drive_command half_left).valid ≡ true) ↔ DriveCommandIsValid half_left
validate_drive_command_iff_example =
    validate_drive_command_iff half_left (omega arith) (omega arith)

half_left_encodes : encoded_ok (encode_drive_command numbers 5 half_left) ≡ true
unfolding encode_drive_command fill_drive_command encode_pb_envelope validate_drive_command
    is_known_drive_direction is_known_steering_direction is_out_of_range is_finite lt_float
half_left_encodes = refl

decode-encode_drive_command_example :
    decode_envelope numbers (some (encode_drive_command numbers 5 half_left).payload)
    ≡ decoded (record (headed MessageType.drive_command 5) { drive_command = half_left })
decode-encode_drive_command_example =
    decode-encode_drive_command numbers numbers-NanopbLaws 5 half_left (omega arith) (omega arith)
      (omega arith) half_left_encodes

shift_up_encodes : encoded_ok (encode_set_gear numbers 5 shift_up) ≡ true
unfolding encode_set_gear fill_set_gear encode_pb_envelope validate_set_gear is_known_gear
shift_up_encodes = refl

decode-encode_set_gear_example :
    decode_envelope numbers (some (encode_set_gear numbers 5 shift_up).payload)
    ≡ decoded (record (headed MessageType.set_gear 5) { set_gear = shift_up })
decode-encode_set_gear_example =
    decode-encode_set_gear numbers numbers-NanopbLaws 5 shift_up (omega arith) (omega arith)
      shift_up_encodes

side_step_encodes : encoded_ok (encode_dog_action numbers 5 side_step) ≡ true
unfolding encode_dog_action fill_dog_action encode_pb_envelope validate_dog_action
    is_known_dog_action_type is_out_of_range is_finite lt_float
side_step_encodes = refl

decode-encode_dog_action_example :
    decode_envelope numbers (some (encode_dog_action numbers 5 side_step).payload)
    ≡ decoded (record (headed MessageType.dog_action 5) { dog_action = side_step })
decode-encode_dog_action_example =
    decode-encode_dog_action numbers numbers-NanopbLaws 5 side_step (omega arith) (omega arith)
      (omega arith) side_step_encodes

refusal_encodes : encoded_ok (encode_event_ack numbers 5 refusal) ≡ true
unfolding encode_event_ack fill_event_ack encode_pb_envelope is_known_error_code is_known_gear
refusal_encodes = refl

decode-encode_event_ack_example :
    decode_envelope numbers (some (encode_event_ack numbers 5 refusal).payload)
    ≡ decoded (record (headed MessageType.event_ack 5) { event_ack = refusal })
decode-encode_event_ack_example =
    decode-encode_event_ack numbers numbers-NanopbLaws 5 refusal (omega arith) (omega arith)
      refusal_encodes

stopped_state_encodes : encoded_ok (encode_vehicle_state numbers 5 stopped_state) ≡ true
unfolding encode_vehicle_state fill_vehicle_state encode_pb_envelope is_known_gear
stopped_state_encodes = refl

decode-encode_vehicle_state_example :
    decode_envelope numbers (some (encode_vehicle_state numbers 5 stopped_state).payload)
    ≡ decoded (record (headed MessageType.vehicle_state 5) { vehicle_state = stopped_state })
decode-encode_vehicle_state_example =
    decode-encode_vehicle_state numbers numbers-NanopbLaws 5 stopped_state (omega arith)
      (omega arith) stopped_state_encodes

decode_envelope_checked_example :
    (e : PbEnvelope) × (numbers.decode
        (1 ∷ 0x314c4356 ∷ 1 ∷ 1 ∷ 0 ∷ 0 ∷ 1 ∷ 2 ∷ 1 ∷ 8 ∷ 2 ∷ 1 ∷ 7 ∷ 1 ∷ 1 ∷ [])
      ≡ PbResult.done e)
    × HeaderIsChecked e
        (decode_envelope numbers
          (some (1 ∷ 0x314c4356 ∷ 1 ∷ 1 ∷ 0 ∷ 0 ∷ 1 ∷ 2 ∷ 1 ∷ 8 ∷ 2 ∷ 1 ∷ 7 ∷ 1 ∷ 1 ∷ []))).envelope
unfolding decode_envelope decode_pb_envelope decode_payload from_pb_message_type
    is_known_message_type is_known_pb_gear from_pb_gear validate_set_gear is_known_gear
decode_envelope_checked_example =
    decode_envelope_checked numbers numbers-NanopbLaws 1
      (0x314c4356 ∷ 1 ∷ 1 ∷ 0 ∷ 0 ∷ 1 ∷ 2 ∷ 1 ∷ 8 ∷ 2 ∷ 1 ∷ 7 ∷ 1 ∷ 1 ∷ []) refl

-- A gate of 300 ms that was started at 1000 and has accepted number 4 at 1100.
abbrev running : DriveCommandGate
running = record {
  watchdog_ms = 300;
  started = true;
  watchdog_stopped = Bool.false;
  has_received_drive = true;
  last_received_seq = 4;
  last_valid_command_ms = 1100;
}

accept_drive_iff_example :
    ((accept_drive 6 half_left 1200 running).1.status ≡ DriveReceiveStatus.accepted) ↔ (
      (running.started ≡ true)
      × IsTimely 1200 running
      × IsFresh 6 running
      × ((validate_drive_command half_left).valid ≡ true))
accept_drive_iff_example = accept_drive_iff 6 half_left 1200 running

recover_drive_iff_example :
    ((recover_drive 6 half_left 1200 running).1.status ≡ DriveReceiveStatus.accepted) ↔ (
      (running.started ≡ Bool.false)
      × (running.watchdog_stopped ≡ true)
      × IsFresh 6 running
      × ((validate_drive_command half_left).valid ≡ true))
recover_drive_iff_example = recover_drive_iff 6 half_left 1200 running

-- A late command after the watchdog, and a recovery that must be past number 6.
abbrev calls : List GateCall
calls =
    accepts 6 half_left 1200
    ∷ polls 1600
    ∷ recovers 6 half_left 1700
    ∷ recovers 9 half_left 1700
    ∷ []

accepted_seqs-RisingFrom_example : RisingFrom running (accepted_seqs calls running)
accepted_seqs-RisingFrom_example = accepted_seqs-RisingFrom calls running

session-GateIsValid_example : GateIsValid (run_gate calls (start_gate 1000 (new_gate 0)))
session-GateIsValid_example = session-GateIsValid 0 1000 calls
