-- ===== src/VehicleModule/Session.antt =====
-- A session of the vehicle module that runs, with a device that accepts all.
use rtc_framework.Base.{ℕ, ◌+◌, ◌≡◌, refl, true, false, List, [], ◌∷◌, ◌++◌, some}
use rtc_framework.Base.Float32.{one_f, zero_f, lt_float, is_finite}
use rtc_framework.VehicleProtocol.Types.{
  DriveCommand, DriveDirection, SteeringDirection, VehicleErrorCode, decoded_ok,
  vehicle_control_channel_label,
}
use rtc_framework.VehicleProtocol.Encode.{encode_drive_command}
use rtc_framework.VehicleProtocol.Decode.{decode_envelope}
use rtc_framework.VehicleProtocol.Examples.{numbers}
use rtc_framework.VehicleModule.State.{
  Device, Options, PendingEvent, VehicleCommandResult, VehicleControlModule, new_module,
}
use rtc_framework.VehicleModule.Queue.{RtcP2PState, enqueue}
use rtc_framework.VehicleModule.Safety.{is_moving}
use rtc_framework.VehicleModule.SafetyRun.{Call, starts, receives, changes_p2p, ticks, run}
use rtc_framework.VehicleModule.Tick.{tick}
use rtc_framework.VehicleModule.State.{normalize_result}
use rtc_framework.VehicleModule.Send.{
  send_stop_once, stop_for_recoverable_condition, stop_for_safety, send_payload, send_event_ack,
  maybe_send_state,
}
use rtc_framework.VehicleModule.Drive.{ask_gate, forward_drive, after_gate, process_drive_command}
use rtc_framework.VehicleModule.Queue.{enqueue_message, enqueue_p2p_state}
use rtc_framework.VehicleModule.Events.{
  handle_peer_connected, process_control, process_transaction, process_decoded, process_message,
  process_event, process_events,
}
use rtc_framework.VehicleModule.Tick.{poll_drive, poll_lateral, start}
use rtc_framework.VehicleModule.SafetyRun.{step}
use rtc_framework.VehicleProtocol.Encode.{
  fill_drive_command, fill_vehicle_state, fill_header, encode_pb_envelope, encode_filled,
  encode_vehicle_state,
}
use rtc_framework.VehicleProtocol.Decode.{decode_drive_command, decode_payload, decode_pb_envelope}
use rtc_framework.VehicleProtocol.Enums.{
  to_pb_message_type, from_pb_message_type, is_known_message_type, to_pb_drive_direction,
  from_pb_drive_direction, is_known_drive_direction, is_known_pb_drive_direction,
  to_pb_steering_direction, from_pb_steering_direction, is_known_steering_direction,
  is_known_pb_steering_direction, to_pb_gear, from_pb_gear, is_known_gear, is_known_pb_gear,
}
use rtc_framework.VehicleProtocol.Validate.{is_out_of_range, validate_drive_command}
use rtc_framework.VehicleProtocol.Gate.{
  new_gate, start_gate, stop_gate, poll_watchdog, accept_drive,
}
use rtc_framework.Base.Float32.{is_nan}
use rtc_framework.VehicleModule.Lockout.{commands}

abbrev pub plain : VehicleCommandResult
plain = record {
  accepted = true;
  completion_pending = false;
  error_code = VehicleErrorCode.no_error;
  detail = "";
}

-- A device that accepts all, and counts what it is asked to do.
abbrev pub counting : Device ℕ
counting = record {
  has_vehicle_control = true;
  has_send_data = true;
  set_completion_callback = λ b s. s;
  open_interface = λ s. (s, true);
  close_interface = λ s. s;
  send_drive_command = λ c s. (s + 1, plain);
  send_gear_command = λ g s. (s + 1, plain);
  send_dog_action = λ a s. (s + 1, plain);
  send_stop = λ s. s + 1;
  send_data = λ r l b s. (s + 1, true);
}

abbrev pub by_default : Options
by_default = record {
  watchdog_ms = 0;
  state_interval_ms = 0;
  max_pending_events = 0;
  allow_watchdog_recovery = false;
  allow_interface_recovery = false;
}

abbrev pub ahead : DriveCommand
ahead = record {
  throttle = one_f;
  drive_direction = DriveDirection.forward;
  brake = zero_f;
  steering_direction = SteeringDirection.center;
}

-- A peer connects and drives ahead.
abbrev pub session_calls : List Call
session_calls =
    starts
    ∷ changes_p2p 7 RtcP2PState.p2p_connected
    ∷ ticks 100
    ∷ receives 7 (some vehicle_control_channel_label)
        (some (encode_drive_command numbers 1 ahead).payload)
    ∷ []

-- Then a message that does not decode.
abbrev pub broken_calls : List Call
broken_calls =
    session_calls
    ++ ticks 120 ∷ receives 7 (some vehicle_control_channel_label) (some (1 ∷ [])) ∷ ticks 140 ∷ []

pub session_latched :
    (run counting numbers broken_calls (new_module by_default 0)).safety_latched ≡ true
unfolding new_module normalize_result send_stop_once stop_for_recoverable_condition stop_for_safety
    send_payload send_event_ack maybe_send_state ask_gate forward_drive after_gate
    process_drive_command enqueue enqueue_message enqueue_p2p_state handle_peer_connected
    process_control process_transaction process_decoded process_message process_event process_events
    poll_drive poll_lateral tick start is_moving step run fill_drive_command fill_vehicle_state
    fill_header encode_pb_envelope encode_filled encode_drive_command encode_vehicle_state
    decode_drive_command decode_payload decode_pb_envelope decode_envelope to_pb_message_type
    from_pb_message_type is_known_message_type to_pb_drive_direction from_pb_drive_direction
    is_known_drive_direction is_known_pb_drive_direction to_pb_steering_direction
    from_pb_steering_direction is_known_steering_direction is_known_pb_steering_direction to_pb_gear
    from_pb_gear is_known_gear is_known_pb_gear is_out_of_range validate_drive_command new_gate
    start_gate stop_gate poll_watchdog accept_drive is_finite is_nan lt_float
session_latched = refl

pub session_started : (run counting numbers session_calls (new_module by_default 0)).started ≡ true
unfolding new_module normalize_result send_stop_once stop_for_recoverable_condition stop_for_safety
    send_payload send_event_ack maybe_send_state ask_gate forward_drive after_gate
    process_drive_command enqueue enqueue_message enqueue_p2p_state handle_peer_connected
    process_control process_transaction process_decoded process_message process_event process_events
    poll_drive poll_lateral tick start is_moving step run fill_drive_command fill_vehicle_state
    fill_header encode_pb_envelope encode_filled encode_drive_command encode_vehicle_state
    decode_drive_command decode_payload decode_pb_envelope decode_envelope to_pb_message_type
    from_pb_message_type is_known_message_type to_pb_drive_direction from_pb_drive_direction
    is_known_drive_direction is_known_pb_drive_direction to_pb_steering_direction
    from_pb_steering_direction is_known_steering_direction is_known_pb_steering_direction to_pb_gear
    from_pb_gear is_known_gear is_known_pb_gear is_out_of_range validate_drive_command new_gate
    start_gate stop_gate poll_watchdog accept_drive is_finite is_nan lt_float
session_started = refl

pub session_moves :
    is_moving
      (tick counting numbers 120
        (run counting numbers session_calls (new_module by_default 0))).effects
    ≡ true
unfolding new_module normalize_result send_stop_once stop_for_recoverable_condition stop_for_safety
    send_payload send_event_ack maybe_send_state ask_gate forward_drive after_gate
    process_drive_command enqueue enqueue_message enqueue_p2p_state handle_peer_connected
    process_control process_transaction process_decoded process_message process_event process_events
    poll_drive poll_lateral tick start is_moving step run fill_drive_command fill_vehicle_state
    fill_header encode_pb_envelope encode_filled encode_drive_command encode_vehicle_state
    decode_drive_command decode_payload decode_pb_envelope decode_envelope to_pb_message_type
    from_pb_message_type is_known_message_type to_pb_drive_direction from_pb_drive_direction
    is_known_drive_direction is_known_pb_drive_direction to_pb_steering_direction
    from_pb_steering_direction is_known_steering_direction is_known_pb_steering_direction to_pb_gear
    from_pb_gear is_known_gear is_known_pb_gear is_out_of_range validate_drive_command new_gate
    start_gate stop_gate poll_watchdog accept_drive is_finite is_nan lt_float
session_moves = refl

abbrev pub driving : VehicleControlModule ℕ
driving = tick counting numbers 120 (run counting numbers session_calls (new_module by_default 0))

abbrev pub drive_on : PendingEvent
drive_on =
    PendingEvent.message 7 vehicle_control_channel_label
      (some (encode_drive_command numbers 2 ahead).payload)

pub driving_session :
    (driving.has_active_session ≡ true)
    × (driving.active_sessionid ≡ 7)
    × (commands driving.effects ≡ 1)
    × (driving.started ≡ true)
unfolding new_module normalize_result send_stop_once stop_for_recoverable_condition stop_for_safety
    send_payload send_event_ack maybe_send_state ask_gate forward_drive after_gate
    process_drive_command enqueue enqueue_message enqueue_p2p_state handle_peer_connected
    process_control process_transaction process_decoded process_message process_event process_events
    poll_drive poll_lateral tick start is_moving step run fill_drive_command fill_vehicle_state
    fill_header encode_pb_envelope encode_filled encode_drive_command encode_vehicle_state
    decode_drive_command decode_payload decode_pb_envelope decode_envelope to_pb_message_type
    from_pb_message_type is_known_message_type to_pb_drive_direction from_pb_drive_direction
    is_known_drive_direction is_known_pb_drive_direction to_pb_steering_direction
    from_pb_steering_direction is_known_steering_direction is_known_pb_steering_direction to_pb_gear
    from_pb_gear is_known_gear is_known_pb_gear is_out_of_range validate_drive_command new_gate
    start_gate stop_gate poll_watchdog accept_drive is_finite is_nan lt_float commands
driving_session = (refl, refl, refl, refl)

pub one_byte_fails : decoded_ok (decode_envelope numbers (some (1 ∷ []))) ≡ false
unfolding new_module normalize_result send_stop_once stop_for_recoverable_condition stop_for_safety
    send_payload send_event_ack maybe_send_state ask_gate forward_drive after_gate
    process_drive_command enqueue enqueue_message enqueue_p2p_state handle_peer_connected
    process_control process_transaction process_decoded process_message process_event process_events
    poll_drive poll_lateral tick start is_moving step run fill_drive_command fill_vehicle_state
    fill_header encode_pb_envelope encode_filled encode_drive_command encode_vehicle_state
    decode_drive_command decode_payload decode_pb_envelope decode_envelope to_pb_message_type
    from_pb_message_type is_known_message_type to_pb_drive_direction from_pb_drive_direction
    is_known_drive_direction is_known_pb_drive_direction to_pb_steering_direction
    from_pb_steering_direction is_known_steering_direction is_known_pb_steering_direction to_pb_gear
    from_pb_gear is_known_gear is_known_pb_gear is_out_of_range validate_drive_command new_gate
    start_gate stop_gate poll_watchdog accept_drive is_finite is_nan lt_float
one_byte_fails = refl
