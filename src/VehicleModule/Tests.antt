-- ===== src/VehicleModule/Tests.antt =====
-- The theorems of the vehicle module on a session that runs.
use rtc_framework.Base.{
  ℕ, ◌+◌, ◌≤◌, ◌<◌, ◌≡◌, ◌≢◌, refl, true, false, ◌⊎◌, inl, [], ◌∷◌, ◌++◌, none, some, length, arith,
}
use rtc_framework.Base.Assoc.{lookup}
use rtc_framework.VehicleProtocol.Types.{vehicle_control_channel_label}
use rtc_framework.VehicleProtocol.Examples.{numbers}
use rtc_framework.VehicleModule.State.{PendingEvent, VehicleControlModule, new_module}
use rtc_framework.VehicleModule.Queue.{enqueue}
use rtc_framework.VehicleModule.Safety.{is_moving}
use rtc_framework.VehicleModule.SafetyRun.{run, latched_at_rest, moving_is_recent}
use rtc_framework.VehicleModule.Tick.{tick}
use rtc_framework.VehicleModule.Events.{process_events}
use rtc_framework.VehicleProtocol.Enums.{is_known_gear}
use rtc_framework.VehicleModule.Lockout.{IsLockedOut}
use rtc_framework.VehicleModule.LockoutEvents.{
  tick-IsLockedOut, overflow_locks_out, bad_message_locks_out,
}
use rtc_framework.Base.Float32.{one_f}
use rtc_framework.VehicleProtocol.Types.{VehicleGear, default_envelope}
use rtc_framework.Dog.Types.{standstill, new_impl}
use rtc_framework.Dog.Forward.{Forwarder, send_drive_command, send_gear_command, send_dog_action}
use rtc_framework.VehicleModule.Interfaces.{Debug, debug_drive, debug_gear, not_connected_result}
use rtc_framework.VehicleModule.InterfaceLaws.{IsNormal, answers_unchanged}
use rtc_framework.VehicleModule.DogLaws.{allocate_fresh}
use rtc_framework.VehicleModule.Dog.{allocate_dog_action_completion_id}
use rtc_framework.VehicleModule.QueueLaws.{enqueue_bounded, event_ack_fills, is_filled}
use rtc_framework.VehicleProtocol.Encode.{fill_event_ack}
use rtc_framework.VehicleModule.Send.{ack_of}
use rtc_framework.VehicleProtocol.GateLaws.{IsTimely}
use rtc_framework.VehicleProtocol.Enums.{is_known_error_code}
use rtc_framework.VehicleModule.Session.{
  plain, counting, by_default, session_calls, broken_calls, driving, drive_on, session_latched,
  session_started, session_moves, driving_session, one_byte_fails,
}

latched_at_rest_example :
    is_moving (run counting numbers broken_calls (new_module by_default 0)).effects ≡ false
latched_at_rest_example =
    latched_at_rest counting refl numbers by_default 0 broken_calls (inl session_latched)

moving_is_recent_example :
    let s =
      tick counting numbers 120 (run counting numbers session_calls (new_module by_default 0)) in
    (s.has_active_session ≡ true)
    × (s.safety_latched ≡ false)
    × (((s.drive_gate.started ≡ true) × IsTimely 120 s.drive_gate)
        ⊎ ((s.dog_lateral_active ≡ true)
            × ((120 < s.last_dog_lateral_ms)
                ⊎ (120 < s.last_dog_lateral_ms + s.options.watchdog_ms))))
moving_is_recent_example =
    moving_is_recent counting refl numbers by_default 0 session_calls 120 session_started
      session_moves

-- The drive command after the broken message is not obeyed.
bad_message_locks_out_example : IsLockedOut 7 1 (
    process_events counting numbers
      (PendingEvent.message 7 vehicle_control_channel_label (some (1 ∷ [])) ∷ drive_on ∷ [])
      140
      driving)
bad_message_locks_out_example =
    bad_message_locks_out counting numbers 7 1 vehicle_control_channel_label (1 ∷ [])
      (drive_on ∷ []) 140 driving driving_session.0 driving_session.1 driving_session.2
      one_byte_fails (tt, tt)

abbrev locked : VehicleControlModule ℕ
locked =
    record (process_events counting numbers
      (PendingEvent.message 7 vehicle_control_channel_label (some (1 ∷ [])) ∷ drive_on ∷ []) 140
      driving) { pending_events = drive_on ∷ [] }

locked-IsLockedOut : IsLockedOut 7 1 locked
locked-IsLockedOut =
    let v =
      bad_message_locks_out counting numbers 7 1 vehicle_control_channel_label (1 ∷ [])
        (drive_on ∷ []) 140 driving driving_session.0 driving_session.1 driving_session.2
        one_byte_fails (tt, tt) in
    record {
      active = v.active;
      of_session = v.of_session;
      latched = v.latched;
      not_awaiting = v.not_awaiting;
      not_recoverable = v.not_recoverable;
      gate_stopped = v.gate_stopped;
      not_lateral = v.not_lateral;
      commanded = v.commanded;
    }

tick-IsLockedOut_example : IsLockedOut 7 1 (tick counting numbers 160 locked)
tick-IsLockedOut_example =
    tick-IsLockedOut counting numbers 7 1 160 locked (tt, tt) locked-IsLockedOut

abbrev flooded : VehicleControlModule ℕ
flooded = record driving { pending_events = drive_on ∷ []; pending_overflow = true }

overflow_locks_out_example : IsLockedOut 7 1 (tick counting numbers 160 flooded)
overflow_locks_out_example =
    overflow_locks_out counting numbers 7 1 160 flooded driving_session.3 refl driving_session.0
      driving_session.1 driving_session.2 (tt, tt)

-- The number 1 is in use.
abbrev with_action : VehicleControlModule ℕ
with_action = record (new_module by_default 0) {
  pending_dog_actions = (1, record { remote_sessionid = 7; request_id = 9 }) ∷ [];
}

allocate_fresh_example :
    (allocate_dog_action_completion_id with_action ≢ 0)
    × (lookup (allocate_dog_action_completion_id with_action) with_action.pending_dog_actions
        ≡ none)
unfolding new_module
allocate_fresh_example = allocate_fresh with_action (omega arith) (omega arith)

-- A queue of one place that is full.
abbrev full : VehicleControlModule ℕ
full = record (new_module (record by_default { max_pending_events = 1 }) 0) {
  pending_events = PendingEvent.peer_connected 7 ∷ [];
}

enqueue_bounded_example :
    (length (enqueue drive_on full).pending_events ≤ full.options.max_pending_events)
    × (((enqueue drive_on full).pending_events ≡ full.pending_events ++ drive_on ∷ [])
          × ((enqueue drive_on full).pending_overflow ≡ full.pending_overflow)
        ⊎ ((enqueue drive_on full).pending_events ≡ drive_on ∷ [])
          × ((enqueue drive_on full).pending_overflow ≡ true)
          × (length full.pending_events ≡ full.options.max_pending_events))
unfolding new_module
enqueue_bounded_example = enqueue_bounded drive_on full (omega arith) (omega arith)

event_ack_fills_example :
    is_filled (fill_event_ack (ack_of counting numbers with_action 9 plain)) ≡ true
unfolding new_module is_known_error_code is_known_gear
event_ack_fills_example =
    event_ack_fills counting numbers with_action 9 plain (omega arith) refl refl

abbrev closed_forwarder : Forwarder
closed_forwarder = record {
  config = record {
    max_forward_speed = one_f;
    max_angular_speed = one_f;
    max_lateral_speed = one_f;
    reconnect_interval_ms = 3000;
    connect_timeout_ms = 3000;
    shutdown_timeout_ms = 250;
    behavior_result_timeout_ms = 15000;
  };
  last = standstill;
  last_sent_at = 0;
  behavior_seq = 0;
  impl = new_impl;
}

answers_unchanged_example :
    let c = default_envelope.drive_command in
    let a = default_envelope.dog_action in
    let d : Debug = record { has_logger = false; opened = true } in
    IsNormal (send_drive_command (λ x y. x) 5 c closed_forwarder).1
    × (IsNormal (send_gear_command VehicleGear.neutral)
        × (IsNormal
              (send_dog_action
                (λ x y. x)
                5
                (record { goal = 1; now_secs = 0 })
                a
                closed_forwarder).1
            × (IsNormal (debug_drive c d)
                × (IsNormal (debug_gear VehicleGear.neutral d) × IsNormal not_connected_result))))
answers_unchanged_example =
    answers_unchanged (λ x y. x) 5 (record { goal = 1; now_secs = 0 })
      default_envelope.drive_command VehicleGear.neutral default_envelope.dog_action
      closed_forwarder (record { has_logger = false; opened = true })
