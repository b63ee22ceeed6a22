-- ===== src/VehicleModule/Drive.antt =====
-- vehicle_control_module.cpp: `ProcessDriveCommand` and `ProcessSetGear`.
use rtc_framework.Base.{ℕ, Bool, true, false, not, ◌&&◌, String, ◌∷◌, if◌then◌else◌}
use rtc_framework.VehicleProtocol.Types.{
  DriveCommand, SetGear, VehicleErrorCode, DriveReceiveStatus, DriveReceiveResult,
}
use rtc_framework.VehicleProtocol.Pb.{Nanopb}
use rtc_framework.VehicleProtocol.Gate.{DriveCommandGate, start_gate, accept_drive, recover_drive}
use rtc_framework.VehicleModule.State.{
  Device, Effect, VehicleCommandResult, VehicleControlModule, normalize_result,
}
use rtc_framework.VehicleModule.Send.{
  stop_for_recoverable_condition, stop_for_safety, send_event_ack,
}

abbrev pub is_invalid_state : VehicleErrorCode → Bool
is_invalid_state VehicleErrorCode.invalid_state = true
is_invalid_state _ = false

-- A request that is refused before it reaches the device.
abbrev pub rejected : String → VehicleCommandResult
rejected text = record {
  accepted = false;
  completion_pending = false;
  error_code = VehicleErrorCode.invalid_state;
  detail = text;
}

module _ {S : Type 0} (d : Device S) where
  -- What the gate says of the command: recovery after a recoverable stop, or a normal command,
  -- for which the first one of a session starts the gate.
  unfoldable pub ask_gate :
      ℕ → DriveCommand → ℕ → VehicleControlModule S → DriveCommandGate × DriveReceiveResult
  ask_gate seq command now s =
      if s.recoverable_stop_pending
      then recover_drive seq command now s.drive_gate
      else accept_drive seq command now
          (if s.awaiting_first_drive then start_gate now s.drive_gate else s.drive_gate)

  -- The command passed the gate: it goes to the device.
  unfoldable pub forward_drive : DriveCommand → VehicleControlModule S → VehicleControlModule S
  forward_drive command s =
      let (w, raw) = d.send_drive_command command s.world in
      let result = normalize_result raw in
      let t = record s {
        awaiting_first_drive = false;
        recoverable_stop_pending = false;
        safety_latched = false;
        world = w;
        effects = Effect.drove command result.accepted ∷ s.effects;
      } in
      if not result.accepted
      then (if s.options.allow_interface_recovery && is_invalid_state result.error_code
          then stop_for_recoverable_condition d t
          else stop_for_safety d t)
      else record t {
        stop_sent = false;
        dog_lateral_active = false;
        dog_lateral_watchdog_stopped = false;
        state_dirty = true;
      }

  -- The outcomes of the gate.
  unfoldable pub after_gate :
      DriveReceiveStatus → Bool → DriveCommand → VehicleControlModule S → VehicleControlModule S
  unfolding forward_drive
  after_gate DriveReceiveStatus.duplicate_or_out_of_order stop command s = s
  after_gate DriveReceiveStatus.accepted stop command s = forward_drive command s
  after_gate DriveReceiveStatus.watchdog_expired stop command s =
      if stop
      then (if s.options.allow_watchdog_recovery
          then stop_for_recoverable_condition d s
          else stop_for_safety d s)
      else s
  after_gate _ stop command s = if stop then stop_for_safety d s else s

  unfoldable pub process_drive_command :
      ℕ → DriveCommand → ℕ → VehicleControlModule S → VehicleControlModule S
  unfolding ask_gate after_gate
  process_drive_command seq command now s =
      let (g, r) = ask_gate seq command now s in
      after_gate r.status r.should_stop command (record s { drive_gate = g })

  module _ (pb : Nanopb) where
    unfoldable pub process_set_gear : ℕ → SetGear → VehicleControlModule S → VehicleControlModule S
    process_set_gear remote request s =
        let (w, raw) = d.send_gear_command request.gear s.world in
        let result = normalize_result raw in
        let refused =
          send_event_ack d pb remote request.request_id (rejected "vehicle is safety-locked") s in
        let done = send_event_ack d pb remote request.request_id result (record s {
          active_gear = if result.accepted then request.gear else s.active_gear;
          world = w;
          effects = Effect.shifted request.gear result.accepted ∷ s.effects;
        }) in
        if s.safety_latched
        then record refused { state_dirty = true }
        else record done { state_dirty = true }
