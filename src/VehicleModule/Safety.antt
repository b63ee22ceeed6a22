-- ===== src/VehicleModule/Safety.antt =====
-- The safety invariant of the vehicle control module, and the handlers that keep it.
use rtc_framework.Base.{
  ℕ, ◌≤◌, ◌<◌, ◌≡◌, ◌⊎◌, Bool, true, false, List, [], ◌∷◌, arith, if◌then◌else◌,
}
use rtc_framework.VehicleProtocol.Types.{
  DriveCommand, SetGear, DriveReceiveStatus, default_drive_watchdog_ms,
}
use rtc_framework.VehicleProtocol.Pb.{Nanopb}
use rtc_framework.VehicleProtocol.Gate.{DriveCommandGate, start_gate, accept_drive, recover_drive}
use rtc_framework.VehicleModule.State.{
  Device, Effect, Options, VehicleCommandResult, VehicleControlModule, new_module,
  is_lateral_motion, is_lateral_stop,
}
use rtc_framework.VehicleModule.Send.{
  stop_for_recoverable_condition, stop_for_safety, send_event_ack, maybe_send_state,
}
use rtc_framework.VehicleModule.Drive.{
  ask_gate, forward_drive, after_gate, process_drive_command, process_set_gear,
}

-- Whether the last thing that the device was told is to move: a drive command or a lateral motion
-- that it accepted, with no stop and no accepted lateral stop after it. `effects` is newest first.
unfoldable pub is_moving : List Effect → Bool
is_moving [] = false
is_moving (Effect.drove command accepted ∷ es) =
    let before = is_moving es in if accepted then true else before
is_moving (Effect.acted a accepted ∷ es) =
    let before = is_moving es in
    if accepted
    then (if is_lateral_motion a then true else if is_lateral_stop a then false else before)
    else before
is_moving (Effect.halted ∷ es) = false
is_moving (Effect.shifted gear accepted ∷ es) = is_moving es
is_moving (Effect.sent remote label payload done ∷ es) = is_moving es

pub record IsSafe {S : Type 0} (s : VehicleControlModule S) : Type 0 where
  -- While the safety latch is set the gate and the lateral motion are off and a stop was sent.
  pub latched_gate : s.safety_latched ≡ true → s.drive_gate.started ≡ false
  pub latched_lateral : s.safety_latched ≡ true → s.dog_lateral_active ≡ false
  pub latched_stop : s.safety_latched ≡ true → s.stop_sent ≡ true
  -- With no session the latch is set.
  pub idle_latched : s.has_active_session ≡ false → s.safety_latched ≡ true
  -- A moving device has not been sent its stop, and a watchdog is running for it.
  pub moving_unstopped : is_moving s.effects ≡ true → s.stop_sent ≡ false
  pub moving_watched :
      is_moving s.effects ≡ true → (s.drive_gate.started ≡ true) ⊎ (s.dog_lateral_active ≡ true)
  pub gate_period : s.drive_gate.watchdog_ms ≡ s.options.watchdog_ms
  pub period_positive : 0 < s.options.watchdog_ms
  pub period_capped : s.started ≡ true → s.options.watchdog_ms ≤ default_drive_watchdog_ms

pub new_module-IsSafe : {S : Type 0} (o : Options) (w : S) → IsSafe (new_module o w)
unfolding new_module is_moving
new_module-IsSafe o w = ground arith

module _ {S : Type 0} (d : Device S) (wired : d.has_vehicle_control ≡ true) where
  pub stop_for_safety-IsSafe :
      (s : VehicleControlModule S) → IsSafe s → IsSafe (stop_for_safety d s)
  unfolding stop_for_safety is_moving
  stop_for_safety-IsSafe s v = ground arith

  pub stop_for_recoverable_condition-IsSafe :
      (s : VehicleControlModule S) → IsSafe s → IsSafe (stop_for_recoverable_condition d s)
  unfolding stop_for_recoverable_condition is_moving
  stop_for_recoverable_condition-IsSafe s v = ground arith

  pub send_event_ack-IsSafe :
      (pb : Nanopb) (remote id : ℕ) (r : VehicleCommandResult) (s : VehicleControlModule S)
      → IsSafe s
      → IsSafe (send_event_ack d pb remote id r s)
  unfolding send_event_ack is_moving
  send_event_ack-IsSafe pb remote id r s v = ground arith

  pub maybe_send_state-IsSafe :
      (pb : Nanopb) (now : ℕ) (s : VehicleControlModule S)
      → IsSafe s
      → IsSafe (maybe_send_state d pb now s)
  unfolding maybe_send_state is_moving
  maybe_send_state-IsSafe pb now s v = ground arith

  -- What the gate's answer says of the gate that it leaves.
  abbrev GateAnswer : DriveReceiveStatus → Bool → DriveCommandGate → DriveCommandGate → Type 0
  GateAnswer DriveReceiveStatus.accepted stop g g' =
      (g'.started ≡ true) × (g'.watchdog_ms ≡ g.watchdog_ms)
  GateAnswer DriveReceiveStatus.duplicate_or_out_of_order stop g g' =
      (g'.started ≡ g.started) × (g'.watchdog_ms ≡ g.watchdog_ms)
  GateAnswer _ stop g g' = (stop ≡ true) × (g'.watchdog_ms ≡ g.watchdog_ms)

  ask_gate-GateAnswer :
      (seq : ℕ) (c : DriveCommand) (now : ℕ) (s : VehicleControlModule S)
      → 0 < s.drive_gate.watchdog_ms
      → GateAnswer
          (ask_gate d seq c now s).1.status
          (ask_gate d seq c now s).1.should_stop
          s.drive_gate
          (ask_gate d seq c now s).0
  unfolding ask_gate start_gate accept_drive recover_drive
  ask_gate-GateAnswer seq c now s p = ground arith

  forward_drive-IsSafe :
      (c : DriveCommand) (s : VehicleControlModule S) (g : DriveCommandGate)
      → IsSafe s
      → g.started ≡ true
      → g.watchdog_ms ≡ s.drive_gate.watchdog_ms
      → s.has_active_session ≡ true
      → IsSafe (forward_drive d c (record s { drive_gate = g }))
  unfolding forward_drive stop_for_safety stop_for_recoverable_condition is_moving
  forward_drive-IsSafe c s g v h w a = ground arith

  after_gate-IsSafe :
      (status : DriveReceiveStatus) (stop : Bool) (c : DriveCommand) (s : VehicleControlModule S)
      (g : DriveCommandGate)
      → IsSafe s
      → GateAnswer status stop s.drive_gate g
      → s.has_active_session ≡ true
      → IsSafe (after_gate d status stop c (record s { drive_gate = g }))
  unfolding after_gate stop_for_safety stop_for_recoverable_condition is_moving
  after_gate-IsSafe DriveReceiveStatus.accepted stop c s g v h a =
      forward_drive-IsSafe c s g v h.0 h.1 a
  after_gate-IsSafe DriveReceiveStatus.duplicate_or_out_of_order stop c s g v h a = ground arith
  after_gate-IsSafe DriveReceiveStatus.watchdog_expired stop c s g v h a = ground arith
  after_gate-IsSafe _ stop c s g v h a = ground arith

  -- Whatever the gate and the device answer, a drive command of the active session keeps it safe.
  pub process_drive_command-IsSafe :
      (seq : ℕ) (c : DriveCommand) (now : ℕ) (s : VehicleControlModule S)
      → IsSafe s
      → s.has_active_session ≡ true
      → IsSafe (process_drive_command d seq c now s)
  unfolding process_drive_command
  process_drive_command-IsSafe seq c now s v a =
      let (g, r) = ask_gate d seq c now s in
      after_gate-IsSafe r.status r.should_stop c s g v
        (ask_gate-GateAnswer seq c now s (rw v.gate_period v.period_positive)) a

  pub process_set_gear-IsSafe :
      (pb : Nanopb) (remote : ℕ) (g : SetGear) (s : VehicleControlModule S)
      → IsSafe s
      → IsSafe (process_set_gear d pb remote g s)
  unfolding process_set_gear send_event_ack is_moving
  process_set_gear-IsSafe pb remote g s v = ground arith
