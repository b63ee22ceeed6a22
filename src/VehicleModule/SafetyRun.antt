-- ===== src/VehicleModule/SafetyRun.antt =====
-- vehicle_control_module.cpp over sequences of calls: the safety invariant and the two watchdogs.
use rtc_framework.Base.{
  ℕ, ◌+◌, ◌<◌, ◌≡◌, ◌⊎◌, Bool, true, false, not, String, List, [], ◌∷◌, Option, some, none,
  if◌then◌else◌, if_elim, arith,
}
use rtc_framework.VehicleProtocol.Pb.{Nanopb}
use rtc_framework.VehicleProtocol.Gate.{poll_watchdog}
use rtc_framework.VehicleProtocol.GateLaws.{IsTimely}
use rtc_framework.VehicleModule.State.{
  Device, Options, PendingEvent, VehicleCommandResult, VehicleControlModule, new_module,
}
use rtc_framework.VehicleModule.Send.{
  send_stop_once, stop_for_safety, stop_for_recoverable_condition, maybe_send_state,
}
use rtc_framework.VehicleModule.Queue.{
  RtcP2PState, enqueue, enqueue_message, enqueue_p2p_state, enqueue_transport_disconnected,
  enqueue_dog_action_completion,
}
use rtc_framework.VehicleModule.Tick.{poll_drive, poll_lateral, tick, start, shutdown}
use rtc_framework.VehicleModule.Safety.{
  IsSafe, is_moving, new_module-IsSafe, stop_for_safety-IsSafe, maybe_send_state-IsSafe,
}
use rtc_framework.VehicleModule.SafetyEvents.{process_events-IsSafe}

-- The public calls of the module, by any thread, in the order in which they take effect.
pub data Call : Type 0 where
  starts shuts_down drops_transport : Call
  receives : ℕ → Option String → Option (List ℕ) → Call
  changes_p2p : ℕ → RtcP2PState → Call
  completes : ℕ → VehicleCommandResult → Call
  ticks : ℕ → Call

module _ {S : Type 0} (d : Device S) (pb : Nanopb) where
  unfoldable pub step : Call → VehicleControlModule S → VehicleControlModule S
  step starts s = (start d s).0
  step shuts_down s = shutdown d s
  step drops_transport s = enqueue_transport_disconnected s
  step (receives remote label bytes) s = enqueue_message remote label bytes s
  step (changes_p2p remote state) s = enqueue_p2p_state remote state s
  step (completes id result) s = enqueue_dog_action_completion id result s
  step (ticks now) s = tick d pb now s

  unfoldable pub run : List Call → VehicleControlModule S → VehicleControlModule S
  run [] s = s
  run (c ∷ cs) s = run cs (step c s)

module _ {S : Type 0} where
  enqueue-IsSafe : (e : PendingEvent) (s : VehicleControlModule S) → IsSafe s → IsSafe (enqueue e s)
  unfolding enqueue
  enqueue-IsSafe e s v = ground arith

  enqueue_message-IsSafe :
      (remote : ℕ) (label : Option String) (bytes : Option (List ℕ)) (s : VehicleControlModule S)
      → IsSafe s
      → IsSafe (enqueue_message remote label bytes s)
  unfolding enqueue_message
  enqueue_message-IsSafe remote none bytes s v = v
  enqueue_message-IsSafe remote (some label) bytes s v = ground arith

  enqueue_p2p_state-IsSafe :
      (remote : ℕ) (p : RtcP2PState) (s : VehicleControlModule S)
      → IsSafe s
      → IsSafe (enqueue_p2p_state remote p s)
  unfolding enqueue_p2p_state
  enqueue_p2p_state-IsSafe remote RtcP2PState.p2p_connected s v = enqueue-IsSafe _ s v
  enqueue_p2p_state-IsSafe remote _ s v = ground arith

module _ {S : Type 0} (d : Device S) (wired : d.has_vehicle_control ≡ true) where
  poll_drive-IsSafe :
      (now : ℕ) (s : VehicleControlModule S) → IsSafe s → IsSafe (poll_drive d now s)
  unfolding poll_drive poll_watchdog stop_for_safety stop_for_recoverable_condition is_moving
  poll_drive-IsSafe now s v = ground arith

  poll_lateral-IsSafe :
      (now : ℕ) (s : VehicleControlModule S) → IsSafe s → IsSafe (poll_lateral d now s)
  unfolding poll_lateral send_stop_once is_moving
  poll_lateral-IsSafe now s v = ground arith

  start-IsSafe : (s : VehicleControlModule S) → IsSafe s → IsSafe (start d s).0
  unfolding start
  start-IsSafe s v = ground arith

  shutdown-IsSafe : (s : VehicleControlModule S) → IsSafe s → IsSafe (shutdown d s)
  unfolding shutdown stop_for_safety is_moving
  shutdown-IsSafe s v = ground arith

-- The two watchdogs have not run out at `now`.
pub record IsWatched {S : Type 0} (now : ℕ) (s : VehicleControlModule S) : Type 0 where
  pub drive_timely :
      s.has_active_session ≡ true → s.drive_gate.started ≡ true → IsTimely now s.drive_gate
  pub lateral_timely :
      s.has_active_session ≡ true
      → s.dog_lateral_active ≡ true
      → (now < s.last_dog_lateral_ms) ⊎ (now < s.last_dog_lateral_ms + s.options.watchdog_ms)

module _ {S : Type 0} (d : Device S) where
  poll_drive-IsTimely :
      (now : ℕ) (s : VehicleControlModule S)
      → (poll_drive d now s).has_active_session ≡ true
      → (poll_drive d now s).drive_gate.started ≡ true
      → IsTimely now (poll_drive d now s).drive_gate
  unfolding poll_drive poll_watchdog stop_for_safety stop_for_recoverable_condition
  poll_drive-IsTimely now s a h = ground arith

  poll_lateral-IsWatched :
      (now : ℕ) (s : VehicleControlModule S)
      → (s.has_active_session ≡ true → s.drive_gate.started ≡ true → IsTimely now s.drive_gate)
      → IsWatched now (poll_lateral d now s)
  unfolding poll_lateral send_stop_once
  poll_lateral-IsWatched now s h = ground arith

  maybe_send_state-IsWatched :
      (pb : Nanopb) (now : ℕ) (s : VehicleControlModule S)
      → IsWatched now s
      → IsWatched now (maybe_send_state d pb now s)
  unfolding maybe_send_state
  maybe_send_state-IsWatched pb now s v = ground arith

  tick-IsWatched :
      (pb : Nanopb) (now : ℕ) (s : VehicleControlModule S)
      → s.started ≡ true
      → IsWatched now (tick d pb now s)
  unfolding tick
  tick-IsWatched pb now s h = rw h (
      maybe_send_state-IsWatched pb now _
        (poll_lateral-IsWatched now _ (poll_drive-IsTimely now _)))

module _ {S : Type 0} (d : Device S) (wired : d.has_vehicle_control ≡ true) (pb : Nanopb) where
  taken-IsSafe :
      (s : VehicleControlModule S)
      → IsSafe s
      → IsSafe (record s { pending_events = []; pending_overflow = false })
  taken-IsSafe s v = ground arith

  ready-IsSafe :
      (overflow : Bool) (s : VehicleControlModule S)
      → IsSafe s
      → IsSafe (if overflow then stop_for_safety d s else s)
  ready-IsSafe true s v = stop_for_safety-IsSafe d wired s v
  ready-IsSafe false s v = v

  tick-IsSafe : (now : ℕ) (s : VehicleControlModule S) → IsSafe s → IsSafe (tick d pb now s)
  unfolding tick
  tick-IsSafe now s v =
      if_elim IsSafe (not s.started) _ _ (λ _. v)
        (λ _. maybe_send_state-IsSafe d wired pb now _ (
          poll_lateral-IsSafe d wired now _ (
            poll_drive-IsSafe d wired now _ (
              process_events-IsSafe d wired pb s.pending_events now _
                (ready-IsSafe s.pending_overflow _ (taken-IsSafe s v))))))

  pub step-IsSafe : (c : Call) (s : VehicleControlModule S) → IsSafe s → IsSafe (step d pb c s)
  unfolding step enqueue_transport_disconnected enqueue_dog_action_completion
  step-IsSafe starts s v = start-IsSafe d wired s v
  step-IsSafe shuts_down s v = shutdown-IsSafe d wired s v
  step-IsSafe drops_transport s v = enqueue-IsSafe _ s v
  step-IsSafe (receives remote label bytes) s v = enqueue_message-IsSafe remote label bytes s v
  step-IsSafe (changes_p2p remote state) s v = enqueue_p2p_state-IsSafe remote state s v
  step-IsSafe (completes id result) s v = enqueue-IsSafe _ s v
  step-IsSafe (ticks now) s v = tick-IsSafe now s v

  pub run-IsSafe : (cs : List Call) (s : VehicleControlModule S) → IsSafe s → IsSafe (run d pb cs s)
  unfolding run
  run-IsSafe [] s v = v
  run-IsSafe (c ∷ cs) s v = run-IsSafe cs (step d pb c s) (step-IsSafe c s v)

  -- After any calls, a device whose interface is set does not move while the safety latch is set,
  -- nor while no control session is active.
  pub latched_at_rest :
      (o : Options) (w : S) (cs : List Call)
      → let s = run d pb cs (new_module o w) in
        (s.safety_latched ≡ true) ⊎ (s.has_active_session ≡ false) → is_moving s.effects ≡ false
  latched_at_rest o w cs h = ground (arith, run-IsSafe cs _ (new_module-IsSafe o w))

  -- After any calls and a tick of the started module, a device that moves has an active session
  -- that is not latched, and a drive command or lateral motion that is younger than the watchdog
  -- period (or from after `now`, where the clock went back).
  pub moving_is_recent :
      (o : Options) (w : S) (cs : List Call) (now : ℕ)
      → (run d pb cs (new_module o w)).started ≡ true
      → let s = tick d pb now (run d pb cs (new_module o w)) in
        is_moving s.effects ≡ true
        → (s.has_active_session ≡ true)
          × (s.safety_latched ≡ false)
          × (((s.drive_gate.started ≡ true) × IsTimely now s.drive_gate)
              ⊎ ((s.dog_lateral_active ≡ true)
                  × ((now < s.last_dog_lateral_ms)
                      ⊎ (now < s.last_dog_lateral_ms + s.options.watchdog_ms))))
  moving_is_recent o w cs now on m = ground (
    arith,
    tick-IsSafe now _ (run-IsSafe cs _ (new_module-IsSafe o w)),
    tick-IsWatched d pb now (run d pb cs (new_module o w)) on,
  )
