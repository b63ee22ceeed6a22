-- ===== src/VehicleModule/Tick.antt =====
-- vehicle_control_module.cpp: the tick, start and shutdown.
use rtc_framework.Base.{ℕ, ◌-◌, Bool, true, false, not, ◌&&◌, ◌||◌, [], leb, ltb, if◌then◌else◌}
use rtc_framework.VehicleProtocol.Types.{default_drive_watchdog_ms}
use rtc_framework.VehicleProtocol.Pb.{Nanopb}
use rtc_framework.VehicleProtocol.Gate.{poll_watchdog}
use rtc_framework.VehicleModule.State.{Device, VehicleControlModule}
use rtc_framework.VehicleModule.Send.{
  send_stop_once, stop_for_recoverable_condition, stop_for_safety, maybe_send_state,
}
use rtc_framework.VehicleModule.Events.{process_events}

module _ {S : Type 0} (d : Device S) where
  -- The two watchdogs at the end of a tick.
  unfoldable pub poll_drive : ℕ → VehicleControlModule S → VehicleControlModule S
  poll_drive now s =
      let (g, expired) = poll_watchdog now s.drive_gate in
      let t = record s { drive_gate = g } in
      if s.has_active_session && s.drive_gate.started
      then (if expired
          then (if s.options.allow_watchdog_recovery
              then stop_for_recoverable_condition d t
              else stop_for_safety d t)
          else t)
      else s

  unfoldable pub poll_lateral : ℕ → VehicleControlModule S → VehicleControlModule S
  poll_lateral now s =
      let t =
        send_stop_once d
          (record s { dog_lateral_active = false; dog_lateral_watchdog_stopped = true }) in
      if s.has_active_session
        && (s.dog_lateral_active
            && (leb s.last_dog_lateral_ms now
                && leb s.options.watchdog_ms (now - s.last_dog_lateral_ms)))
      then record t { state_dirty = true }
      else s

  module _ (pb : Nanopb) where
    unfoldable pub tick : ℕ → VehicleControlModule S → VehicleControlModule S
    tick now s =
        let taken = record s { pending_events = []; pending_overflow = false } in
        let ready = if s.pending_overflow then stop_for_safety d taken else taken in
        let worked = process_events d pb s.pending_events now ready in
        if not s.started
        then s
        else maybe_send_state d pb now (poll_lateral now (poll_drive now worked))

  unfoldable pub start : VehicleControlModule S → VehicleControlModule S × Bool
  start s =
      let hooked = d.set_completion_callback true s.world in
      let (w, opened) = d.open_interface hooked in
      if s.started
      then (s, true)
      else if not d.has_vehicle_control || ltb default_drive_watchdog_ms s.options.watchdog_ms
      then (s, false)
      else if not opened
      then (record s { world = d.set_completion_callback false w }, false)
      else (record s { world = w; started = true }, true)

  unfoldable pub shutdown : VehicleControlModule S → VehicleControlModule S
  shutdown s =
      let t = stop_for_safety d (record s { world = d.set_completion_callback false s.world }) in
      if not s.started then s else record t {
        world = d.close_interface t.world;
        started = false;
        has_active_session = false;
        active_sessionid = 0;
        pending_events = [];
        pending_overflow = false;
        pending_dog_actions = [];
      }
