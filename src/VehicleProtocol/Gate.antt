-- ===== src/VehicleProtocol/Gate.antt =====
-- vehicle_control_protocol.h and .cpp: `DriveCommandGate`. A method returns the new gate; the
-- differences of `uint64_t` are taken behind a test that makes them exact.
use rtc_framework.Base.{
  ℕ, ◌-◌, Bool, true, false, not, ◌&&◌, ◌||◌, String, leb, ◌==◌, if◌then◌else◌,
}
use rtc_framework.VehicleProtocol.Types.{
  DriveCommand, DriveReceiveStatus, DriveReceiveResult, default_drive_watchdog_ms,
}
use rtc_framework.VehicleProtocol.Validate.{validate_drive_command}

pub record DriveCommandGate : Type 0 where
  pub watchdog_ms : ℕ
  pub started : Bool
  pub watchdog_stopped : Bool
  pub has_received_drive : Bool
  pub last_received_seq : ℕ
  pub last_valid_command_ms : ℕ

unfoldable pub new_gate : ℕ → DriveCommandGate
new_gate ms = record {
  watchdog_ms = if ms == 0 then default_drive_watchdog_ms else ms;
  started = false;
  watchdog_stopped = true;
  has_received_drive = false;
  last_received_seq = 0;
  last_valid_command_ms = 0;
}

unfoldable pub start_gate : ℕ → DriveCommandGate → DriveCommandGate
start_gate now g = record g {
  started = true;
  watchdog_stopped = false;
  has_received_drive = false;
  last_received_seq = 0;
  last_valid_command_ms = now;
}

unfoldable pub stop_gate : DriveCommandGate → DriveCommandGate
stop_gate g = record g { started = false; watchdog_stopped = true }

unfoldable pub poll_watchdog : ℕ → DriveCommandGate → DriveCommandGate × Bool
unfolding stop_gate
poll_watchdog now g =
    if not g.started
    then (g, g.watchdog_stopped)
    else if leb g.last_valid_command_ms now && leb g.watchdog_ms (now - g.last_valid_command_ms)
    then (stop_gate g, true)
    else (g, false)

-- The five outcomes, with their texts.
abbrev pub outcome : DriveReceiveStatus → Bool → String → DriveReceiveResult
outcome s stop text = record { status = s; should_stop = stop; error_message = text }

-- `has_received_drive_ && seq <= last_received_seq_`
abbrev pub is_stale : ℕ → DriveCommandGate → Bool
is_stale seq g = g.has_received_drive && leb seq g.last_received_seq

unfoldable pub accept_drive :
    ℕ → DriveCommand → ℕ → DriveCommandGate → DriveCommandGate × DriveReceiveResult
unfolding poll_watchdog stop_gate
accept_drive seq command now g =
    if not g.started
    then (g, outcome DriveReceiveStatus.not_started true "drive gate is not started")
    else let (g', expired) = poll_watchdog now g in
      if expired
      then (g', outcome DriveReceiveStatus.watchdog_expired true "drive watchdog expired")
      else if is_stale seq g'
      then (
        g',
        outcome DriveReceiveStatus.duplicate_or_out_of_order false
            "drive sequence is duplicate or out of order",
      )
      else let v = validate_drive_command command in
        if not v.valid
        then (stop_gate g', outcome DriveReceiveStatus.invalid_command true v.error_message)
        else (
          record g' {
            has_received_drive = true;
            last_received_seq = seq;
            last_valid_command_ms = now;
          },
          outcome DriveReceiveStatus.accepted false "",
        )

unfoldable pub recover_drive :
    ℕ → DriveCommand → ℕ → DriveCommandGate → DriveCommandGate × DriveReceiveResult
recover_drive seq command now g =
    let v = validate_drive_command command in
    if g.started || not g.watchdog_stopped
    then (
      g,
      outcome DriveReceiveStatus.not_started true "drive gate is not waiting for watchdog recovery",
    )
    else if is_stale seq g
    then (
      g,
      outcome DriveReceiveStatus.duplicate_or_out_of_order false
          "drive sequence is duplicate or out of order",
    )
    else if not v.valid
    then (g, outcome DriveReceiveStatus.invalid_command true v.error_message)
    else (
      record g {
        started = true;
        watchdog_stopped = false;
        has_received_drive = true;
        last_received_seq = seq;
        last_valid_command_ms = now;
      },
      outcome DriveReceiveStatus.accepted false "",
    )
