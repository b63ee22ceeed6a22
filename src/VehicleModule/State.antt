-- ===== src/VehicleModule/State.antt =====
-- client/modules/vehicle: the state of `VehicleControlModule`, its events, and what it calls.
-- The device interface and the transport are the parameter `Device`; their calls are recorded, newest
-- first, in `effects`. Log callbacks are left out: nothing reads what they do.
use rtc_framework.Base.{ℕ, Bool, true, false, String, List, [], Option, ◌==◌, if◌then◌else◌}
use rtc_framework.VehicleProtocol.Types.{
  DriveCommand, VehicleGear, VehicleErrorCode, DogAction, DogActionType, default_drive_watchdog_ms,
}
use rtc_framework.VehicleProtocol.Gate.{DriveCommandGate, new_gate}

pub record VehicleCommandResult : Type 0 where
  pub accepted : Bool
  pub completion_pending : Bool
  pub error_code : VehicleErrorCode
  pub detail : String

-- `VehicleControlInterface` and `SendDataCallback`, over a state of the outside world.
pub record Device (S : Type 0) : Type 0 where
  -- The pointer to the interface and the send callback are set.
  pub has_vehicle_control : Bool
  pub has_send_data : Bool
  pub set_completion_callback : Bool → S → S
  pub open_interface : S → S × Bool
  pub close_interface : S → S
  pub send_drive_command : DriveCommand → S → S × VehicleCommandResult
  pub send_gear_command : VehicleGear → S → S × VehicleCommandResult
  pub send_dog_action : DogAction → S → S × VehicleCommandResult
  pub send_stop : S → S
  pub send_data : ℕ → String → List ℕ → S → S × Bool

pub data Effect : Type 0 where
  -- A command that was sent, and whether it was accepted.
  drove : DriveCommand → Bool → Effect
  shifted : VehicleGear → Bool → Effect
  acted : DogActionType → Bool → Effect
  halted : Effect
  -- A payload that was sent to a session under a label, and whether that succeeded.
  sent : ℕ → String → List ℕ → Bool → Effect

pub record Options : Type 0 where
  pub watchdog_ms : ℕ
  pub state_interval_ms : ℕ
  pub max_pending_events : ℕ
  pub allow_watchdog_recovery : Bool
  pub allow_interface_recovery : Bool

-- `PendingEvent` with its type: only the fields of that type. `none` is an invalid payload.
pub data PendingEvent : Type 0 where
  message : ℕ → String → Option (List ℕ) → PendingEvent
  peer_connected peer_disconnected : ℕ → PendingEvent
  transport_disconnected : PendingEvent
  dog_action_completed : ℕ → VehicleCommandResult → PendingEvent

pub record PendingDogAction : Type 0 where
  pub remote_sessionid : ℕ
  pub request_id : ℕ

pub record VehicleControlModule (S : Type 0) : Type 0 where
  pub options : Options
  pub drive_gate : DriveCommandGate
  pub started : Bool
  pub has_active_session : Bool
  pub stop_sent : Bool
  pub awaiting_first_drive : Bool
  pub recoverable_stop_pending : Bool
  pub safety_latched : Bool
  pub dog_lateral_active : Bool
  pub dog_lateral_watchdog_stopped : Bool
  pub state_dirty : Bool
  pub active_sessionid : ℕ
  pub active_gear : VehicleGear
  pub outgoing_seq : ℕ
  pub last_state_sent_ms : ℕ
  pub last_dog_lateral_ms : ℕ
  pub next_dog_action_completion_id : ℕ
  pub pending_dog_actions : List (ℕ × PendingDogAction)
  pub pending_events : List PendingEvent
  pub pending_overflow : Bool
  -- The outside world, and the record of what was done to it.
  pub world : S
  pub effects : List Effect

abbrev or_default : ℕ → ℕ → ℕ
or_default n d = if n == 0 then d else n

-- The constructor. The gate is made from the option as given, which it defaults in the same way.
unfoldable pub new_module : {S : Type 0} → Options → S → VehicleControlModule S
unfolding new_gate
new_module o w = record {
  options = record o {
    watchdog_ms = or_default o.watchdog_ms default_drive_watchdog_ms;
    state_interval_ms = or_default o.state_interval_ms 50;
    max_pending_events = or_default o.max_pending_events 128;
  };
  drive_gate = new_gate o.watchdog_ms;
  started = false;
  has_active_session = false;
  stop_sent = true;
  awaiting_first_drive = false;
  recoverable_stop_pending = false;
  safety_latched = true;
  dog_lateral_active = false;
  dog_lateral_watchdog_stopped = false;
  state_dirty = false;
  active_sessionid = 0;
  active_gear = VehicleGear.neutral;
  outgoing_seq = 1;
  last_state_sent_ms = 0;
  last_dog_lateral_ms = 0;
  next_dog_action_completion_id = 1;
  pending_dog_actions = [];
  pending_events = [];
  pending_overflow = false;
  world = w;
  effects = [];
}

abbrev pub is_no_error : VehicleErrorCode → Bool
is_no_error VehicleErrorCode.no_error = true
is_no_error _ = false

-- `NormalizeResult`: the error code says whether the command was accepted.
unfoldable pub normalize_result : VehicleCommandResult → VehicleCommandResult
normalize_result r =
    if r.accepted then record r { error_code = VehicleErrorCode.no_error } else record r {
      error_code = if is_no_error r.error_code then VehicleErrorCode.internal else r.error_code;
      completion_pending = false;
    }

abbrev pub is_lateral_motion : DogActionType → Bool
is_lateral_motion DogActionType.lateral_left = true
is_lateral_motion DogActionType.lateral_right = true
is_lateral_motion _ = false

abbrev pub is_lateral_stop : DogActionType → Bool
is_lateral_stop DogActionType.lateral_stop = true
is_lateral_stop _ = false
