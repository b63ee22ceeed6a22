-- ===== src/VehicleModule/Events.antt =====
-- vehicle_control_module.cpp: the events that a tick works off.
use text.Mathlib.Text.{◌==◌ as str_eq}
use rtc_framework.Base.{
  ℕ, true, false, not, ◌||◌, String, List, [], ◌∷◌, Option, none, some, ◌==◌, if◌then◌else◌,
}
use rtc_framework.VehicleProtocol.Types.{
  Envelope, MessageType, DecodeResult, decoded_ok, vehicle_control_channel_label,
}
use rtc_framework.VehicleProtocol.Pb.{Nanopb}
use rtc_framework.VehicleProtocol.Gate.{stop_gate}
use rtc_framework.VehicleProtocol.Decode.{decode_envelope}
use rtc_framework.VehicleModule.State.{Device, PendingEvent, VehicleControlModule}
use rtc_framework.VehicleModule.Send.{stop_for_safety}
use rtc_framework.VehicleModule.Drive.{process_drive_command, process_set_gear}
use rtc_framework.VehicleModule.Dog.{process_dog_action, process_dog_action_completion}

module _ {S : Type 0} where
  unfoldable pub handle_peer_connected : ℕ → VehicleControlModule S → VehicleControlModule S
  unfolding stop_gate
  handle_peer_connected remote s = if s.has_active_session then s else record s {
    has_active_session = true;
    active_sessionid = remote;
    drive_gate = stop_gate s.drive_gate;
    awaiting_first_drive = true;
    recoverable_stop_pending = false;
    safety_latched = false;
    dog_lateral_active = false;
    dog_lateral_watchdog_stopped = false;
    stop_sent = false;
    state_dirty = true;
  }

module _ {S : Type 0} (d : Device S) where
  unfoldable pub handle_peer_disconnected : ℕ → VehicleControlModule S → VehicleControlModule S
  handle_peer_disconnected remote s =
      if not s.has_active_session || not (s.active_sessionid == remote)
      then s
      else record (stop_for_safety d s) {
        pending_dog_actions = [];
        has_active_session = false;
        active_sessionid = 0;
        state_dirty = false;
      }

  module _ (pb : Nanopb) where
    -- A decoded message of the realtime channel, and one of the reliable channel.
    unfoldable pub process_control :
        Envelope → MessageType → ℕ → VehicleControlModule S → VehicleControlModule S
    process_control e MessageType.drive_command now s =
        process_drive_command d e.seq e.drive_command now s
    process_control e _ now s = stop_for_safety d s

    unfoldable pub process_transaction :
        ℕ → Envelope → MessageType → ℕ → VehicleControlModule S → VehicleControlModule S
    process_transaction remote e MessageType.set_gear now s =
        process_set_gear d pb remote e.set_gear s
    process_transaction remote e MessageType.dog_action now s =
        process_dog_action d pb remote e.dog_action now s
    process_transaction remote e _ now s = stop_for_safety d s

    unfoldable pub process_decoded :
        ℕ → String → DecodeResult → ℕ → VehicleControlModule S → VehicleControlModule S
    unfolding process_control process_transaction
    process_decoded remote label decoded now s =
        if not (decoded_ok decoded)
        then stop_for_safety d s
        else if str_eq label vehicle_control_channel_label
        then process_control decoded.envelope decoded.envelope.type now s
        else process_transaction remote decoded.envelope decoded.envelope.type now s

    unfoldable pub process_message :
        ℕ → String → Option (List ℕ) → ℕ → VehicleControlModule S → VehicleControlModule S
    unfolding process_decoded
    process_message remote label payload now s =
        if not s.has_active_session || not (remote == s.active_sessionid) then s else elim payload [
          | none ↦ stop_for_safety d s
          | some bytes ↦ process_decoded remote label (decode_envelope pb (some bytes)) now s
        ]

    unfoldable pub process_event :
        PendingEvent → ℕ → VehicleControlModule S → VehicleControlModule S
    unfolding process_message
    process_event (PendingEvent.message remote label payload) now s =
        process_message remote label payload now s
    process_event (PendingEvent.peer_connected remote) now s = handle_peer_connected remote s
    process_event (PendingEvent.peer_disconnected remote) now s = handle_peer_disconnected remote s
    process_event PendingEvent.transport_disconnected now s =
        if s.has_active_session then handle_peer_disconnected s.active_sessionid s else s
    process_event (PendingEvent.dog_action_completed id result) now s =
        process_dog_action_completion d pb id result s

    unfoldable pub process_events :
        List PendingEvent → ℕ → VehicleControlModule S → VehicleControlModule S
    process_events [] now s = s
    process_events (e ∷ es) now s = process_events es now (process_event e now s)
