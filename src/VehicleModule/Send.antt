-- ===== src/VehicleModule/Send.antt =====
-- vehicle_control_module.cpp: the stops, and what is sent to the peer.
use rtc_framework.Base.{
  ℕ, ◌+◌, Bool, true, false, not, ◌&&◌, ◌||◌, String, ◌∷◌, ltb, ◌==◌, u64, sub_u64, if◌then◌else◌,
}
use rtc_framework.VehicleProtocol.Types.{
  EventAck, VehicleState, EncodeResult, encoded_ok, vehicle_event_channel_label,
  vehicle_state_channel_label,
}
use rtc_framework.VehicleProtocol.Pb.{Nanopb}
use rtc_framework.VehicleProtocol.Gate.{stop_gate}
use rtc_framework.VehicleProtocol.Encode.{encode_event_ack, encode_vehicle_state}
use rtc_framework.VehicleModule.State.{
  Device, Effect, VehicleCommandResult, VehicleControlModule, normalize_result,
}

module _ {S : Type 0} (d : Device S) where
  -- `if (!stop_sent_ && vehicle_control_) { SendStop(); stop_sent_ = true; }`
  unfoldable pub send_stop_once : VehicleControlModule S → VehicleControlModule S
  send_stop_once s =
      if not s.stop_sent && d.has_vehicle_control
      then record s {
        world = d.send_stop s.world;
        stop_sent = true;
        effects = Effect.halted ∷ s.effects;
      }
      else s

  unfoldable pub stop_for_recoverable_condition : VehicleControlModule S → VehicleControlModule S
  unfolding send_stop_once stop_gate
  stop_for_recoverable_condition s =
      let t = send_stop_once s in
      record t {
        drive_gate = stop_gate t.drive_gate;
        dog_lateral_active = false;
        awaiting_first_drive = true;
        recoverable_stop_pending = true;
        safety_latched = true;
        state_dirty = true;
      }

  unfoldable pub stop_for_safety : VehicleControlModule S → VehicleControlModule S
  unfolding send_stop_once stop_gate
  stop_for_safety s =
      let t = send_stop_once (record s {
        drive_gate = stop_gate s.drive_gate;
        dog_lateral_active = false;
        awaiting_first_drive = false;
        recoverable_stop_pending = false;
        safety_latched = true;
      }) in
      record t { state_dirty = true }

  -- Gives whether the payload was sent.
  unfoldable pub send_payload :
      ℕ → String → EncodeResult → VehicleControlModule S → VehicleControlModule S × Bool
  send_payload remote label encoded s =
      let (w, done) = d.send_data remote label encoded.payload s.world in
      if not (encoded_ok encoded) || not d.has_send_data then (s, false) else (
        record s { world = w; effects = Effect.sent remote label encoded.payload done ∷ s.effects },
        done,
      )

  module _ (pb : Nanopb) where
    abbrev pub ack_of : VehicleControlModule S → ℕ → VehicleCommandResult → EventAck
    ack_of s request_id result = record {
      request_id = request_id;
      accepted = (normalize_result result).accepted;
      error_code = (normalize_result result).error_code;
      active_gear = s.active_gear;
    }

    -- The three overloads of `SendEventAck` differ in where the request id stands.
    unfoldable pub send_event_ack :
        ℕ → ℕ → VehicleCommandResult → VehicleControlModule S → VehicleControlModule S
    unfolding send_payload
    send_event_ack remote request_id result s =
        (send_payload remote vehicle_event_channel_label
          (encode_event_ack pb s.outgoing_seq (ack_of s request_id result))
          (record s { outgoing_seq = u64 (s.outgoing_seq + 1) })).0

    abbrev pub state_of : VehicleControlModule S → VehicleState
    state_of s = record {
      active_gear = s.active_gear;
      last_received_drive_seq = s.drive_gate.last_received_seq;
      watchdog_stopped = s.safety_latched || s.dog_lateral_watchdog_stopped;
    }

    -- The difference of the times is one of `uint64_t`, which wraps.
    unfoldable pub maybe_send_state : ℕ → VehicleControlModule S → VehicleControlModule S
    unfolding send_payload
    maybe_send_state now s =
        let (t, done) =
          send_payload s.active_sessionid vehicle_state_channel_label
            (encode_vehicle_state pb s.outgoing_seq (state_of s))
            (record s { outgoing_seq = u64 (s.outgoing_seq + 1) }) in
        if not s.has_active_session
        then s
        else if not s.state_dirty
            && (not (s.last_state_sent_ms == 0)
                && ltb (sub_u64 now s.last_state_sent_ms) s.options.state_interval_ms)
        then s
        else if done
        then record t { last_state_sent_ms = now; state_dirty = false }
        else t
