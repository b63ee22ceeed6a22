-- ===== src/VehicleModule/Queue.antt =====
-- vehicle_control_module.cpp: the queue, which other threads fill between ticks. It is behind a
-- mutex, and a tick takes it whole.
use text.Mathlib.Text.{◌==◌ as str_eq}
use rtc_framework.Base.{
  ℕ, true, not, ◌&&◌, ◌||◌, String, List, [], ◌∷◌, ◌++◌, Option, none, some, length, leb, ltb, ◌==◌,
  if◌then◌else◌,
}
use rtc_framework.VehicleProtocol.Types.{vehicle_control_channel_label, vehicle_event_channel_label}
use rtc_framework.VehicleModule.State.{PendingEvent, VehicleCommandResult, VehicleControlModule}

-- vtsrtc/src/c_rtc.h
pub data RtcP2PState : Type 0 where
  p2p_new p2p_connecting p2p_connected p2p_disconnected p2p_failed p2p_closed : RtcP2PState

abbrev pub max_control_payload_size : ℕ
max_control_payload_size = 4096

-- A message that is missing, empty or too long is kept as an invalid one.
abbrev pub checked_payload : Option (List ℕ) → Option (List ℕ)
checked_payload none = none
checked_payload (some bytes) =
    if length bytes == 0 || ltb max_control_payload_size (length bytes) then none else some bytes

module _ {S : Type 0} where
  unfoldable pub enqueue : PendingEvent → VehicleControlModule S → VehicleControlModule S
  enqueue event s =
      if leb s.options.max_pending_events (length s.pending_events)
      then record s { pending_events = event ∷ []; pending_overflow = true }
      else record s { pending_events = s.pending_events ++ event ∷ [] }

  unfoldable pub enqueue_message :
      ℕ → Option String → Option (List ℕ) → VehicleControlModule S → VehicleControlModule S
  unfolding enqueue
  enqueue_message remote none bytes s = s
  enqueue_message remote (some channel) bytes s =
      if not (str_eq channel vehicle_control_channel_label)
        && not (str_eq channel vehicle_event_channel_label)
      then s
      else enqueue (PendingEvent.message remote channel (checked_payload bytes)) s

  unfoldable pub enqueue_p2p_state :
      ℕ → RtcP2PState → VehicleControlModule S → VehicleControlModule S
  unfolding enqueue
  enqueue_p2p_state remote RtcP2PState.p2p_connected s =
      enqueue (PendingEvent.peer_connected remote) s
  enqueue_p2p_state remote RtcP2PState.p2p_disconnected s =
      enqueue (PendingEvent.peer_disconnected remote) s
  enqueue_p2p_state remote RtcP2PState.p2p_failed s =
      enqueue (PendingEvent.peer_disconnected remote) s
  enqueue_p2p_state remote RtcP2PState.p2p_closed s =
      enqueue (PendingEvent.peer_disconnected remote) s
  enqueue_p2p_state remote _ s = s

  unfoldable pub enqueue_transport_disconnected : VehicleControlModule S → VehicleControlModule S
  unfolding enqueue
  enqueue_transport_disconnected s = enqueue PendingEvent.transport_disconnected s

  -- The completion callback that the device holds.
  unfoldable pub enqueue_dog_action_completion :
      ℕ → VehicleCommandResult → VehicleControlModule S → VehicleControlModule S
  unfolding enqueue
  enqueue_dog_action_completion id result s =
      enqueue (PendingEvent.dog_action_completed id result) s
