-- ===== src/VehicleModule/QueueLaws.antt =====
-- The event queue of vehicle_control_module.cpp at its limit, and the answers that it encodes.
use rtc_framework.Base.{
  ℕ, ◌≤◌, ◌<◌, ◌≡◌, ◌≢◌, Bool, true, false, ◌⊎◌, [], ◌∷◌, ◌++◌, length, length-append, arith,
}
use rtc_framework.VehicleProtocol.Pb.{Nanopb}
use rtc_framework.VehicleProtocol.Enums.{is_known_gear, is_known_error_code}
use rtc_framework.VehicleProtocol.Encode.{Filled, fill_event_ack}
use rtc_framework.VehicleModule.State.{
  Device, PendingEvent, VehicleCommandResult, VehicleControlModule, normalize_result,
}
use rtc_framework.VehicleModule.Send.{ack_of}
use rtc_framework.VehicleModule.Queue.{enqueue}

-- A queue within its limit stays within it, and either keeps all that it had, in order, before
-- the new event, or holds the new event alone with the overflow flag set.
pub enqueue_bounded :
    {S : Type 0} (e : PendingEvent) (s : VehicleControlModule S)
    → 0 < s.options.max_pending_events
    → length s.pending_events ≤ s.options.max_pending_events
    → (length (enqueue e s).pending_events ≤ s.options.max_pending_events)
      × (((enqueue e s).pending_events ≡ s.pending_events ++ e ∷ [])
            × ((enqueue e s).pending_overflow ≡ s.pending_overflow)
          ⊎ ((enqueue e s).pending_events ≡ e ∷ [])
            × ((enqueue e s).pending_overflow ≡ true)
            × (length s.pending_events ≡ s.options.max_pending_events))
unfolding enqueue
enqueue_bounded e s p b = ground (arith, length-append s.pending_events (e ∷ []))

abbrev pub is_filled : {A : Type 0} → Filled A → Bool
is_filled (Filled.filled a) = true
is_filled (Filled.refused text) = false

-- The answer to a request with a non-zero id is never refused by the encoder, whatever the device
-- said, provided that its error code and the active gear are listed: normalising a result makes
-- its code agree with its acceptance.
pub event_ack_fills :
    {S : Type 0} (d : Device S) (pb : Nanopb) (s : VehicleControlModule S) (id : ℕ)
    (r : VehicleCommandResult)
    → id ≢ 0
    → is_known_error_code r.error_code ≡ true
    → is_known_gear s.active_gear ≡ true
    → is_filled (fill_event_ack (ack_of d pb s id r)) ≡ true
unfolding fill_event_ack normalize_result is_known_error_code
event_ack_fills d pb s id r z k g = ground arith
