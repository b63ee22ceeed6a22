-- ===== src/VehicleModule/LockoutEvents.antt =====
-- The lockout of a session over events and ticks.
use rtc_framework.Base.{
  ℕ, ◌≡◌, true, false, not, ◌||◌, ◌==◌, String, List, [], ◌∷◌, some, if◌then◌else◌, if_elim, All,
  arith,
}
use rtc_framework.VehicleProtocol.Types.{decoded_ok}
use rtc_framework.VehicleProtocol.Pb.{Nanopb}
use rtc_framework.VehicleProtocol.Gate.{poll_watchdog}
use rtc_framework.VehicleProtocol.Decode.{decode_envelope}
use rtc_framework.VehicleModule.State.{Device, PendingEvent, VehicleControlModule}
use rtc_framework.VehicleModule.Send.{stop_for_safety, send_stop_once, maybe_send_state}
use rtc_framework.VehicleModule.Events.{
  handle_peer_connected, handle_peer_disconnected, process_decoded, process_message, process_event,
  process_events,
}
use rtc_framework.VehicleModule.Tick.{poll_drive, poll_lateral, tick}
use rtc_framework.VehicleModule.LockoutMessages.{stop-Locked, completion-Locked, message-Locked}
use rtc_framework.VehicleModule.Lockout.{commands, IsLockedOut, Stays, stop_for_safety-IsLockedOut}

module _ {S : Type 0} (d : Device S) (pb : Nanopb) (session n : ℕ) where
  abbrev Locked : VehicleControlModule S → Type 0
  Locked = IsLockedOut session n

  event-Locked :
      (e : PendingEvent) (now : ℕ) (s : VehicleControlModule S)
      → Stays session e
      → Locked s
      → Locked (process_event d pb e now s)
  unfolding process_event handle_peer_connected handle_peer_disconnected
  event-Locked (PendingEvent.message remote label payload) now s h v =
      message-Locked d pb session n remote label payload now s v
  event-Locked (PendingEvent.peer_connected remote) now s h v = ground arith
  event-Locked (PendingEvent.peer_disconnected remote) now s h v = ground arith
  event-Locked PendingEvent.transport_disconnected now s h v = absurd h
  event-Locked (PendingEvent.dog_action_completed id r) now s h v =
      completion-Locked d pb session n id r s v

  events-Locked :
      (es : List PendingEvent) (now : ℕ) (s : VehicleControlModule S)
      → All (Stays session) es
      → Locked s
      → Locked (process_events d pb es now s)
  unfolding process_events
  events-Locked [] now s h v = v
  events-Locked (e ∷ es) now s h v =
      events-Locked es now (process_event d pb e now s) h.1 (event-Locked e now s h.0 v)

  poll_drive-Locked :
      (now : ℕ) (s : VehicleControlModule S) → Locked s → Locked (poll_drive d now s)
  unfolding poll_drive poll_watchdog
  poll_drive-Locked now s v = ground arith

  poll_lateral-Locked :
      (now : ℕ) (s : VehicleControlModule S) → Locked s → Locked (poll_lateral d now s)
  unfolding poll_lateral send_stop_once
  poll_lateral-Locked now s v = ground arith

  report-Locked :
      (now : ℕ) (s : VehicleControlModule S) → Locked s → Locked (maybe_send_state d pb now s)
  unfolding maybe_send_state commands
  report-Locked now s v = ground arith

  abbrev Taken : VehicleControlModule S → VehicleControlModule S
  Taken s = record s { pending_events = []; pending_overflow = false }

  tick-Locked_of_ready :
      (now : ℕ) (s : VehicleControlModule S)
      → All (Stays session) s.pending_events
      → (s.started ≡ false → Locked s)
      → Locked (if s.pending_overflow then stop_for_safety d (Taken s) else Taken s)
      → Locked (tick d pb now s)
  unfolding tick
  tick-Locked_of_ready now s h idle ready =
      if_elim Locked (not s.started) _ _ (λ q. idle (ground arith))
        (λ _. report-Locked now _ (
          poll_lateral-Locked now _
            (poll_drive-Locked now _ (events-Locked s.pending_events now _ h ready))))

  -- A tick over events that do not end a locked-out session leaves it locked out, and sends the
  -- device no drive command, no gear and no dog action but lateral stops.
  pub tick-IsLockedOut :
      (now : ℕ) (s : VehicleControlModule S)
      → All (Stays session) s.pending_events
      → IsLockedOut session n s
      → IsLockedOut session n (tick d pb now s)
  tick-IsLockedOut now s h v =
      tick-Locked_of_ready now s h (λ _. v)
        (if_elim Locked s.pending_overflow _ _ (λ _. stop-Locked d pb session n (Taken s) taken)
          (λ _. taken))
    where
      taken : Locked (Taken s)
      taken = ground arith

  -- When the queue has overflowed and none of the events left in it is the loss of the active session
  -- or of the transport, the next tick of the started module ends with that session locked out, and has
  -- sent the device no drive command, no gear and no dog action but lateral stops.
  pub overflow_locks_out :
      (now : ℕ) (s : VehicleControlModule S)
      → s.started ≡ true
      → s.pending_overflow ≡ true
      → s.has_active_session ≡ true
      → s.active_sessionid ≡ session
      → commands s.effects ≡ n
      → All (Stays session) s.pending_events
      → IsLockedOut session n (tick d pb now s)
  overflow_locks_out now s on over a i c h =
      tick-Locked_of_ready now s h (λ off. cc (on, off))
        (if_elim Locked s.pending_overflow _ _
          (λ _. stop_for_safety-IsLockedOut d session n (Taken s) a i c) (λ q. cc (over, q)))

  -- After a message of the active session that does not decode, and any events worked off behind it
  -- none of which is the loss of that session or of the transport, the session is locked out, and the
  -- device was sent no drive command, no gear and no dog action but lateral stops.
  pub bad_message_locks_out :
      (label : String) (bytes : List ℕ) (es : List PendingEvent) (now : ℕ)
      (s : VehicleControlModule S)
      → s.has_active_session ≡ true
      → s.active_sessionid ≡ session
      → commands s.effects ≡ n
      → decoded_ok (decode_envelope pb (some bytes)) ≡ false
      → All (Stays session) es
      → IsLockedOut session n
          (process_events d pb (PendingEvent.message session label (some bytes) ∷ es) now s)
  unfolding process_events process_event process_message process_decoded
  bad_message_locks_out label bytes es now s a i c bad h = events-Locked es now _ h (
      if_elim Locked (not s.has_active_session || not (session == s.active_sessionid)) _ _
        (λ q. absurd (ground arith))
        (λ _.
          if_elim Locked (not (decoded_ok (decode_envelope pb (some bytes)))) _ _
            (λ _. stop_for_safety-IsLockedOut d session n s a i c) (λ q. absurd (ground arith))))
