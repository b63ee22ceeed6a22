-- ===== src/VehicleModule/SafetyEvents.antt =====
-- The safety invariant of the vehicle control module over the events of a tick.
use text.Mathlib.Text.{◌==◌ as str_eq}
use rtc_framework.Base.{
  ℕ, ◌≡◌, ◌⊎◌, inl, inr, Bool, true, false, not, ◌||◌, ◌&&◌, ◌==◌, leb, length, String, List, [],
  ◌∷◌, Option, some, none, arith, Option-cases, if_elim,
}
use rtc_framework.Base.Assoc.{lookup}
use rtc_framework.VehicleProtocol.Types.{
  DogAction, Envelope, MessageType, DecodeResult, decoded_ok, vehicle_control_channel_label,
}
use rtc_framework.VehicleProtocol.Pb.{Nanopb}
use rtc_framework.VehicleProtocol.Decode.{decode_envelope}
use rtc_framework.VehicleModule.State.{
  Device, PendingEvent, VehicleCommandResult, VehicleControlModule, PendingDogAction,
  is_lateral_stop, normalize_result,
}
use rtc_framework.VehicleModule.Send.{stop_for_safety, send_event_ack}
use rtc_framework.VehicleModule.Drive.{rejected}
use rtc_framework.VehicleModule.Dog.{
  has_request, allocate_dog_action_completion_id, note_lateral, noted, forward_dog_action,
  process_dog_action, answer_dog_action, process_dog_action_completion,
}
use rtc_framework.VehicleModule.Events.{
  handle_peer_connected, handle_peer_disconnected, process_control, process_transaction,
  process_decoded, process_message, process_event, process_events,
}
use rtc_framework.VehicleModule.Safety.{
  IsSafe, is_moving, stop_for_safety-IsSafe, send_event_ack-IsSafe, process_drive_command-IsSafe,
  process_set_gear-IsSafe,
}

module _ {S : Type 0} (d : Device S) (wired : d.has_vehicle_control ≡ true) (pb : Nanopb) where
  noted-IsSafe :
      (a : DogAction) (now : ℕ) (accepted : Bool) (id : ℕ) (w : S) (s : VehicleControlModule S)
      → IsSafe s
      → (s.safety_latched ≡ false) ⊎ (is_lateral_stop a.action ≡ true)
      → IsSafe (noted d pb a now accepted id w s)
  unfolding note_lateral is_moving
  noted-IsSafe a now accepted id w s v h = ground arith

  -- The queues and the dirty flag do not matter to safety.
  kept-IsSafe :
      (s : VehicleControlModule S) (m : List (ℕ × PendingDogAction)) (dirty : Bool)
      → IsSafe s
      → IsSafe (record s { pending_dog_actions = m; state_dirty = dirty })
  kept-IsSafe s m dirty v = ground arith

  forward_dog_action-IsSafe :
      (remote : ℕ) (a : DogAction) (now : ℕ) (s : VehicleControlModule S)
      → IsSafe s
      → (s.safety_latched ≡ false) ⊎ (is_lateral_stop a.action ≡ true)
      → IsSafe (forward_dog_action d pb remote a now s)
  unfolding forward_dog_action
  forward_dog_action-IsSafe remote a now s v h =
      let id : ℕ = allocate_dog_action_completion_id s in
      let (w, raw) = d.send_dog_action (record a { request_id = id }) s.world in
      let r : VehicleCommandResult = normalize_result raw in
      let t : VehicleControlModule S = noted d pb a now r.accepted id w s in
      let safe : IsSafe t = noted-IsSafe a now r.accepted id w s v h in
      let answered = send_event_ack d pb remote a.request_id r t in
      if_elim IsSafe r.completion_pending _ _ (λ _. kept-IsSafe t _ true safe)
        (λ _.
          kept-IsSafe answered answered.pending_dog_actions true
            (send_event_ack-IsSafe d wired pb remote a.request_id r t safe))

  refused_action-IsSafe :
      (remote id : ℕ) (text : String) (dirty : Bool) (s : VehicleControlModule S)
      → IsSafe s
      → IsSafe (record (send_event_ack d pb remote id (rejected text) s) { state_dirty = dirty })
  refused_action-IsSafe remote id text dirty s v =
      kept-IsSafe _ _ dirty (send_event_ack-IsSafe d wired pb remote id (rejected text) s v)

  process_dog_action-IsSafe :
      (remote : ℕ) (a : DogAction) (now : ℕ) (s : VehicleControlModule S)
      → IsSafe s
      → IsSafe (process_dog_action d pb remote a now s)
  unfolding process_dog_action
  process_dog_action-IsSafe remote a now s v =
      if_elim IsSafe (s.safety_latched && not (is_lateral_stop a.action)) _ _
        (λ _. refused_action-IsSafe remote a.request_id _ true s v)
        (λ h.
          if_elim IsSafe (has_request remote a.request_id s.pending_dog_actions) _ _
            (λ _. refused "dog action request is already pending")
            (λ _.
              if_elim IsSafe (leb s.options.max_pending_events (length s.pending_dog_actions)) _ _
                (λ _. refused "too many pending dog actions")
                (λ _. forward_dog_action-IsSafe remote a now s v (ground arith))))
    where
      refused : (text : String) → IsSafe (send_event_ack d pb remote a.request_id (rejected text) s)
      refused text = send_event_ack-IsSafe d wired pb remote a.request_id (rejected text) s v

  answer_dog_action-IsSafe :
      (p : PendingDogAction) (r : VehicleCommandResult) (s : VehicleControlModule S)
      → IsSafe s
      → IsSafe (answer_dog_action d pb p r s)
  unfolding answer_dog_action
  answer_dog_action-IsSafe p r s v =
      let t : VehicleControlModule S = send_event_ack d pb p.remote_sessionid p.request_id r s in
      if_elim IsSafe (not s.has_active_session || not (s.active_sessionid == p.remote_sessionid)) s
        (record t { state_dirty = true }) (λ _. v)
        (λ _.
          kept-IsSafe t t.pending_dog_actions true
            (send_event_ack-IsSafe d wired pb p.remote_sessionid p.request_id r s v))

  process_dog_action_completion-IsSafe :
      (id : ℕ) (r : VehicleCommandResult) (s : VehicleControlModule S)
      → IsSafe s
      → IsSafe (process_dog_action_completion d pb id r s)
  unfolding process_dog_action_completion
  process_dog_action_completion-IsSafe id r s v =
      elim (Option-cases (lookup id s.pending_dog_actions)) [
        | inl e ↦ rw (e, process_dog_action_completion) v
        | inr (p, e) ↦
            rw (e, process_dog_action_completion)
              (answer_dog_action-IsSafe p r _ (kept-IsSafe s _ s.state_dirty v))
      ]

  handle_peer_connected-IsSafe :
      (remote : ℕ) (s : VehicleControlModule S) → IsSafe s → IsSafe (handle_peer_connected remote s)
  unfolding handle_peer_connected
  handle_peer_connected-IsSafe remote s v = ground arith

  handle_peer_disconnected-IsSafe :
      (remote : ℕ) (s : VehicleControlModule S)
      → IsSafe s
      → IsSafe (handle_peer_disconnected d remote s)
  unfolding handle_peer_disconnected stop_for_safety is_moving
  handle_peer_disconnected-IsSafe remote s v = ground arith

  process_control-IsSafe :
      (e : Envelope) (t : MessageType) (now : ℕ) (s : VehicleControlModule S)
      → IsSafe s
      → s.has_active_session ≡ true
      → IsSafe (process_control d pb e t now s)
  unfolding process_control
  process_control-IsSafe e MessageType.drive_command now s v a =
      process_drive_command-IsSafe d wired e.seq e.drive_command now s v a
  process_control-IsSafe e _ now s v a = stop_for_safety-IsSafe d wired s v

  process_transaction-IsSafe :
      (remote : ℕ) (e : Envelope) (t : MessageType) (now : ℕ) (s : VehicleControlModule S)
      → IsSafe s
      → IsSafe (process_transaction d pb remote e t now s)
  unfolding process_transaction
  process_transaction-IsSafe remote e MessageType.set_gear now s v =
      process_set_gear-IsSafe d wired pb remote e.set_gear s v
  process_transaction-IsSafe remote e MessageType.dog_action now s v =
      process_dog_action-IsSafe remote e.dog_action now s v
  process_transaction-IsSafe remote e _ now s v = stop_for_safety-IsSafe d wired s v

  process_decoded-IsSafe :
      (remote : ℕ) (label : String) (r : DecodeResult) (now : ℕ) (s : VehicleControlModule S)
      → IsSafe s
      → s.has_active_session ≡ true
      → IsSafe (process_decoded d pb remote label r now s)
  unfolding process_decoded
  process_decoded-IsSafe remote label r now s v a =
      if_elim IsSafe (not (decoded_ok r)) _ _ (λ _. stop_for_safety-IsSafe d wired s v)
        (λ _.
          if_elim IsSafe (str_eq label vehicle_control_channel_label) _ _
            (λ _. process_control-IsSafe r.envelope r.envelope.type now s v a)
            (λ _. process_transaction-IsSafe remote r.envelope r.envelope.type now s v))

  process_message-IsSafe :
      (remote : ℕ) (label : String) (payload : Option (List ℕ)) (now : ℕ)
      (s : VehicleControlModule S)
      → IsSafe s
      → IsSafe (process_message d pb remote label payload now s)
  unfolding process_message
  process_message-IsSafe remote label none now s v =
      if_elim IsSafe (not s.has_active_session || not (remote == s.active_sessionid)) _ _ (λ _. v)
        (λ _. stop_for_safety-IsSafe d wired s v)
  process_message-IsSafe remote label (some bytes) now s v =
      if_elim IsSafe (not s.has_active_session || not (remote == s.active_sessionid)) _ _ (λ _. v)
        (λ h.
          process_decoded-IsSafe remote label (decode_envelope pb (some bytes)) now s v
            (ground arith))

  pub process_event-IsSafe :
      (e : PendingEvent) (now : ℕ) (s : VehicleControlModule S)
      → IsSafe s
      → IsSafe (process_event d pb e now s)
  unfolding process_event
  process_event-IsSafe (PendingEvent.message remote label payload) now s v =
      process_message-IsSafe remote label payload now s v
  process_event-IsSafe (PendingEvent.peer_connected remote) now s v =
      handle_peer_connected-IsSafe remote s v
  process_event-IsSafe (PendingEvent.peer_disconnected remote) now s v =
      handle_peer_disconnected-IsSafe remote s v
  process_event-IsSafe PendingEvent.transport_disconnected now s v =
      if_elim IsSafe s.has_active_session _ _
        (λ _. handle_peer_disconnected-IsSafe s.active_sessionid s v) (λ _. v)
  process_event-IsSafe (PendingEvent.dog_action_completed id r) now s v =
      process_dog_action_completion-IsSafe id r s v

  pub process_events-IsSafe :
      (es : List PendingEvent) (now : ℕ) (s : VehicleControlModule S)
      → IsSafe s
      → IsSafe (process_events d pb es now s)
  unfolding process_events
  process_events-IsSafe [] now s v = v
  process_events-IsSafe (e ∷ es) now s v =
      process_events-IsSafe es now (process_event d pb e now s) (process_event-IsSafe e now s v)
