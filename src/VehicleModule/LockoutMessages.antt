-- ===== src/VehicleModule/LockoutMessages.antt =====
-- The lockout of a session over what a message, or the completion of an action, does.
use text.Mathlib.Text.{◌==◌ as str_eq}
use rtc_framework.Base.{
  ℕ, ◌≡◌, Bool, true, not, ◌||◌, ◌&&◌, ◌==◌, String, List, Option, some, none, Option-cases,
  if_elim, leb, length, arith, inl, inr,
}
use rtc_framework.Base.Assoc.{lookup}
use rtc_framework.VehicleProtocol.Types.{
  DogAction, Envelope, MessageType, DecodeResult, decoded_ok, vehicle_control_channel_label,
}
use rtc_framework.VehicleProtocol.Pb.{Nanopb}
use rtc_framework.VehicleProtocol.Decode.{decode_envelope}
use rtc_framework.VehicleModule.State.{
  Device, VehicleCommandResult, VehicleControlModule, PendingDogAction, is_lateral_stop,
  normalize_result,
}
use rtc_framework.VehicleModule.Send.{stop_for_safety, send_event_ack}
use rtc_framework.VehicleModule.Drive.{rejected}
use rtc_framework.VehicleModule.Dog.{
  allocate_dog_action_completion_id, note_lateral, has_request, forward_dog_action,
  process_dog_action, answer_dog_action, process_dog_action_completion,
}
use rtc_framework.VehicleModule.Events.{
  process_control, process_transaction, process_decoded, process_message,
}
use rtc_framework.VehicleModule.Dog.{noted}
use rtc_framework.VehicleModule.Lockout.{
  commands, IsLockedOut, stop_for_safety-IsLockedOut, drive-IsLockedOut, ack-IsLockedOut,
  kept-IsLockedOut, gear-IsLockedOut,
}

module _ {S : Type 0} (d : Device S) (pb : Nanopb) (session n : ℕ) where
  abbrev pub Locked : VehicleControlModule S → Type 0
  Locked = IsLockedOut session n

  pub stop-Locked : (s : VehicleControlModule S) → Locked s → Locked (stop_for_safety d s)
  stop-Locked s v = stop_for_safety-IsLockedOut d session n s v.active v.of_session v.commanded

  -- A lateral stop that is let through is no command.
  noted-Locked :
      (a : DogAction) (now : ℕ) (accepted : Bool) (id : ℕ) (w : S) (s : VehicleControlModule S)
      → is_lateral_stop a.action ≡ true
      → Locked s
      → Locked (noted d pb a now accepted id w s)
  unfolding note_lateral commands
  noted-Locked a now accepted id w s h v = ground arith

  forward-Locked :
      (remote : ℕ) (a : DogAction) (now : ℕ) (s : VehicleControlModule S)
      → is_lateral_stop a.action ≡ true
      → Locked s
      → Locked (forward_dog_action d pb remote a now s)
  unfolding forward_dog_action
  forward-Locked remote a now s h v =
      let id : ℕ = allocate_dog_action_completion_id s in
      let (w, raw) = d.send_dog_action (record a { request_id = id }) s.world in
      let r : VehicleCommandResult = normalize_result raw in
      let t : VehicleControlModule S = noted d pb a now r.accepted id w s in
      let locked : Locked t = noted-Locked a now r.accepted id w s h v in
      let answered = send_event_ack d pb remote a.request_id r t in
      if_elim Locked r.completion_pending _ _ (λ _. kept-IsLockedOut d session n pb t _ true locked)
        (λ _.
          kept-IsLockedOut d session n pb answered answered.pending_dog_actions true
            (ack-IsLockedOut d session n pb remote a.request_id r t locked))

  action-Locked :
      (remote : ℕ) (a : DogAction) (now : ℕ) (s : VehicleControlModule S)
      → Locked s
      → Locked (process_dog_action d pb remote a now s)
  unfolding process_dog_action
  action-Locked remote a now s v =
      if_elim Locked (s.safety_latched && not (is_lateral_stop a.action)) _ _
        (λ _. kept-IsLockedOut d session n pb _ _ true (refused "vehicle is safety-locked"))
        (λ h.
          if_elim Locked (has_request remote a.request_id s.pending_dog_actions) _ _
            (λ _. refused "dog action request is already pending")
            (λ _.
              if_elim Locked (leb s.options.max_pending_events (length s.pending_dog_actions)) _ _
                (λ _. refused "too many pending dog actions")
                (λ _. forward-Locked remote a now s (ground arith) v)))
    where
      refused : (text : String) → Locked (send_event_ack d pb remote a.request_id (rejected text) s)
      refused text = ack-IsLockedOut d session n pb remote a.request_id (rejected text) s v

  answer-Locked :
      (p : PendingDogAction) (r : VehicleCommandResult) (s : VehicleControlModule S)
      → Locked s
      → Locked (answer_dog_action d pb p r s)
  unfolding answer_dog_action
  answer-Locked p r s v =
      let t : VehicleControlModule S = send_event_ack d pb p.remote_sessionid p.request_id r s in
      if_elim Locked (not s.has_active_session || not (s.active_sessionid == p.remote_sessionid)) s
        (record t { state_dirty = true }) (λ _. v)
        (λ _.
          kept-IsLockedOut d session n pb t t.pending_dog_actions true
            (ack-IsLockedOut d session n pb p.remote_sessionid p.request_id r s v))

  pub completion-Locked :
      (id : ℕ) (r : VehicleCommandResult) (s : VehicleControlModule S)
      → Locked s
      → Locked (process_dog_action_completion d pb id r s)
  unfolding process_dog_action_completion
  completion-Locked id r s v = elim (Option-cases (lookup id s.pending_dog_actions)) [
    | inl e ↦ rw (e, process_dog_action_completion) v
    | inr (p, e) ↦
        rw (e, process_dog_action_completion)
          (answer-Locked p r _ (kept-IsLockedOut d session n pb s _ s.state_dirty v))
  ]

  control-Locked :
      (e : Envelope) (t : MessageType) (now : ℕ) (s : VehicleControlModule S)
      → Locked s
      → Locked (process_control d pb e t now s)
  unfolding process_control
  control-Locked e MessageType.drive_command now s v =
      drive-IsLockedOut d session n e.seq e.drive_command now s v
  control-Locked e _ now s v = stop-Locked s v

  transaction-Locked :
      (remote : ℕ) (e : Envelope) (t : MessageType) (now : ℕ) (s : VehicleControlModule S)
      → Locked s
      → Locked (process_transaction d pb remote e t now s)
  unfolding process_transaction
  transaction-Locked remote e MessageType.set_gear now s v =
      gear-IsLockedOut d session n pb remote e.set_gear s v
  transaction-Locked remote e MessageType.dog_action now s v =
      action-Locked remote e.dog_action now s v
  transaction-Locked remote e _ now s v = stop-Locked s v

  decoded-Locked :
      (remote : ℕ) (label : String) (r : DecodeResult) (now : ℕ) (s : VehicleControlModule S)
      → Locked s
      → Locked (process_decoded d pb remote label r now s)
  unfolding process_decoded
  decoded-Locked remote label r now s v =
      if_elim Locked (not (decoded_ok r)) _ _ (λ _. stop-Locked s v)
        (λ _.
          if_elim Locked (str_eq label vehicle_control_channel_label) _ _
            (λ _. control-Locked r.envelope r.envelope.type now s v)
            (λ _. transaction-Locked remote r.envelope r.envelope.type now s v))

  pub message-Locked :
      (remote : ℕ) (label : String) (payload : Option (List ℕ)) (now : ℕ)
      (s : VehicleControlModule S)
      → Locked s
      → Locked (process_message d pb remote label payload now s)
  unfolding process_message
  message-Locked remote label none now s v =
      if_elim Locked (not s.has_active_session || not (remote == s.active_sessionid)) _ _ (λ _. v)
        (λ _. stop-Locked s v)
  message-Locked remote label (some bytes) now s v =
      if_elim Locked (not s.has_active_session || not (remote == s.active_sessionid)) _ _ (λ _. v)
        (λ _. decoded-Locked remote label (decode_envelope pb (some bytes)) now s v)
