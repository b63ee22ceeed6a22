-- ===== src/VehicleModule/Dog.antt =====
-- vehicle_control_module.cpp: the dog actions, whose results may come back later.
use rtc_framework.Base.{
  ℕ, zero, suc, ◌+◌, Bool, true, false, not, ◌&&◌, ◌||◌, String, List, [], ◌∷◌, Option, none, some,
  length, leb, ◌==◌, u64, if◌then◌else◌,
}
use rtc_framework.Base.Assoc.{lookup, insert, erase}
use rtc_framework.VehicleProtocol.Types.{DogAction}
use rtc_framework.VehicleProtocol.Pb.{Nanopb}
use rtc_framework.VehicleModule.State.{
  Device, Effect, VehicleCommandResult, PendingDogAction, VehicleControlModule, normalize_result,
  is_lateral_motion, is_lateral_stop,
}
use rtc_framework.VehicleModule.Send.{send_event_ack}
use rtc_framework.VehicleModule.Drive.{rejected}

-- The loop over the map that looks for the same request of the same session.
unfoldable pub has_request : ℕ → ℕ → List (ℕ × PendingDogAction) → Bool
has_request remote request_id [] = false
has_request remote request_id ((id, p) ∷ m) =
    (p.remote_sessionid == remote && p.request_id == request_id) || has_request remote request_id m

abbrev pub is_some {ℓ} : {A : Type ℓ} → Option A → Bool
is_some none = false
is_some (some a) = true

abbrev pub is_taken : ℕ → List (ℕ × PendingDogAction) → Bool
is_taken id m = id == 0 || is_some (lookup id m)

-- `while (id == 0 || find(id) != end()) ++id;` with fuel.
unfoldable pub next_free : ℕ → ℕ → List (ℕ × PendingDogAction) → ℕ
next_free zero id m = id
next_free (suc fuel) id m =
    let later = next_free fuel (u64 (id + 1)) m in if is_taken id m then later else id

-- Two rounds more than there are entries: one for 0, and one to find the free number.
unfoldable pub allocate_dog_action_completion_id : {S : Type 0} → VehicleControlModule S → ℕ
allocate_dog_action_completion_id s =
    next_free (suc (suc (length s.pending_dog_actions))) s.next_dog_action_completion_id
      s.pending_dog_actions

module _ {S : Type 0} (d : Device S) (pb : Nanopb) where
  -- What an accepted action does to the lateral state.
  unfoldable pub note_lateral : DogAction → ℕ → VehicleControlModule S → VehicleControlModule S
  note_lateral a now s =
      if is_lateral_motion a.action
      then record s {
        dog_lateral_active = true;
        dog_lateral_watchdog_stopped = false;
        last_dog_lateral_ms = now;
        stop_sent = false;
      }
      else if is_lateral_stop a.action
      then record s {
        dog_lateral_active = false;
        dog_lateral_watchdog_stopped = false;
        stop_sent = true;
      }
      else s

  -- The state once the device has answered the action that was sent to it under `id`.
  abbrev pub noted : DogAction → ℕ → Bool → ℕ → S → VehicleControlModule S → VehicleControlModule S
  noted a now accepted id w s =
      let asked = record s {
        next_dog_action_completion_id = u64 (id + 1);
        world = w;
        effects = Effect.acted a.action accepted ∷ s.effects;
      } in
      if accepted then note_lateral a now asked else asked

  -- The action goes to the device under a completion id of its own.
  unfoldable pub forward_dog_action :
      ℕ → DogAction → ℕ → VehicleControlModule S → VehicleControlModule S
  unfolding note_lateral
  forward_dog_action remote a now s =
      let id = allocate_dog_action_completion_id s in
      let (w, raw) = d.send_dog_action (record a { request_id = id }) s.world in
      let result = normalize_result raw in
      let told = noted a now result.accepted id w s in
      let kept = record told {
        pending_dog_actions =
            insert id (record { remote_sessionid = remote; request_id = a.request_id })
              told.pending_dog_actions;
        state_dirty = true;
      } in
      let answered = send_event_ack d pb remote a.request_id result told in
      if result.completion_pending then kept else record answered { state_dirty = true }

  unfoldable pub process_dog_action :
      ℕ → DogAction → ℕ → VehicleControlModule S → VehicleControlModule S
  unfolding forward_dog_action
  process_dog_action remote a now s =
      let refuse = λ (text : String). send_event_ack d pb remote a.request_id (rejected text) s in
      let locked = refuse "vehicle is safety-locked" in
      if s.safety_latched && not (is_lateral_stop a.action)
      then record locked { state_dirty = true }
      else if has_request remote a.request_id s.pending_dog_actions
      then refuse "dog action request is already pending"
      else if leb s.options.max_pending_events (length s.pending_dog_actions)
      then refuse "too many pending dog actions"
      else forward_dog_action remote a now s

  -- The result of an action that was found under its completion id.
  unfoldable pub answer_dog_action :
      PendingDogAction → VehicleCommandResult → VehicleControlModule S → VehicleControlModule S
  answer_dog_action p result s =
      let answered = send_event_ack d pb p.remote_sessionid p.request_id result s in
      if not s.has_active_session || not (s.active_sessionid == p.remote_sessionid)
      then s
      else record answered { state_dirty = true }

  unfoldable pub process_dog_action_completion :
      ℕ → VehicleCommandResult → VehicleControlModule S → VehicleControlModule S
  unfolding answer_dog_action
  process_dog_action_completion id result s = elim (lookup id s.pending_dog_actions) [
    | none ↦ s
    | some p ↦
        answer_dog_action p result
          (record s { pending_dog_actions = erase id s.pending_dog_actions })
  ]
