-- ===== src/VehicleModule/Lockout.antt =====
-- A session that is locked out by a safety stop that is not recoverable, and the commands that the
-- device is sent.
use rtc_framework.Base.{ℕ, suc, ◌≡◌, ◌≢◌, Bool, true, false, List, [], ◌∷◌, if◌then◌else◌, arith}
use rtc_framework.VehicleProtocol.Types.{DriveCommand, SetGear}
use rtc_framework.VehicleProtocol.Pb.{Nanopb}
use rtc_framework.VehicleProtocol.Gate.{accept_drive}
use rtc_framework.VehicleModule.State.{
  Device, Effect, PendingEvent, VehicleCommandResult, VehicleControlModule, PendingDogAction,
  is_lateral_stop,
}
use rtc_framework.VehicleModule.Send.{stop_for_safety, send_event_ack}
use rtc_framework.VehicleModule.Drive.{
  process_drive_command, ask_gate, after_gate, process_set_gear,
}

-- The commands among the effects: all that can set the device in motion or change its gear.
unfoldable pub commands : List Effect → ℕ
commands [] = 0
commands (Effect.drove command accepted ∷ es) = suc (commands es)
commands (Effect.shifted gear accepted ∷ es) = suc (commands es)
commands (Effect.acted a accepted ∷ es) =
    let before = commands es in if is_lateral_stop a then before else suc before
commands (Effect.halted ∷ es) = commands es
commands (Effect.sent remote label payload done ∷ es) = commands es

-- The session is locked out, and `n` commands have been sent so far.
pub record IsLockedOut {S : Type 0} (session n : ℕ) (s : VehicleControlModule S) : Type 0 where
  pub active : s.has_active_session ≡ true
  pub of_session : s.active_sessionid ≡ session
  pub latched : s.safety_latched ≡ true
  pub not_awaiting : s.awaiting_first_drive ≡ false
  pub not_recoverable : s.recoverable_stop_pending ≡ false
  pub gate_stopped : s.drive_gate.started ≡ false
  pub not_lateral : s.dog_lateral_active ≡ false
  pub commanded : commands s.effects ≡ n

-- The event does not end the session.
abbrev pub Stays : ℕ → PendingEvent → Type 0
Stays session (PendingEvent.peer_disconnected remote) = remote ≢ session
Stays session PendingEvent.transport_disconnected = ⊥
Stays session _ = Unit {0}

module _ {S : Type 0} (d : Device S) (session n : ℕ) where
  -- A safety stop during a session locks it out.
  pub stop_for_safety-IsLockedOut :
      (s : VehicleControlModule S)
      → s.has_active_session ≡ true
      → s.active_sessionid ≡ session
      → commands s.effects ≡ n
      → IsLockedOut session n (stop_for_safety d s)
  unfolding stop_for_safety commands
  stop_for_safety-IsLockedOut s a i c = ground arith

  pub drive-IsLockedOut :
      (seq : ℕ) (c : DriveCommand) (now : ℕ) (s : VehicleControlModule S)
      → IsLockedOut session n s
      → IsLockedOut session n (process_drive_command d seq c now s)
  unfolding process_drive_command ask_gate accept_drive after_gate stop_for_safety commands
  drive-IsLockedOut seq c now s v = ground arith

  module _ (pb : Nanopb) where
    pub ack-IsLockedOut :
        (remote id : ℕ) (r : VehicleCommandResult) (s : VehicleControlModule S)
        → IsLockedOut session n s
        → IsLockedOut session n (send_event_ack d pb remote id r s)
    unfolding send_event_ack commands
    ack-IsLockedOut remote id r s v = ground arith

    pub kept-IsLockedOut :
        (s : VehicleControlModule S) (m : List (ℕ × PendingDogAction)) (dirty : Bool)
        → IsLockedOut session n s
        → IsLockedOut session n (record s { pending_dog_actions = m; state_dirty = dirty })
    kept-IsLockedOut s m dirty v = ground arith

    pub gear-IsLockedOut :
        (remote : ℕ) (g : SetGear) (s : VehicleControlModule S)
        → IsLockedOut session n s
        → IsLockedOut session n (process_set_gear d pb remote g s)
    unfolding process_set_gear send_event_ack commands
    gear-IsLockedOut remote g s v = ground arith
