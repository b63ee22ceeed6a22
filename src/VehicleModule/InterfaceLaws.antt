-- ===== src/VehicleModule/InterfaceLaws.antt =====
-- The answers of the three vehicle control interfaces, as the vehicle module normalises them.
use rtc_framework.Base.{ℕ, ◌≡◌, refl, Bool, true, false, arith}
use rtc_framework.Base.Float32.{Float}
use rtc_framework.VehicleProtocol.Types.{DriveCommand, VehicleGear, DogAction, DogActionType}
use rtc_framework.VehicleModule.State.{VehicleCommandResult, normalize_result}
use rtc_framework.VehicleModule.Interfaces.{
  Debug, debug_result, debug_drive, debug_gear, not_connected_result,
}
use rtc_framework.Dog.Types.{DogVelocity}
use rtc_framework.Dog.Forward.{
  Forwarder, Drawn, answer, act, send_velocity, send_drive_command, send_dog_action,
  send_gear_command,
}

abbrev pub IsNormal : VehicleCommandResult → Type 0
IsNormal r = normalize_result r ≡ r

answer-IsNormal : (pending : Bool) (r : Forwarder × Bool) → IsNormal (answer pending r).1
unfolding normalize_result
answer-IsNormal pending (f, true) = refl
answer-IsNormal pending (f, false) = refl

velocity-IsNormal : (now : ℕ) (v : DogVelocity) (f : Forwarder) → IsNormal (send_velocity now v f).1
unfolding send_velocity normalize_result
velocity-IsNormal now v f = ground arith

act-IsNormal :
    (mul : Float → Float → Float) (action : DogActionType) (now : ℕ) (drawn : Drawn) (a : DogAction)
    (f : Forwarder)
    → IsNormal (act mul action now drawn a f).1
unfolding act normalize_result
act-IsNormal mul DogActionType.unknown now drawn a f = refl
act-IsNormal mul (DogActionType.unlisted n) now drawn a f = refl
act-IsNormal mul DogActionType.lateral_left now drawn a f = answer-IsNormal false _
act-IsNormal mul DogActionType.lateral_right now drawn a f = answer-IsNormal false _
act-IsNormal mul DogActionType.lateral_stop now drawn a f = answer-IsNormal false _
act-IsNormal mul DogActionType.stand now drawn a f = answer-IsNormal true _
act-IsNormal mul DogActionType.lie_down now drawn a f = answer-IsNormal true _

debug-IsNormal : (opened valid : Bool) → IsNormal (debug_result opened valid)
unfolding normalize_result
debug-IsNormal opened valid = ground arith

-- Normalising leaves every answer of the dog forwarder to a drive, gear or action command as it is, and
-- those of the debug and the placeholder interfaces: an answer is accepted exactly if it has no error.
pub answers_unchanged :
    (mul : Float → Float → Float) (now : ℕ) (drawn : Drawn) (c : DriveCommand) (gear : VehicleGear)
    (a : DogAction) (f : Forwarder) (d : Debug)
    → IsNormal (send_drive_command mul now c f).1
      × (IsNormal (send_gear_command gear)
          × (IsNormal (send_dog_action mul now drawn a f).1
              × (IsNormal (debug_drive c d)
                  × (IsNormal (debug_gear gear d) × IsNormal not_connected_result))))
unfolding send_drive_command send_dog_action debug_drive debug_gear normalize_result
answers_unchanged mul now drawn c gear a f d = (
  velocity-IsNormal now _ f,
  (
    refl,
    (
      act-IsNormal mul a.action now drawn a f,
      (debug-IsNormal d.opened _, (debug-IsNormal d.opened _, refl)),
    ),
  ),
)
