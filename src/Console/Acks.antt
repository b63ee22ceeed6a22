-- ===== src/Console/Acks.antt =====
-- client/apps/rtc_console/vehicle_control_sender.cpp: `VehicleEventAckTracker`. The context that is passed
-- out is the result; a null pointer only drops it.
use rtc_framework.Base.{ℕ, ◌≡◌, ◌≢◌, Bool, List, Option, none, some, ◌==◌, arith, if◌then◌else◌}
use rtc_framework.Base.Assoc.{lookup, insert, erase, lookup-insert, lookup-erase}
use rtc_framework.VehicleProtocol.Types.{DogActionType}

pub record DogActionAckContext : Type 0 where
  pub action : DogActionType
  pub log_result : Bool

abbrev pub Tracker : Type 0
Tracker = List (ℕ × DogActionAckContext)

unfoldable pub track_dog_action : ℕ → DogActionAckContext → Tracker → Tracker
track_dog_action request_id context t = if request_id == 0 then t else insert request_id context t

-- Erasing what is not there changes nothing.
unfoldable pub resolve_dog_action : ℕ → Tracker → Tracker × Option DogActionAckContext
resolve_dog_action request_id t = elim (lookup request_id t) [
  | none ↦ (t, none)
  | some context ↦ (erase request_id t, some context)
]

resolve_found : (x : ℕ) (t : Tracker) → (resolve_dog_action x t).1 ≡ lookup x t
unfolding resolve_dog_action
resolve_found x t = ground arith

-- The request that is tracked last is resolved with its context, once; any other request is resolved
-- as it would have been before.
pub resolved_once :
    (x y : ℕ) (context : DogActionAckContext) (t : Tracker)
    → x ≢ 0
    → x ≢ y
    → let tracked = track_dog_action x context t in
      let r = resolve_dog_action x tracked in
      (r.1 ≡ some context)
      × (((resolve_dog_action x r.0).1 ≡ none)
          × ((resolve_dog_action y r.0).1 ≡ (resolve_dog_action y t).1))
unfolding track_dog_action resolve_dog_action
resolved_once x y context t h n = ground (
  arith,
  lookup-insert x x context t,
  lookup-insert x y context t,
  lookup-erase x x (insert x context t),
  lookup-erase x y (insert x context t),
)
