-- ===== src/Dog/ForwardLaws.antt =====
-- dog_command_forwarder.cpp: what the callers of the forwarder are answered.
use rtc_framework.Base.{
  ℕ, ◌+◌, ◌<◌, ◌≡◌, ◌⊎◌, Bool, true, false, ◌&&◌, List, [], ◌∷◌, ◌++◌, ltb, arith, if◌then◌else◌,
}
use rtc_framework.Base.Float32.{Float, zero_f, is_nan, is_finite, le_float, eq_float}
use rtc_framework.VehicleProtocol.Types.{VehicleErrorCode, DriveCommand}
use rtc_framework.Dog.Types.{DogVelocity, standstill, velocity_frame, Task, velocity_task}
use rtc_framework.Dog.Tasks.{enqueue_velocity_frame}
use rtc_framework.Dog.Forward.{
  Forwarder, min_send_interval, forward_velocity, drive_velocity, send_velocity, send_drive_command,
}

abbrev pub IsOpen : Forwarder → Type 0
IsOpen f = (f.impl.running ≡ true) × ((f.impl.connected ≡ true) × (f.impl.has_io ≡ true))

abbrev pub posts : Task → Forwarder → List Task
posts task f = f.impl.tasks ++ task ∷ []

-- Neither throttling nor anything else holds a stop back.
stop_posted :
    (now : ℕ) (f : Forwarder)
    → IsOpen f
    → let r = forward_velocity now standstill f in
      (r.1 ≡ true)
      × (r.0.impl
          ≡ record f.impl { tasks = posts (velocity_task (velocity_frame standstill) true) f })
unfolding forward_velocity enqueue_velocity_frame eq_float is_nan
stop_posted now f v = ground arith

module _ (mul : Float → Float → Float) where
  -- On an open forwarder a brake that is above zero, or is not a number, does nothing but post the zero
  -- velocity as a stop, and is accepted, whatever the throttle, the limits and the time of the last frame are.
  pub brake_stops :
      (now : ℕ) (c : DriveCommand) (f : Forwarder)
      → le_float c.brake zero_f ≡ false
      → IsOpen f
      → let r = send_drive_command mul now c f in
        (r.1.accepted ≡ true)
        × (r.0.impl
            ≡ record f.impl { tasks = posts (velocity_task (velocity_frame standstill) true) f })
  unfolding send_drive_command drive_velocity send_velocity is_finite
  brake_stops now c f b v = ground (arith, stop_posted now f v)

abbrev pub IsFiniteVelocity : DogVelocity → Type 0
IsFiniteVelocity v = (is_finite v.vx ≡ true) × ((is_finite v.vy ≡ true) × (is_finite v.wz ≡ true))

abbrev pub halts : DogVelocity → Bool
halts v = eq_float v.vx zero_f && (eq_float v.vy zero_f && eq_float v.wz zero_f)

-- What a call may do: nothing, or post one frame.
abbrev pub Posts : DogVelocity → Forwarder → Forwarder → Type 0
Posts v f g = (g ≡ f) ⊎ (g.impl.tasks ≡ posts (velocity_task (velocity_frame v) (halts v)) f)

forward-Posts :
    (now : ℕ) (v : DogVelocity) (f : Forwarder)
    → let r = forward_velocity now v f in
      ((r.1 ≡ false) × (r.0 ≡ f)) ⊎ ((r.1 ≡ true) × Posts v f r.0)
unfolding forward_velocity enqueue_velocity_frame
forward-Posts now v f = ground arith

send_velocity-Posts :
    (now : ℕ) (v : DogVelocity) (f : Forwarder)
    → let r = send_velocity now v f in
      ((r.1.accepted ≡ false)
        × ((r.0 ≡ f)
            × ((r.1.error_code ≡ VehicleErrorCode.invalid_argument)
                ⊎ (r.1.error_code ≡ VehicleErrorCode.invalid_state))))
      ⊎ ((r.1.accepted ≡ true)
          × ((r.1.error_code ≡ VehicleErrorCode.no_error) × (IsFiniteVelocity v × Posts v f r.0)))
unfolding send_velocity
send_velocity-Posts now v f = ground (arith, forward-Posts now v f)

-- A drive command that is not accepted changes nothing, and its error is an invalid argument or an
-- invalid state. One that is accepted has no error, its velocity is finite in each part, and it posts
-- nothing or that velocity.
pub finite_or_refused :
    (mul : Float → Float → Float) (now : ℕ) (c : DriveCommand) (f : Forwarder)
    → let r = send_drive_command mul now c f in
      let v = drive_velocity mul c f.config in
      ((r.1.accepted ≡ false)
        × ((r.0 ≡ f)
            × ((r.1.error_code ≡ VehicleErrorCode.invalid_argument)
                ⊎ (r.1.error_code ≡ VehicleErrorCode.invalid_state))))
      ⊎ ((r.1.accepted ≡ true)
          × ((r.1.error_code ≡ VehicleErrorCode.no_error) × (IsFiniteVelocity v × Posts v f r.0)))
unfolding send_drive_command
finite_or_refused mul now c f = send_velocity-Posts now (drive_velocity mul c f.config) f

abbrev pub IsNumbers : DogVelocity → Type 0
IsNumbers v = (is_nan v.vx ≡ false) × ((is_nan v.vy ≡ false) × (is_nan v.wz ≡ false))

-- On an open forwarder, the velocity that was sent last, if it is of numbers and no stop, is accepted
-- when it is asked for again: within 50 ms nothing is posted for it, and after that it is.
pub throttled :
    (now : ℕ) (f : Forwarder)
    → IsOpen f
    → halts f.last ≡ false
    → IsNumbers f.last
    → 0 < f.last_sent_at
    → let r = forward_velocity now f.last f in
      (r.1 ≡ true)
      × (r.0.impl.tasks ≡ (
          if ltb now (f.last_sent_at + min_send_interval)
          then f.impl.tasks
          else posts (velocity_task (velocity_frame f.last) false) f))
unfolding forward_velocity enqueue_velocity_frame eq_float
throttled now f o h n b = ground arith
