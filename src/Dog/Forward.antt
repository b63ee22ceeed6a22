-- ===== src/Dog/Forward.antt =====
-- dog_command_forwarder.cpp: what a caller asks of the forwarder. The multiplication of `float` is a
-- parameter. The clock is in nanoseconds, and the time of the last frame is 0 before the first one.
use rtc_framework.Base.{
  ℕ, ◌+◌, Bool, true, false, not, ◌&&◌, ◌||◌, String, ltb, ◌==◌, u64, if◌then◌else◌,
}
use rtc_framework.Base.Float32.{
  Float, zero_f, one_f, is_finite, lt_float, le_float, eq_float, neg_float,
}
use rtc_framework.VehicleProtocol.Types.{
  DriveDirection, SteeringDirection, VehicleGear, VehicleErrorCode, DogActionType, DriveCommand,
  DogAction,
}
use rtc_framework.VehicleModule.State.{VehicleCommandResult}
use rtc_framework.Dog.Types.{DogVelocity, standstill, velocity_frame, goal_frame, Impl}
use rtc_framework.Dog.Connection.{failed}
use rtc_framework.Dog.Tasks.{enqueue_velocity_frame, enqueue_behavior_frame}

pub record Config : Type 0 where
  pub max_forward_speed : Float
  pub max_angular_speed : Float
  pub max_lateral_speed : Float
  pub reconnect_interval_ms : ℕ
  pub connect_timeout_ms : ℕ
  pub shutdown_timeout_ms : ℕ
  pub behavior_result_timeout_ms : ℕ

-- The members that only the caller's thread uses, and the others.
pub record Forwarder : Type 0 where
  pub config : Config
  pub last : DogVelocity
  pub last_sent_at : ℕ
  pub behavior_seq : ℕ
  pub impl : Impl

-- What is drawn for a goal: the goal id with its time and its random number, and the time.
pub record Drawn : Type 0 where
  pub goal : ℕ
  pub now_secs : ℕ

abbrev pub min_send_interval : ℕ
min_send_interval = 50000000

-- `Start`: the speeds and the timeouts it refuses. A timeout is an `int`, and a number below 1 is 0.
unfoldable pub is_finite_positive : Float → Bool
is_finite_positive f = is_finite f && lt_float zero_f f

unfoldable pub config_is_valid : Config → Bool
unfolding is_finite_positive
config_is_valid c =
    if not (is_finite_positive c.max_forward_speed) || not (is_finite_positive c.max_angular_speed)
    then false
    else not (
        (c.reconnect_interval_ms == 0)
        || ((c.connect_timeout_ms == 0)
            || ((c.shutdown_timeout_ms == 0) || (c.behavior_result_timeout_ms == 0))))

abbrev pub succeeded : Bool → VehicleCommandResult
succeeded pending = record {
  accepted = true;
  completion_pending = pending;
  error_code = VehicleErrorCode.no_error;
  detail = "";
}

unfoldable pub forward_velocity : ℕ → DogVelocity → Forwarder → Forwarder × Bool
unfolding eq_float enqueue_velocity_frame
forward_velocity now v f =
    let s = f.impl in
    let changed =
      not (eq_float v.vx f.last.vx)
      || (not (eq_float v.vy f.last.vy) || not (eq_float v.wz f.last.wz)) in
    let is_stop = eq_float v.vx zero_f && (eq_float v.vy zero_f && eq_float v.wz zero_f) in
    let r = enqueue_velocity_frame (velocity_frame v) is_stop s in
    if not s.running || not s.connected
    then (f, false)
    else if not is_stop
        && (not changed
            && (not (f.last_sent_at == 0) && ltb now (f.last_sent_at + min_send_interval)))
    then (f, true)
    else if not r.1
    then (f, false)
    else (record f { impl = r.0; last = v; last_sent_at = now }, true)

unfoldable pub forward_dog_behavior_goal : String → Drawn → ℕ → Forwarder → Forwarder × Bool
unfolding enqueue_behavior_frame
forward_dog_behavior_goal args drawn request_id f =
    let s = f.impl in
    let seq = u64 (f.behavior_seq + 1) in
    let r =
      enqueue_behavior_frame (goal_frame drawn.goal args seq drawn.now_secs) drawn.goal request_id
        s in
    if not s.running || not s.connected
    then (f, false)
    else if not r.1
    then (record f { behavior_seq = seq }, false)
    else (record f { impl = r.0; behavior_seq = seq }, true)

unfoldable pub send_stop : ℕ → Forwarder → Forwarder
unfolding forward_velocity
send_stop now f = (forward_velocity now standstill f).0

abbrev pub not_connected : VehicleCommandResult
not_connected = failed VehicleErrorCode.invalid_state "rosbridge WebSocket is not connected"

unfoldable pub send_velocity : ℕ → DogVelocity → Forwarder → Forwarder × VehicleCommandResult
unfolding forward_velocity
send_velocity now v f =
    let r = forward_velocity now v f in
    if not (is_finite v.vx) || (not (is_finite v.vy) || not (is_finite v.wz))
    then (f, failed VehicleErrorCode.invalid_argument "velocity contains NaN or infinity")
    else if not r.1
    then (r.0, not_connected)
    else (r.0, succeeded false)

-- The gear is only logged.
abbrev pub send_gear_command : VehicleGear → VehicleCommandResult
send_gear_command gear = succeeded false

-- The answer to a request that was, or was not, forwarded.
abbrev pub answer : Bool → Forwarder × Bool → Forwarder × VehicleCommandResult
answer pending (f, true) = (f, succeeded pending)
answer pending (f, false) = (f, not_connected)

-- `-1.0f`
abbrev pub minus_one_f : Float
minus_one_f = 0xbf800000

module _ (mul : Float → Float → Float) where
  abbrev pub drive_sign : DriveDirection → Float
  drive_sign DriveDirection.forward = one_f
  drive_sign DriveDirection.reverse = minus_one_f
  drive_sign _ = zero_f

  abbrev pub turn_speed : SteeringDirection → Float → Float
  turn_speed SteeringDirection.left speed = speed
  turn_speed SteeringDirection.right speed = neg_float speed
  turn_speed _ speed = zero_f

  unfoldable pub drive_command_to_velocity : DriveCommand → Float → Float → DogVelocity
  unfolding lt_float
  drive_command_to_velocity c max_forward_speed max_angular_speed =
      if lt_float zero_f c.brake then standstill else record {
        vx = mul (mul (drive_sign c.drive_direction) c.throttle) max_forward_speed;
        vy = zero_f;
        wz = turn_speed c.steering_direction max_angular_speed;
      }

  -- `SendDriveCommand`: its velocity, and the rest.
  unfoldable pub drive_velocity : DriveCommand → Config → DogVelocity
  unfolding drive_command_to_velocity le_float
  drive_velocity c config =
      if le_float c.brake zero_f
      then drive_command_to_velocity c config.max_forward_speed config.max_angular_speed
      else standstill

  unfoldable pub send_drive_command :
      ℕ → DriveCommand → Forwarder → Forwarder × VehicleCommandResult
  unfolding drive_velocity forward_velocity
  send_drive_command now c f = send_velocity now (drive_velocity c f.config) f

  -- `std::max(0.0f, speed) * max_lateral_speed`
  abbrev pub lateral_speed : Float → Forwarder → Float
  lateral_speed speed f =
      mul (if lt_float zero_f speed then speed else zero_f) f.config.max_lateral_speed

  abbrev pub sideways : Float → DogVelocity
  sideways speed = record { vx = zero_f; vy = speed; wz = zero_f }

  -- `SendDogAction`: its switch over the action.
  unfoldable pub act :
      DogActionType → ℕ → Drawn → DogAction → Forwarder → Forwarder × VehicleCommandResult
  unfolding forward_velocity forward_dog_behavior_goal
  act DogActionType.lateral_left now drawn a f =
      answer false (forward_velocity now (sideways (lateral_speed a.speed f)) f)
  act DogActionType.lateral_right now drawn a f =
      answer false (forward_velocity now (sideways (neg_float (lateral_speed a.speed f))) f)
  act DogActionType.lateral_stop now drawn a f = answer false (forward_velocity now standstill f)
  act DogActionType.stand now drawn a f = answer true (
      forward_dog_behavior_goal "[{\"behavior\":\"force_recovery_balance_stand\"}]" drawn
        a.request_id f)
  act DogActionType.lie_down now drawn a f = answer true (
      forward_dog_behavior_goal
        "[{\"behavior\":\"force_recovery_balance_stand\"},{\"behavior\":\"rest\"}]" drawn
        a.request_id f)
  act _ now drawn a f = (f, failed VehicleErrorCode.invalid_argument "unknown dog action")

  unfoldable pub send_dog_action :
      ℕ → Drawn → DogAction → Forwarder → Forwarder × VehicleCommandResult
  unfolding act
  send_dog_action now drawn a f = act a.action now drawn a f
