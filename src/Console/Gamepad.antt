-- ===== src/Console/Gamepad.antt =====
-- client/apps/rtc_console/vehicle_control_sender.cpp: `GamepadDogActionState`. The send callback is a
-- parameter over the state of the world; without one there is `none`. The direction is -1, 0 or 1.
use rtc_framework.Base.{
  ℕ, ◌+◌, Bool, true, false, not, ◌&&◌, ◌||◌, Option, none, some, leb, ◌==◌, if◌then◌else◌,
}
use rtc_framework.Base.Float32.{Float, zero_f}
use rtc_framework.VehicleProtocol.Types.{DogActionType}

pub data Lateral : Type 0 where
  to_left at_rest to_right : Lateral

abbrev pub same_lateral : Lateral → Lateral → Bool
same_lateral Lateral.to_left Lateral.to_left = true
same_lateral Lateral.at_rest Lateral.at_rest = true
same_lateral Lateral.to_right Lateral.to_right = true
same_lateral _ _ = false

pub record GamepadDogActionState : Type 0 where
  pub lateral_heartbeat_ms : ℕ
  pub lateral : Lateral
  pub last_lateral_sent_ms : ℕ
  pub stand : Bool
  pub lie_down : Bool

abbrev pub new_gamepad : ℕ → GamepadDogActionState
new_gamepad lateral_heartbeat_ms = record {
  lateral_heartbeat_ms = if lateral_heartbeat_ms == 0 then 100 else lateral_heartbeat_ms;
  lateral = Lateral.at_rest;
  last_lateral_sent_ms = 0;
  stand = false;
  lie_down = false;
}

-- What `Update` is given.
pub record Pad : Type 0 where
  pub dpad_left : Bool
  pub dpad_right : Bool
  pub stand : Bool
  pub lie_down : Bool
  pub speed : Float
  pub now_ms : ℕ

abbrev pub Send : Type 0 → Type 0
Send W = DogActionType → Float → Bool → W → W × Bool

abbrev pub lateral_action : Lateral → DogActionType
lateral_action Lateral.to_left = DogActionType.lateral_left
lateral_action Lateral.at_rest = DogActionType.lateral_stop
lateral_action Lateral.to_right = DogActionType.lateral_right

abbrev pub desired_lateral : Pad → Lateral
desired_lateral p = elim p.dpad_left [
  | true ↦ if p.dpad_right then Lateral.at_rest else Lateral.to_left
  | false ↦ if p.dpad_right then Lateral.to_right else Lateral.at_rest
]

abbrev pub reset : GamepadDogActionState → GamepadDogActionState
reset g = record g {
  lateral = Lateral.at_rest;
  last_lateral_sent_ms = 0;
  stand = false;
  lie_down = false;
}

module _ {W : Type 0} where
  -- The part of `Update` for the lateral motion.
  unfoldable pub update_lateral :
      Send W → Pad → GamepadDogActionState × W → GamepadDogActionState × W
  update_lateral send p (g, w) =
      let desired = desired_lateral p in
      let changed = not (same_lateral desired g.lateral) in
      let due =
        not (same_lateral desired Lateral.at_rest)
        && leb (g.last_lateral_sent_ms + g.lateral_heartbeat_ms) p.now_ms in
      let r = send (lateral_action desired) p.speed changed w in
      if not (changed || due)
      then (g, w)
      else if r.1
      then (record g { lateral = desired; last_lateral_sent_ms = p.now_ms }, r.0)
      else (g, r.0)

  -- The part for a button: whether it is held, and whether it was sent.
  unfoldable pub update_button : Send W → DogActionType → Bool → Bool → W → Bool × W
  update_button send action held was_sent w =
      let r = send action zero_f true w in
      if not held then (false, w) else if was_sent then (true, w) else (r.1, r.0)

  unfoldable pub update :
      Option (Send W) → Pad → GamepadDogActionState × W → GamepadDogActionState × W
  unfolding update_lateral update_button
  update none p (g, w) = (g, w)
  update (some send) p (g, w) =
      let (g1, w1) = update_lateral send p (g, w) in
      let (stand, w2) = update_button send DogActionType.stand p.stand g1.stand w1 in
      let (lie_down, w3) = update_button send DogActionType.lie_down p.lie_down g1.lie_down w2 in
      (record g1 { stand = stand; lie_down = lie_down }, w3)

  unfoldable pub stop_for_disconnect :
      Option (Send W) → GamepadDogActionState × W → (GamepadDogActionState × W) × Bool
  stop_for_disconnect send (g, w) =
      let h = record g { stand = false; lie_down = false } in
      if same_lateral g.lateral Lateral.at_rest then ((h, w), true) else elim send [
        | none ↦ ((h, w), false)
        | some send_now ↦
            let r = send_now DogActionType.lateral_stop zero_f true w in
            if r.1
            then ((record h { lateral = Lateral.at_rest; last_lateral_sent_ms = 0 }, r.0), true)
            else ((h, r.0), false)
      ]
