-- ===== src/Console/GamepadLaws.antt =====
-- vehicle_control_sender.cpp: what the gamepad state remembers, against what was sent. The world is
-- the list of the calls of the callback, newest first; what the callback answers is a parameter.
use rtc_framework.Base.{
  ℕ, ◌≡◌, refl, Bool, true, false, List, [], ◌∷◌, Option, none, some, arith, if◌then◌else◌,
}
use rtc_framework.Base.Float32.{Float}
use rtc_framework.VehicleProtocol.Types.{DogActionType}
use rtc_framework.Console.Gamepad.{
  Lateral, same_lateral, GamepadDogActionState, new_gamepad, Pad, Send, update_lateral,
  update_button, update, stop_for_disconnect,
}

pub record Sent : Type 0 where
  pub action : DogActionType
  pub speed : Float
  pub log_result : Bool
  pub ok : Bool

-- The direction of the newest lateral action that was accepted.
abbrev pub moved_to : DogActionType → Lateral → Lateral
moved_to DogActionType.lateral_left l = Lateral.to_left
moved_to DogActionType.lateral_right l = Lateral.to_right
moved_to DogActionType.lateral_stop l = Lateral.at_rest
moved_to _ l = l

abbrev pub last_lateral : List Sent → Lateral
last_lateral [] = Lateral.at_rest
last_lateral (x ∷ xs) = if x.ok then moved_to x.action (last_lateral xs) else last_lateral xs

pub data Call : Type 0 where
  -- Whether a callback is given.
  updates : Bool → Pad → Call
  disconnects : Bool → Call

module _ (accepts : List Sent → DogActionType → Float → Bool → Bool) where
  abbrev pub log_send : Send (List Sent)
  log_send action speed log_result w = (
    record {
      action = action;
      speed = speed;
      log_result = log_result;
      ok = accepts w action speed log_result;
    }
        ∷ w,
    accepts w action speed log_result,
  )

  abbrev pub given : Bool → Option (Send (List Sent))
  given has_send = if has_send then some log_send else none

  unfoldable pub do_call :
      Call → GamepadDogActionState × List Sent → GamepadDogActionState × List Sent
  unfolding update stop_for_disconnect
  do_call (updates has_send p) s = update (given has_send) p s
  do_call (disconnects has_send) s = (stop_for_disconnect (given has_send) s).0

  unfoldable pub do_calls :
      List Call → GamepadDogActionState × List Sent → GamepadDogActionState × List Sent
  do_calls [] s = s
  do_calls (c ∷ cs) s = do_calls cs (do_call c s)

  abbrev pub Tracks : GamepadDogActionState × List Sent → Type 0
  Tracks s = s.0.lateral ≡ last_lateral s.1

  lateral-Tracks :
      (p : Pad) (s : GamepadDogActionState × List Sent)
      → Tracks s
      → Tracks (update_lateral log_send p s)
  unfolding update_lateral
  lateral-Tracks p (g, w) v = ground arith

  button_lateral :
      (action : DogActionType) (held was_sent : Bool) (w : List Sent)
      → moved_to action (last_lateral w) ≡ last_lateral w
      → last_lateral (update_button log_send action held was_sent w).1 ≡ last_lateral w
  unfolding update_button
  button_lateral action held was_sent w h = ground arith

  update-Tracks :
      (p : Pad) (s : GamepadDogActionState × List Sent)
      → Tracks s
      → Tracks (update (some log_send) p s)
  unfolding update
  update-Tracks p (g, w) v =
      let r = update_lateral log_send p (g, w) in
      let first = lateral-Tracks p (g, w) v in
      let b = update_button log_send DogActionType.stand p.stand r.0.stand r.1 in
      let second = button_lateral DogActionType.stand p.stand r.0.stand r.1 refl in
      let third = button_lateral DogActionType.lie_down p.lie_down r.0.lie_down b.1 refl in
      cc (first, second, third)

  call-Tracks : (c : Call) (s : GamepadDogActionState × List Sent) → Tracks s → Tracks (do_call c s)
  unfolding do_call update stop_for_disconnect
  call-Tracks (updates true p) s v = update-Tracks p s v
  call-Tracks (updates false p) (g, w) v = v
  call-Tracks (disconnects has_send) (g, w) v = ground arith

  calls-Tracks :
      (cs : List Call) (s : GamepadDogActionState × List Sent) → Tracks s → Tracks (do_calls cs s)
  unfolding do_calls
  calls-Tracks [] s v = v
  calls-Tracks (c ∷ cs) s v = calls-Tracks cs (do_call c s) (call-Tracks c s v)

  -- Over any updates and disconnects, with and without a callback and whatever it accepts, a new
  -- state's direction is that of the last lateral action that was accepted; and a disconnect then
  -- reports success exactly if that is at rest after it.
  pub lateral_tracks_sent :
      (heartbeat : ℕ) (cs : List Call) (has_send : Bool)
      → let s = do_calls cs (new_gamepad heartbeat, []) in
        let r = stop_for_disconnect (given has_send) s in
        (s.0.lateral ≡ last_lateral s.1) × (r.1 ≡ same_lateral (last_lateral r.0.1) Lateral.at_rest)
  unfolding stop_for_disconnect
  lateral_tracks_sent heartbeat cs has_send =
      let v = calls-Tracks cs (new_gamepad heartbeat, []) refl in ground (arith, v)
