-- ===== src/Console/Tests.antt =====
-- The theorems of the console's vehicle control on concrete calls.
use rtc_framework.Base.{◌≡◌, ◌⊎◌, Bool, true, false, ◌||◌, List, [], ◌∷◌, arith}
use rtc_framework.Base.Assoc.{lookup}
use rtc_framework.Base.Float32.{Float, zero_f, one_f, le_float}
use rtc_framework.VehicleProtocol.Types.{DogActionType}
use rtc_framework.VehicleProtocol.Validate.{validate_drive_command}
use rtc_framework.Console.Targets.{
  new_registry, available_targets, select_target, selected_target_ready,
}
use rtc_framework.Console.TargetsLaws as TargetsLaws
use rtc_framework.Console.TargetsLaws.{found_connected, contains, targets_agree}
use rtc_framework.Console.Commands.{
  VehicleControlInput, make_vehicle_drive_command, made_command_valid,
}
use rtc_framework.Console.Gamepad.{Lateral, same_lateral, Pad, new_gamepad, stop_for_disconnect}
use rtc_framework.Console.GamepadLaws as GamepadLaws
use rtc_framework.Console.GamepadLaws.{Sent, last_lateral, given, lateral_tracks_sent}
use rtc_framework.Console.Slots.{new_slots, snapshot}
use rtc_framework.Console.SlotsLaws as SlotsLaws
use rtc_framework.Console.SlotsHistory.{ShowEach, bound_names, snapshot_shows_holders}

abbrev target_calls : List TargetsLaws.Call
target_calls =
    TargetsLaws.Call.connects 4 true
    ∷ TargetsLaws.Call.opens 4 true
    ∷ TargetsLaws.Call.selects 4
    ∷ []

targets_agree_example :
    let r = TargetsLaws.do_calls target_calls new_registry in
    ((r.selected_target ≡ 0) ⊎ (found_connected (lookup r.selected_target r.peers) ≡ true))
    × ((selected_target_ready r ≡ contains r.selected_target (available_targets r))
        × ((select_target 4 r).1 ≡ (false || contains 4 (available_targets r))))
targets_agree_example = targets_agree target_calls 4

abbrev half_turn : VehicleControlInput
half_turn = record {
  forward = true;
  reverse = false;
  left = true;
  right = false;
  emergency_stop = false;
  throttle = one_f;
}

made_command_valid_example :
    ((validate_drive_command (make_vehicle_drive_command half_turn)).valid ≡ true)
    × (le_float (make_vehicle_drive_command half_turn).brake zero_f ≡ true)
made_command_valid_example = made_command_valid half_turn (omega arith)

abbrev to_the_left : Pad
to_the_left = record {
  dpad_left = true;
  dpad_right = false;
  stand = false;
  lie_down = false;
  speed = one_f;
  now_ms = 1000;
}

abbrev always : List Sent → DogActionType → Float → Bool → Bool
always w action speed log_result = true

lateral_tracks_sent_example :
    let s =
      GamepadLaws.do_calls always
        (GamepadLaws.Call.updates true to_the_left ∷ [])
        (new_gamepad 100, []) in
    let r = stop_for_disconnect (given always true) s in
    (s.0.lateral ≡ last_lateral s.1) × (r.1 ≡ same_lateral (last_lateral r.0.1) Lateral.at_rest)
lateral_tracks_sent_example =
    lateral_tracks_sent always 100 (GamepadLaws.Call.updates true to_the_left ∷ []) true

-- Two sessions give the name of the first slot, and that of the second slot disconnects.
abbrev slot_calls : List SlotsLaws.Call
slot_calls =
    SlotsLaws.Call.configures ("car" ∷ "dog" ∷ "" ∷ "" ∷ [])
    ∷ SlotsLaws.Call.identifies 3 "car"
    ∷ SlotsLaws.Call.identifies 5 "car"
    ∷ SlotsLaws.Call.identifies 6 "dog"
    ∷ SlotsLaws.Call.disconnects 6
    ∷ []

snapshot_shows_holders_example :
    ShowEach slot_calls
      (bound_names slot_calls new_slots.bindings)
      (snapshot (SlotsLaws.do_calls slot_calls new_slots))
snapshot_shows_holders_example =
    snapshot_shows_holders slot_calls (tt, (omega arith, (omega arith, (omega arith, (tt, tt)))))
