-- ===== src/Console/Targets.antt =====
-- client/apps/rtc_console/vehicle_control_sender.cpp: `VehicleControlTargetRegistry`. Each method is one
-- step, since it holds the mutex.
use rtc_framework.Base.{
  ℕ, Bool, true, false, not, ◌&&◌, List, [], ◌∷◌, Option, none, some, ◌==◌, if◌then◌else◌,
}
use rtc_framework.Base.Assoc.{lookup, erase}
use rtc_framework.Base.Sorted.{put}

pub record PeerState : Type 0 where
  pub connected : Bool
  pub control_channel_open : Bool

pub record Registry : Type 0 where
  pub peers : List (ℕ × PeerState)
  pub selected_target : ℕ

abbrev pub new_registry : Registry
new_registry = record { peers = []; selected_target = 0 }

abbrev pub clear : Registry → Registry
clear r = record { peers = []; selected_target = 0 }

-- `peers_[sessionid]`, a new entry where there is none.
abbrev pub or_new : Option PeerState → PeerState
or_new none = record { connected = false; control_channel_open = false }
or_new (some peer) = peer

unfoldable pub set_p2p_connected : ℕ → Bool → Registry → Registry × Bool
set_p2p_connected sessionid connected r =
    let peer = or_new (lookup sessionid r.peers) in
    let now_connected = put sessionid (record peer { connected = connected }) r.peers in
    let cut_off = record peer { connected = connected; control_channel_open = false } in
    if sessionid == 0
    then (r, false)
    else if connected
    then (record r { peers = now_connected }, false)
    else (
      record r {
        peers = erase sessionid (put sessionid cut_off r.peers);
        selected_target = if r.selected_target == sessionid then 0 else r.selected_target;
      },
      r.selected_target == sessionid,
    )

unfoldable pub set_control_channel_open : ℕ → Bool → Registry → Registry
set_control_channel_open sessionid open_now r =
    let peer = or_new (lookup sessionid r.peers) in
    if sessionid == 0 then r else record r {
      peers = put sessionid (record peer { control_channel_open = open_now }) r.peers;
    }

abbrev pub is_ready : PeerState → Bool
is_ready peer = peer.connected && peer.control_channel_open

abbrev pub ready_keys : List (ℕ × PeerState) → List ℕ
ready_keys [] = []
ready_keys ((sessionid, peer) ∷ others) =
    if is_ready peer then sessionid ∷ ready_keys others else ready_keys others

abbrev pub available_targets : Registry → List ℕ
available_targets r = ready_keys r.peers

abbrev pub found_ready : Option PeerState → Bool
found_ready none = false
found_ready (some peer) = is_ready peer

unfoldable pub select_target : ℕ → Registry → Registry × Bool
select_target sessionid r =
    if sessionid == 0
    then (record r { selected_target = 0 }, true)
    else if not (found_ready (lookup sessionid r.peers))
    then (r, false)
    else (record r { selected_target = sessionid }, true)

unfoldable pub selected_target_ready : Registry → Bool
selected_target_ready r =
    not (r.selected_target == 0) && found_ready (lookup r.selected_target r.peers)
