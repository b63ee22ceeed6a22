-- ===== src/Console/TargetsLaws.antt =====
-- vehicle_control_sender.cpp: the targets, over any sequence of calls.
use rtc_framework.Base.{
  ℕ, ◌≡◌, ◌≢◌, ◌⊎◌, refl, Bool, true, false, ◌||◌, List, [], ◌∷◌, Option, none, some, ◌==◌, arith,
}
use rtc_framework.Base.Assoc.{lookup, lookup-erase}
use rtc_framework.Base.Sorted.{put, lookup-put, IsAbove, put-IsAbove, erase-IsAbove, lookup-above}
use rtc_framework.Console.Targets.{
  PeerState, Registry, new_registry, clear, or_new, set_p2p_connected, set_control_channel_open,
  ready_keys, available_targets, found_ready, select_target, selected_target_ready,
}

pub data Call : Type 0 where
  clears : Call
  connects opens : ℕ → Bool → Call
  selects : ℕ → Call

unfoldable pub do_call : Call → Registry → Registry
unfolding set_p2p_connected set_control_channel_open select_target
do_call clears r = clear r
do_call (connects sessionid connected) r = (set_p2p_connected sessionid connected r).0
do_call (opens sessionid open_now) r = set_control_channel_open sessionid open_now r
do_call (selects sessionid) r = (select_target sessionid r).0

unfoldable pub do_calls : List Call → Registry → Registry
do_calls [] r = r
do_calls (c ∷ cs) r = do_calls cs (do_call c r)

abbrev pub found_connected : Option PeerState → Bool
found_connected none = false
found_connected (some peer) = peer.connected

-- The keys ascend from above 0, and the selected target is 0 or a peer that is connected.
pub record IsValid (r : Registry) : Type 0 where
  pub ascending : IsAbove 0 r.peers
  pub selected :
      (r.selected_target == 0) || found_connected (lookup r.selected_target r.peers) ≡ true

abbrev pub contains : ℕ → List ℕ → Bool
contains x [] = false
contains x (y ∷ ys) = (y == x) || contains x ys

contains-ready_keys :
    (bound x : ℕ) (peers : List (ℕ × PeerState))
    → IsAbove bound peers
    → contains x (ready_keys peers) ≡ found_ready (lookup x peers)
unfolding lookup
contains-ready_keys bound x [] v = refl
contains-ready_keys bound x ((here, peer) ∷ others) v =
    ground (arith, contains-ready_keys here x others v.1, lookup-above here x others v.1)

call-IsValid : (c : Call) (r : Registry) → IsValid r → IsValid (do_call c r)
unfolding do_call set_p2p_connected set_control_channel_open select_target
call-IsValid clears r v = ground arith
call-IsValid (connects x true) r v =
    let peer : PeerState = record (or_new (lookup x r.peers)) { connected = true } in
    ground (arith, put-IsAbove 0 x peer r.peers, lookup-put x r.selected_target peer r.peers)
call-IsValid (connects x false) r v =
    let peer : PeerState = record { connected = false; control_channel_open = false } in
    ground (
      arith,
      put-IsAbove 0 x peer r.peers,
      erase-IsAbove 0 x (put x peer r.peers),
      lookup-erase x r.selected_target (put x peer r.peers),
      lookup-put x r.selected_target peer r.peers,
    )
call-IsValid (opens x open_now) r v =
    let peer : PeerState = record (or_new (lookup x r.peers)) { control_channel_open = open_now } in
    ground (arith, put-IsAbove 0 x peer r.peers, lookup-put x r.selected_target peer r.peers)
call-IsValid (selects x) r v = ground arith

calls-IsValid : (cs : List Call) (r : Registry) → IsValid r → IsValid (do_calls cs r)
unfolding do_calls
calls-IsValid [] r v = v
calls-IsValid (c ∷ cs) r v = calls-IsValid cs (do_call c r) (call-IsValid c r v)

new-IsValid : IsValid new_registry
unfolding lookup
new-IsValid = ground arith

contains-available :
    (x : ℕ) (r : Registry)
    → IsValid r
    → contains x (available_targets r) ≡ found_ready (lookup x r.peers)
contains-available x r v = contains-ready_keys 0 x r.peers v.ascending

-- After any calls on a new registry, the selected target is 0 or a connected peer; it is ready exactly
-- when it is among the available targets; and a target can be selected exactly when it is 0 or among
-- them.
pub targets_agree :
    (cs : List Call) (x : ℕ)
    → let r = do_calls cs new_registry in
      ((r.selected_target ≡ 0) ⊎ (found_connected (lookup r.selected_target r.peers) ≡ true))
      × ((selected_target_ready r ≡ contains r.selected_target (available_targets r))
          × ((select_target x r).1 ≡ ((x == 0) || contains x (available_targets r))))
unfolding selected_target_ready select_target
targets_agree cs x =
    let r : Registry = do_calls cs new_registry in
    let v = calls-IsValid cs new_registry new-IsValid in
    ground (
      arith,
      v.selected,
      contains-available x r v,
      contains-available r.selected_target r v,
      contains-available 0 r v,
      lookup-above 0 0 r.peers v.ascending,
    )

-- What is left of a valid registry when a peer is disconnected.
disconnected-IsValid : (x : ℕ) (r : Registry) → IsValid r → IsValid (set_p2p_connected x false r).0
unfolding do_call
disconnected-IsValid x r v = call-IsValid (connects x false) r v

-- After any calls on a new registry, a peer that is disconnected is reported exactly if it was the
-- selected target; then it is neither selected nor available, and any other peer, with a session that
-- is not 0, is selected or available exactly if it was.
pub disconnected_target_gone :
    (cs : List Call) (x other : ℕ)
    → x ≢ 0
    → other ≢ 0
    → x ≢ other
    → let r = do_calls cs new_registry in
      let s = (set_p2p_connected x false r).0 in
      ((set_p2p_connected x false r).1 ≡ (r.selected_target == x))
      × (((s.selected_target == x) ≡ false)
          × (((s.selected_target == other) ≡ (r.selected_target == other))
              × ((contains x (available_targets s) ≡ false)
                  × (contains other (available_targets s) ≡ contains other (available_targets r)))))
unfolding set_p2p_connected
disconnected_target_gone cs x other h k n =
    let r : Registry = do_calls cs new_registry in
    let v = calls-IsValid cs new_registry new-IsValid in
    let w = disconnected-IsValid x r v in
    let peer : PeerState = record { connected = false; control_channel_open = false } in
    let left : List (ℕ × PeerState) = put x peer r.peers in
    ground (
      arith,
      contains-available other r v,
      contains-available x (set_p2p_connected x false r).0 w,
      contains-available other (set_p2p_connected x false r).0 w,
      lookup-erase x other left,
      lookup-erase x x left,
      lookup-put x other peer r.peers,
    )
