-- ===== src/Manager/Replaced.antt =====
-- rtc_connection_manager.cpp: a second offer for a session whose connection still stands in the table.
use rtc_framework.Base.{ℕ, ◌<◌, ◌≡◌, Bool, true, ◌||◌, String, List, ◌∷◌, none, some, arith}
use rtc_framework.Base.Assoc.{lookup, lookup-erase}
use rtc_framework.Base.Sorted.{put, lookup-put, put-IsAscending}
use rtc_framework.VehicleModule.Queue.{RtcP2PState}
use rtc_framework.Manager.Link.{is_some}
use rtc_framework.Manager.Peers.{
  Webrtc, Manager, new_manager, destroy_all_peer_connection, destroy_peer_connection,
  interact_remote_peer, p2p_state_changed,
}
use rtc_framework.Manager.Requests.{Event, run_events}
use rtc_framework.Manager.Stable.{peers, Stable, run-Kept}
use rtc_framework.Manager.Held.{count, held, held-put}
use rtc_framework.Manager.PeersLaws.{IsKept, kept, new-IsKept, IsAbandoned, abandoned}

-- The connection in the table for a session was created for it.
pub record IsNamed (remote q : ℕ) (m : Manager) : Type 0 where
  pub named :
      lookup remote m.remotesessionid_rtcconn_map ≡ some q
      → (lookup q m.created ≡ some remote) × (q < m.next_peer)

same-IsNamed : (r q : ℕ) (m n : Manager) → peers n ≡ peers m → IsNamed r q m → IsNamed r q n
same-IsNamed r q m n e k = record { named = λ h. ground (arith, k.named (ground arith)) }

one-IsNamed :
    (r q remote : ℕ) (m : Manager) → IsNamed r q m → IsNamed r q (destroy_peer_connection remote m)
unfolding destroy_peer_connection
one-IsNamed r q remote m k = record {
  named = λ h. ground (arith, k.named, lookup-erase remote r m.remotesessionid_rtcconn_map);
}

all-IsNamed : (r q : ℕ) (m : Manager) → IsNamed r q m → IsNamed r q (destroy_all_peer_connection m)
unfolding destroy_all_peer_connection lookup
all-IsNamed r q m k = record { named = λ h. ground arith }

interact-IsNamed :
    (r q : ℕ) (w : Webrtc) (remote : ℕ) (offer_peer : Bool) (text : String) (m : Manager)
    → IsNamed r q m
    → IsNamed r q (interact_remote_peer w remote offer_peer text m)
unfolding interact_remote_peer
interact-IsNamed r q w remote offer_peer text m k = record {
  named = λ h.
      unfold lookup in
      ground (arith, k.named, lookup-put remote r m.next_peer m.remotesessionid_rtcconn_map);
}

named : (r q : ℕ) (w : Webrtc) → Stable w (IsNamed r q)
named r q w = record {
  same = same-IsNamed r q;
  one = λ remote m. one-IsNamed r q remote m;
  every = all-IsNamed r q;
  more = interact-IsNamed r q w;
}

module _ (w : Webrtc) (remote p : ℕ) (offer_peer : Bool) (text : String) (m : Manager)
    (logged_in : is_some m.link.current_sessionid ≡ true) (created : w.creates m.next_peer ≡ true)
    (parsed : (offer_peer || w.parses_offer text) ≡ true)
    (there : lookup remote m.remotesessionid_rtcconn_map ≡ some p) where
  table_after :
      (interact_remote_peer w remote offer_peer text m).remotesessionid_rtcconn_map
      ≡ put remote m.next_peer m.remotesessionid_rtcconn_map
  unfolding interact_remote_peer
  table_after = ground arith

  replaced-IsAbandoned :
      IsKept p m
      → IsNamed remote p m
      → IsAbandoned p (interact_remote_peer w remote offer_peer text m)
  unfolding interact_remote_peer
  replaced-IsAbandoned k n = ground (
    arith,
    k,
    n.named there,
    put-IsAscending remote m.next_peer m.remotesessionid_rtcconn_map k.ascending,
    held-put p remote m.next_peer m.remotesessionid_rtcconn_map k.ascending,
  )

  stale_failure :
      IsNamed remote p m
      → let t =
          p2p_state_changed p RtcP2PState.p2p_failed
            (interact_remote_peer w remote offer_peer text m) in
        (lookup remote t.remotesessionid_rtcconn_map ≡ none) × (t.closed ≡ m.next_peer ∷ m.closed)
  unfolding interact_remote_peer p2p_state_changed destroy_peer_connection lookup
  stale_failure n = ground (
    arith,
    n.named there,
    lookup-put remote remote m.next_peer m.remotesessionid_rtcconn_map,
    lookup-erase remote remote (put remote m.next_peer m.remotesessionid_rtcconn_map),
  )

new_named :
    (r q : ℕ)
    → lookup r new_manager.remotesessionid_rtcconn_map ≡ some q
    → (lookup q new_manager.created ≡ some r) × (q < new_manager.next_peer)
unfolding lookup
new_named r q h = cc

reached-IsNamed :
    (w : Webrtc) (es : List Event) (r q : ℕ) → IsNamed r q (run_events w es new_manager)
reached-IsNamed w es r q =
    run-Kept w (IsNamed r q) (named r q w) es new_manager (record { named = new_named r q })

reached-IsKept : (w : Webrtc) (es : List Event) (p : ℕ) → IsKept p (run_events w es new_manager)
reached-IsKept w es p = run-Kept w (IsKept p) (kept p w) es new_manager (new-IsKept p)

-- When a session is offered a connection while the table still holds one for it, the older peer
-- connection leaves the table without being closed, and no later event closes it. If the older one then
-- fails, its callback closes the newer one, and the session has none in the table.
pub replaced_never_closed :
    (w : Webrtc) (es fs : List Event) (remote p : ℕ) (offer_peer : Bool) (text : String)
    → let m = run_events w es new_manager in
      is_some m.link.current_sessionid ≡ true
      → w.creates m.next_peer ≡ true
      → (offer_peer || w.parses_offer text) ≡ true
      → lookup remote m.remotesessionid_rtcconn_map ≡ some p
      → let n = interact_remote_peer w remote offer_peer text m in
        let t = p2p_state_changed p RtcP2PState.p2p_failed n in
        (held p (run_events w fs n).remotesessionid_rtcconn_map ≡ 0)
        × (count p (run_events w fs n).closed ≡ 0)
        × (lookup remote t.remotesessionid_rtcconn_map ≡ none)
        × (t.closed ≡ m.next_peer ∷ m.closed)
replaced_never_closed w es fs remote p offer_peer text logged_in created parsed there =
    let m : Manager = run_events w es new_manager in
    let n : Manager = interact_remote_peer w remote offer_peer text m in
    let left : IsAbandoned p n =
      replaced-IsAbandoned w remote p offer_peer text m logged_in created parsed there
        (reached-IsKept w es p) (reached-IsNamed w es remote p) in
    let later : IsAbandoned p (run_events w fs n) =
      run-Kept w (IsAbandoned p) (abandoned p w) fs n left in
    let (none_there, newer_closed) =
      stale_failure w remote p offer_peer text m logged_in created parsed there
        (reached-IsNamed w es remote p) in
    (later.gone, later.unclosed, none_there, newer_closed)
