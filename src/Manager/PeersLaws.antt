-- ===== src/Manager/PeersLaws.antt =====
-- rtc_connection_manager.cpp: the peer connections over any events.
use rtc_framework.Base.{
  ℕ, ◌+◌, ◌≤◌, ◌<◌, ◌≡◌, refl, Bool, String, List, Option, none, some, arith, if◌then◌else◌, ltb,
}
use rtc_framework.Base.Assoc.{lookup}
use rtc_framework.Base.Sorted.{IsAscending, put-IsAscending, erase-IsAscending}
use rtc_framework.Manager.Peers.{
  Webrtc, Manager, new_manager, destroy_all_peer_connection, destroy_peer_connection, and_close,
  interact_remote_peer,
}
use rtc_framework.Manager.Requests.{Event, run_events}
use rtc_framework.Manager.Stable.{peers, Stable, run-Kept}
use rtc_framework.Manager.Held.{count, held, held_by, held-erase, held-put, count-close_all}

-- For the peer connection of one number: it stands in the table or was closed, at most once in all, and
-- only if it has been created.
pub record IsKept (p : ℕ) (m : Manager) : Type 0 where
  pub ascending : IsAscending m.remotesessionid_rtcconn_map
  pub once :
      held p m.remotesessionid_rtcconn_map + count p m.closed ≤ (if ltb p m.next_peer then 1 else 0)

all-IsKept : (p : ℕ) (m : Manager) → IsKept p m → IsKept p (destroy_all_peer_connection m)
unfolding destroy_all_peer_connection
all-IsKept p m k = record {
  ascending = tt;
  once = ground (arith, k.once, count-close_all p m.remotesessionid_rtcconn_map m.closed);
}

pub count-and_close :
    (p : ℕ) (o : Option ℕ) (closed : List ℕ)
    → count p (and_close o closed) ≡ held_by p o + count p closed
count-and_close p none closed = omega arith
count-and_close p (some q) closed = refl

one-IsKept : (p remote : ℕ) (m : Manager) → IsKept p m → IsKept p (destroy_peer_connection remote m)
unfolding destroy_peer_connection
one-IsKept p remote m k =
    let table : List (ℕ × ℕ) = m.remotesessionid_rtcconn_map in
    record {
      ascending = erase-IsAscending remote table k.ascending;
      once = ground (
        arith,
        k.once,
        held-erase p remote table k.ascending,
        count-and_close p (lookup remote table) m.closed,
      );
    }

interact-IsKept :
    (p : ℕ) (w : Webrtc) (remote : ℕ) (offer_peer : Bool) (text : String) (m : Manager)
    → IsKept p m
    → IsKept p (interact_remote_peer w remote offer_peer text m)
unfolding interact_remote_peer
interact-IsKept p w remote offer_peer text m k =
    let table : List (ℕ × ℕ) = m.remotesessionid_rtcconn_map in
    ground (
      arith,
      k,
      put-IsAscending remote m.next_peer table k.ascending,
      held-put p remote m.next_peer table k.ascending,
    )

same-IsKept : (p : ℕ) (m n : Manager) → peers n ≡ peers m → IsKept p m → IsKept p n
same-IsKept p m n e k = ground (arith, k)

pub kept : (p : ℕ) (w : Webrtc) → Stable w (IsKept p)
kept p w = record {
  same = same-IsKept p;
  one = λ remote m. one-IsKept p remote m;
  every = all-IsKept p;
  more = interact-IsKept p w;
}

pub new-IsKept : (p : ℕ) → IsKept p new_manager
new-IsKept p = record { ascending = tt; once = omega arith }

-- After any events every peer connection stands in the table or was closed at most once in all: none is
-- closed twice, and none that the table holds has been closed. A number not yet given is in neither.
pub held_or_closed_once :
    (w : Webrtc) (es : List Event) (p : ℕ)
    → let m = run_events w es new_manager in
      held p m.remotesessionid_rtcconn_map + count p m.closed ≤ (if ltb p m.next_peer then 1 else 0)
held_or_closed_once w es p = (run-Kept w (IsKept p) (kept p w) es new_manager (new-IsKept p)).once

-- It has been created, is not in the table, and was not closed.
pub record IsAbandoned (p : ℕ) (m : Manager) : Type 0 where
  pub ascending : IsAscending m.remotesessionid_rtcconn_map
  pub gone : held p m.remotesessionid_rtcconn_map ≡ 0
  pub unclosed : count p m.closed ≡ 0
  pub old : p < m.next_peer

same-IsAbandoned : (p : ℕ) (m n : Manager) → peers n ≡ peers m → IsAbandoned p m → IsAbandoned p n
same-IsAbandoned p m n e k = ground (arith, k)

one-IsAbandoned :
    (p remote : ℕ) (m : Manager)
    → IsAbandoned p m
    → IsAbandoned p (destroy_peer_connection remote m)
unfolding destroy_peer_connection
one-IsAbandoned p remote m k =
    let table : List (ℕ × ℕ) = m.remotesessionid_rtcconn_map in
    ground (
      arith,
      k,
      erase-IsAscending remote table k.ascending,
      held-erase p remote table k.ascending,
      count-and_close p (lookup remote table) m.closed,
    )

all-IsAbandoned :
    (p : ℕ) (m : Manager) → IsAbandoned p m → IsAbandoned p (destroy_all_peer_connection m)
unfolding destroy_all_peer_connection
all-IsAbandoned p m k = ground (arith, k, count-close_all p m.remotesessionid_rtcconn_map m.closed)

interact-IsAbandoned :
    (p : ℕ) (w : Webrtc) (remote : ℕ) (offer_peer : Bool) (text : String) (m : Manager)
    → IsAbandoned p m
    → IsAbandoned p (interact_remote_peer w remote offer_peer text m)
unfolding interact_remote_peer
interact-IsAbandoned p w remote offer_peer text m k =
    let table : List (ℕ × ℕ) = m.remotesessionid_rtcconn_map in
    ground (
      arith,
      k,
      put-IsAscending remote m.next_peer table k.ascending,
      held-put p remote m.next_peer table k.ascending,
    )

pub abandoned : (p : ℕ) (w : Webrtc) → Stable w (IsAbandoned p)
abandoned p w = record {
  same = same-IsAbandoned p;
  one = λ remote m. one-IsAbandoned p remote m;
  every = all-IsAbandoned p;
  more = interact-IsAbandoned p w;
}
