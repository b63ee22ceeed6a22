-- ===== src/Manager/LinkLaws.antt =====
-- rtc_connection_manager.cpp: the connection to the signalling server is watched at all times.
use rtc_framework.Base.{
  ℕ, zero, suc, ◌+◌, ◌≡◌, Bool, true, false, not, ◌&&◌, ◌||◌, List, [], ◌∷◌, none, some, arith,
}
use rtc_framework.Manager.Link.{
  Task, connected, disconnected, Link, new_link, is_some, on_open, notify_disconnected,
  reconnect_websocket, set_ping_timeout, on_pong_timeout, on_reconnect_timeout, read_message,
  on_message, Event, opens, says, fails, closes, ping_ends, pong_ends, reconnect_ends, happen,
  run_events,
}

-- The last notice on the connection is that it was lost.
abbrev pub lost : List Task → Bool
lost [] = false
lost (connected ∷ ts) = false
lost (disconnected ∷ ts) = true
lost (t ∷ ts) = lost ts

-- The loss is told once: not again before a connection was told.
abbrev pub told_once : List Task → Bool
told_once [] = true
told_once (disconnected ∷ ts) = not (lost ts) && told_once ts
told_once (t ∷ ts) = told_once ts

pub record IsWatched (l : Link) : Type 0 where
  pub alive : (not (is_some l.ws_conn) || (l.ping_timer || l.pong_timer)) ≡ true
  pub unlocked :
      (not (is_some l.ws_conn) || (not l.lock_reconnect && not l.network_disconnected_notified))
      ≡ true
  pub locked : l.reconnect_timer ≡ l.lock_reconnect
  pub retrying : (not l.network_disconnected_notified || l.reconnect_timer) ≡ true
  pub notified : lost l.posted ≡ l.network_disconnected_notified
  pub once : told_once l.posted ≡ true

reconnect-IsWatched : (l : Link) → IsWatched l → IsWatched (reconnect_websocket l)
unfolding reconnect_websocket
reconnect-IsWatched l w = ground arith

happen-IsWatched : (e : Event) (l : Link) → IsWatched l → IsWatched (happen e l)
unfolding happen on_open on_message read_message set_ping_timeout on_pong_timeout
    on_reconnect_timeout
happen-IsWatched fails l w = reconnect-IsWatched l w
happen-IsWatched closes l w = reconnect-IsWatched l w
happen-IsWatched (says none) l w = w
happen-IsWatched (says (some m)) l w = ground arith
happen-IsWatched (opens conn) l w = ground arith
happen-IsWatched ping_ends l w = ground arith
happen-IsWatched pong_ends l w = ground arith
happen-IsWatched reconnect_ends l w = ground arith

run-IsWatched : (es : List Event) (l : Link) → IsWatched l → IsWatched (run_events es l)
unfolding run_events
run-IsWatched [] l w = w
run-IsWatched (e ∷ es) l w = run-IsWatched es (happen e l) (happen-IsWatched e l w)

pub reached : (es : List Event) → IsWatched (run_events es new_link)
reached es = run-IsWatched es new_link (ground arith)

-- After any events of the WebSocket's thread: while there is a connection, the wait for the next ping
-- or the wait for its answer is pending; while the last notice posted is the loss of the connection,
-- the wait for the next attempt is pending; and between two losses that are posted a connection is.
pub always_watched :
    (es : List Event)
    → let l = run_events es new_link in
      ((not (is_some l.ws_conn) || (l.ping_timer || l.pong_timer)) ≡ true)
      × ((not (lost l.posted) || l.reconnect_timer) ≡ true)
      × (told_once l.posted ≡ true)
always_watched es = let w = reached es in (w.alive, ground (arith, w), w.once)

-- So many waits for the next attempt run out, one after the other.
abbrev pub attempts : ℕ → Link → Link
attempts zero l = l
attempts (suc n) l = attempts n (happen reconnect_ends l)

abbrev IsRetrying : ℕ → Link → Type 0
IsRetrying count l =
    (l.reconnect_timer ≡ true)
    × (l.network_disconnected_notified ≡ true)
    × (l.ws_conn ≡ none)
    × (l.starts ≡ count)

attempt-IsRetrying :
    (count : ℕ) (l : Link) → IsRetrying count l → IsRetrying (suc count) (happen reconnect_ends l)
unfolding happen on_reconnect_timeout
attempt-IsRetrying count l r = ground arith

attempts-IsRetrying :
    (n count : ℕ) (l : Link) → IsRetrying count l → IsRetrying (n + count) (attempts n l)
attempts-IsRetrying zero count l r = ground arith
attempts-IsRetrying (suc n) count l r = ground (
  arith,
  attempts-IsRetrying n (suc count) (happen reconnect_ends l) (attempt-IsRetrying count l r),
)

silent :
    (l : Link)
    → IsWatched l
    → is_some l.ws_conn ≡ true
    → IsRetrying (suc l.starts) (happen pong_ends (happen ping_ends l))
      × ((happen pong_ends (happen ping_ends l)).posted ≡ disconnected ∷ l.posted)
unfolding happen set_ping_timeout on_pong_timeout reconnect_websocket notify_disconnected
silent l w h = ground arith

-- When the server of a connection falls silent, the ping and the wait for its answer run out, whichever
-- of the two is pending: the loss is posted once, the connection is given up and the client started again, and
-- each wait for the next attempt that runs out starts it once more, without end.
pub silent_server_retried :
    (es : List Event) (n : ℕ)
    → let l = run_events es new_link in
      is_some l.ws_conn ≡ true
      → let t = happen pong_ends (happen ping_ends l) in
        (t.posted ≡ disconnected ∷ l.posted)
        × (t.ws_conn ≡ none)
        × ((attempts n t).starts ≡ n + suc l.starts)
        × ((attempts n t).reconnect_timer ≡ true)
silent_server_retried es n h =
    let l : Link = run_events es new_link in
    let (retries, told) = silent l (reached es) h in
    let r = attempts-IsRetrying n (suc l.starts) (happen pong_ends (happen ping_ends l)) retries in
    (told, retries.2, r.3, r.0)
