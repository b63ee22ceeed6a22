-- ===== src/Runtime/Peers.antt =====
-- rtc_session.cpp: the peers of a session, and when it may send.
use text.Mathlib.Text.{◌==◌ as str_eq}
use rtc_framework.Base.{
  ℕ, ◌≡◌, refl, ap, sym, ◌∙◌, Bool, true, false, not, ◌&&◌, ◌||◌, List, [], ◌∷◌, length, ltb, u32,
  ◌==◌, arith, if◌then◌else◌,
}
use rtc_framework.Runtime.Types.{
  room_new, room_delete, SessionOptions, Features, RtcSession, new_session, Answers, has,
}
use rtc_framework.Runtime.Init.{init}
use rtc_framework.Runtime.Session.{
  is_p2p_connected_state, is_p2p_disconnected_state, is_logined, shutdown, maybe_enter_room, tick,
  is_ready_to_send, on_room, with_peer, without_peer, on_p2p_state, on_server_connection_state,
  Event, inits, ticks, shuts_down, captures, sends_frame, sends_audio, room, p2p, server, channel,
  message, audio, frame, happen, run_events, send_i420_frame, send_audio, note_captured_frame,
  on_datachannel_state, on_recv_message, on_recv_audio_frame, on_recv_frame,
}
use rtc_framework.Runtime.Kept.{init_keeps, init_inits}

has-with_peer : (x y : ℕ) (xs : List ℕ) → has x (with_peer y xs) ≡ ((y == x) || has x xs)
has-with_peer x y xs = ground arith

has-without_peer : (x y : ℕ) (xs : List ℕ) → has x (without_peer y xs) ≡ (not (y == x) && has x xs)
has-without_peer x y [] = ground arith
has-without_peer x y (z ∷ zs) = ground (arith, has-without_peer x y zs)

-- What the tick and the frames do not touch.
tick-peers :
    (answer : Answers) (now : ℕ) (s : RtcSession)
    → (tick answer now s).connected_peers ≡ s.connected_peers
unfolding tick maybe_enter_room
tick-peers answer now s = ground arith

-- Whether an event makes a session a connected peer (`some true`), ends that, or leaves it.
abbrev pub up_after : ℕ → Event → RtcSession → Bool → Bool
up_after x (p2p y state) s was =
    if y == x
    then is_p2p_connected_state state || (not (is_p2p_disconnected_state state) && was)
    else was
up_after x (server state) s was = is_logined state && was
up_after x (room room_delete id) s was = not (str_eq id s.options.room_id) && was
up_after x shuts_down s was = not s.rtc_inited && was
up_after x _ s was = was

-- The last word of a run on a session: its own state, unless all peers were given up since.
abbrev pub is_up : ℕ → List Event → RtcSession → Bool → Bool
is_up x [] s was = was
is_up x (e ∷ es) s was = is_up x es (happen e s) (up_after x e s was)

happen-peers :
    (x : ℕ) (e : Event) (s : RtcSession)
    → has x (happen e s).connected_peers ≡ up_after x e s (has x s.connected_peers)
unfolding happen shutdown note_captured_frame send_i420_frame send_audio on_room on_p2p_state
    on_server_connection_state on_datachannel_state on_recv_message on_recv_audio_frame
    on_recv_frame
happen-peers x (inits answer now) s = ground (arith, init_keeps answer now s)
happen-peers x (ticks answer now) s = rw (tick-peers answer now s) refl
happen-peers x shuts_down s = ground arith
happen-peers x captures s = refl
happen-peers x (sends_frame answer id size) s = ground arith
happen-peers x (sends_audio answer p) s = ground arith
happen-peers x (room room_new id) s = ground arith
happen-peers x (room room_delete id) s = ground arith
happen-peers x (p2p y state) s =
    ground (arith, has-with_peer x y s.connected_peers, has-without_peer x y s.connected_peers)
happen-peers x (server state) s = ground arith
happen-peers x (channel y label) s = refl
happen-peers x (message y label size) s = refl
happen-peers x (audio y source) s = refl
happen-peers x (frame y source) s = refl

-- After any events a session is among the connected peers exactly if it was told to be connected and
-- not to be disconnected, failed or closed since, nor was the server's login lost, the session's own
-- room deleted, or an initialised session shut down since.
pub peers_are_up :
    (x : ℕ) (es : List Event) (s : RtcSession)
    → has x (run_events es s).connected_peers ≡ is_up x es s (has x s.connected_peers)
unfolding run_events
peers_are_up x [] s = refl
peers_are_up x (e ∷ es) s =
    rw (peers_are_up x es (happen e s)) (ap (is_up x es (happen e s)) (happen-peers x e s))

-- The count is the number of peers, and a session is in a room only while it is initialised and
-- logged in.
pub record IsValid (s : RtcSession) : Type 0 where
  pub counted : s.connected_peer_count ≡ u32 (length s.connected_peers)
  pub in_room : (not s.room_joined || (is_logined s.server_state && s.rtc_inited)) ≡ true

tick-IsValid :
    (answer : Answers) (now : ℕ) (s : RtcSession) → IsValid s → IsValid (tick answer now s)
unfolding tick maybe_enter_room
tick-IsValid answer now s v = record { counted = ground arith; in_room = ground arith }

init-IsValid :
    (answer : Answers) (now : ℕ) (s : RtcSession) → IsValid s → IsValid (init answer now s).1
init-IsValid answer now s v = ground (arith, init_keeps answer now s, init_inits answer now s)

happen-IsValid : (e : Event) (s : RtcSession) → IsValid s → IsValid (happen e s)
unfolding happen shutdown note_captured_frame send_i420_frame send_audio on_room on_p2p_state
    on_server_connection_state on_datachannel_state on_recv_message on_recv_audio_frame
    on_recv_frame
happen-IsValid (inits answer now) s v = init-IsValid answer now s v
happen-IsValid (ticks answer now) s v = tick-IsValid answer now s v
happen-IsValid (room room_delete id) s v = ground arith
happen-IsValid e s v = ground arith

run-IsValid : (es : List Event) (s : RtcSession) → IsValid s → IsValid (run_events es s)
unfolding run_events
run-IsValid [] s v = v
run-IsValid (e ∷ es) s v = run-IsValid es (happen e s) (happen-IsValid e s v)

one_there : (xs : List ℕ) → ltb 0 (u32 (length xs)) ≡ true → (x : ℕ) × (has x xs ≡ true)
one_there [] h = absurd (ground arith)
one_there (x ∷ xs) h = (x, ground arith)

-- After any events on a new session: when it is ready to send, it is initialised, the server's last
-- word is the login, and there is a peer whose last word is that it is connected.
pub ready_has_peer :
    (options : SessionOptions) (features : Features) (es : List Event)
    → let s = run_events es (new_session options features) in
      is_ready_to_send s ≡ true
      → (is_logined s.server_state ≡ true)
        × (s.rtc_inited ≡ true)
        × ((x : ℕ) × (is_up x es (new_session options features) false ≡ true))
unfolding is_ready_to_send
ready_has_peer options features es h =
    let new : RtcSession = new_session options features in
    let s : RtcSession = run_events es new in
    let v : IsValid s = run-IsValid es new (record { counted = refl; in_room = refl }) in
    let (x, there) = one_there s.connected_peers (ground arith) in
    (ground arith, ground arith, (x, sym (peers_are_up x es new) ∙ there))
