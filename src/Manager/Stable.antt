-- ===== src/Manager/Stable.antt =====
-- rtc_connection_manager.cpp: what the four ways to change the table of the peer connections keep, all
-- events keep.
use rtc_framework.Base.{
  ℕ, ◌≡◌, refl, Bool, true, false, not, String, List, [], ◌∷◌, Option, none, some, ◌==◌, if_elim,
}
use text.Mathlib.Text.{◌==◌ as str_eq}
use rtc_framework.Base.Assoc.{lookup}
use rtc_framework.VehicleModule.Queue.{RtcP2PState}
use rtc_framework.Signaling.Rooms.{RoomType, Room}
use rtc_framework.Manager.Link.{
  Task, connected, logined, disconnected, room_info, interact, ack, candidate,
}
use rtc_framework.Manager.Peers.{
  ack_found, candidate_found, p2p_of, closed_of, Webrtc, Request, Manager,
  destroy_all_peer_connection, destroy_peer_connection, interact_remote_peer, ack_remote_peer_sdp,
  take_candidate, p2p_state_changed, channel_is_closed, sdp_created, ice_found, run_task, is_failed,
  send_from, Sent, tell, p2p,
}
use rtc_framework.Manager.Requests.{
  Reply, throws, no_json, replied, copy_sessionid, with_login, asking, ask_open_room,
  ask_close_room, ask_join_room, ask_leave_room, interact_all, enter_room, take_task, Event,
  on_link, next_task, p2p_changes, channel_closes, sdp, ice, opens, closes, joins, leaves, happen,
  run_events,
}

-- What the table has to do with.
abbrev pub peers : Manager → List (ℕ × ℕ) × List (ℕ × ℕ) × ℕ × List ℕ
peers m = (m.remotesessionid_rtcconn_map, m.created, m.next_peer, m.closed)

pub record Stable (w : Webrtc) (P : Manager → Type 0) : Type 0 where
  pub same : (m n : Manager) → peers n ≡ peers m → P m → P n
  pub one : (remote : ℕ) (m : Manager) → P m → P (destroy_peer_connection remote m)
  pub every : (m : Manager) → P m → P (destroy_all_peer_connection m)
  pub more :
      (remote : ℕ) (offer_peer : Bool) (text : String) (m : Manager)
      → P m
      → P (interact_remote_peer w remote offer_peer text m)

module _ (w : Webrtc) (P : Manager → Type 0) (st : Stable w P) where
  ack-Kept :
      (remote : ℕ) (text : String) (o : Option ℕ) (m : Manager)
      → P m
      → P (ack_found w remote text o m)
  ack-Kept remote text none m k = k
  ack-Kept remote text (some peer) m k =
      if_elim P (not (w.parses_answer text)) _ _ (λ _. st.one remote m k) (λ _. st.same m _ refl k)

  candidate-Kept :
      (text : String) (o : Option ℕ) (m : Manager) → P m → P (candidate_found w text o m)
  candidate-Kept text none m k = k
  candidate-Kept text (some peer) m k =
      if_elim P (not (w.parses_candidate text)) _ _ (λ _. k) (λ _. st.same m _ refl k)

  p2p-Kept : (o : Option ℕ) (state : RtcP2PState) (m : Manager) → P m → P (p2p_of o state m)
  p2p-Kept none state m k = k
  p2p-Kept (some remote) state m k =
      if_elim P (is_failed state) _ _
        (λ _. st.one remote (tell (p2p remote state) m) (st.same m _ refl k))
        (λ _. st.same m _ refl k)

  closed-Kept : (o : Option ℕ) (label : String) (m : Manager) → P m → P (closed_of o label m)
  closed-Kept none label m k = k
  closed-Kept (some remote) label m k =
      st.same (destroy_peer_connection remote m) _ refl (st.one remote m k)

  send-Kept : (a b : Option ℕ) (f : ℕ → Sent) (m : Manager) → P m → P (send_from a b f m)
  send-Kept none b f m k = k
  send-Kept (some me) none f m k = k
  send-Kept (some me) (some conn) f m k = st.same m _ refl k

  task-Kept : (t : Task) (m : Manager) → P m → P (run_task w t m)
  unfolding run_task ack_remote_peer_sdp take_candidate
  task-Kept connected m k = st.same m _ refl k
  task-Kept logined m k = st.same m _ refl k
  task-Kept disconnected m k = st.same (destroy_all_peer_connection m) _ refl (st.every m k)
  task-Kept (room_info type id) m k =
      if_elim P (str_eq type "new") _ _ (λ _. st.same m _ refl k)
        (λ _. if_elim P (str_eq type "delete") _ _ (λ _. st.same m _ refl k) (λ _. k))
  task-Kept (interact from text) m k = st.more from false text m k
  task-Kept (ack from text) m k = ack-Kept from text (lookup from m.remotesessionid_rtcconn_map) m k
  task-Kept (candidate from text) m k =
      candidate-Kept text (lookup from m.remotesessionid_rtcconn_map) m k

  take-Kept : (ts : List Task) (m : Manager) → P m → P (take_task w ts m)
  unfolding take_task
  take-Kept [] m k = k
  take-Kept (t ∷ ts) m k = task-Kept t _ (st.same m _ refl k)

  login-Kept :
      {A : Type 0} (o : Option ℕ) (request : Request) (reply : Reply A)
      (f : ℕ → ℕ → A → Manager → Manager) (m : Manager)
      → ((me status : ℕ) (a : A) (n : Manager) → P n → P (f me status a n))
      → P m
      → P (with_login o request reply f m).0
  unfolding with_login
  login-Kept none request reply f m h k = k
  login-Kept (some me) request throws f m h k = st.same m _ refl k
  login-Kept (some me) request no_json f m h k = st.same m _ refl k
  login-Kept (some me) request (replied status a) f m h k =
      h me status a (asking request m) (st.same m _ refl k)

  all-Kept : (me : ℕ) (sessions : List ℕ) (m : Manager) → P m → P (interact_all w me sessions m)
  unfolding interact_all
  all-Kept me [] m k = k
  all-Kept me (x ∷ xs) m k =
      all-Kept me xs _ (if_elim P (not (me == x)) _ _ (λ _. st.more x true "" m k) (λ _. k))

  enter-Kept :
      (me : ℕ) (type : RoomType) (room : Room) (m : Manager) → P m → P (enter_room w me type room m)
  unfolding enter_room
  enter-Kept me RoomType.video_broadcasting room m k =
      st.more room.broadcaster_sessionid true "" m k
  enter-Kept me RoomType.video_conference room m k = all-Kept me room.sessionids m k
  enter-Kept me (RoomType.unlisted n) room m k = k

  happen-Kept : (e : Event) (m : Manager) → P m → P (happen w e m)
  unfolding happen ask_open_room ask_close_room ask_join_room ask_leave_room p2p_state_changed
      channel_is_closed sdp_created ice_found
  happen-Kept (on_link e) m k = st.same m _ refl k
  happen-Kept next_task m k = take-Kept m.link.tasks m k
  happen-Kept (p2p_changes peer state) m k = p2p-Kept (lookup peer m.created) state m k
  happen-Kept (channel_closes peer label) m k = closed-Kept (lookup peer m.created) label m k
  happen-Kept (sdp remote offer_peer text) m k =
      send-Kept m.link.current_sessionid m.link.ws_conn _ m k
  happen-Kept (ice remote text) m k = send-Kept m.link.current_sessionid m.link.ws_conn _ m k
  happen-Kept (opens roomid reply) m k =
      login-Kept (copy_sessionid m) _ reply _ m (λ me status a n h. h) k
  happen-Kept (closes roomid reply) m k =
      login-Kept (copy_sessionid m) _ reply _ m (λ me status a n h. h) k
  happen-Kept (joins roomid reply) m k =
      login-Kept (copy_sessionid m) _ reply _ m
        (λ me status room n h.
          if_elim P (status == 0) _ _ (λ _. enter-Kept me room.room_type room n h) (λ _. h))
        k
  happen-Kept (leaves reply) m k =
      login-Kept (copy_sessionid m) _ reply _ m
        (λ me status a n h. if_elim P (status == 0) _ _ (λ _. st.every n h) (λ _. h)) k

  pub run-Kept : (es : List Event) (m : Manager) → P m → P (run_events w es m)
  unfolding run_events
  run-Kept [] m k = k
  run-Kept (e ∷ es) m k = run-Kept es (happen w e m) (happen-Kept e m k)
