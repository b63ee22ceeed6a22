-- ===== src/Manager/Peers.antt =====
-- vtsrtc/src/rtc_connection_manager.cpp: the peer connections, and the tasks of the logic thread. WebRTC is
-- a parameter; a peer connection is the number of its creation. An `RtcConnection` is held by its own
-- callback `on_P2P_state_changed_`, so that its destructor, which would close the peer connection too,
-- does not run. The callbacks of the owner are taken to be set. The tracks, transceivers, data channels and
-- bitrates that a new connection is given are left out, and the statistics.
use text.Mathlib.Text.{◌==◌ as str_eq}
use rtc_framework.Base.{
  ℕ, suc, Bool, true, false, not, String, List, [], ◌∷◌, Option, none, some, if◌then◌else◌,
}
use rtc_framework.Base.Assoc.{lookup, erase}
use rtc_framework.Base.Sorted.{put}
use rtc_framework.VehicleModule.Queue.{RtcP2PState, p2p_failed, p2p_closed}
use rtc_framework.Runtime.Types.{
  RtcServerConnectionState, server_connected, server_logined, server_disconnected,
  server_reconnecting, RtcRoomOperation, room_new, room_delete,
}
use rtc_framework.Manager.Link.{
  Task, connected, logined, disconnected, room_info, interact, ack, candidate, Link, new_link,
  is_some,
}

-- Whether the attempt of a number creates a peer connection, and whether the texts can be parsed.
pub record Webrtc : Type 0 where
  pub creates : ℕ → Bool
  pub parses_offer : String → Bool
  pub parses_answer : String → Bool
  pub parses_candidate : String → Bool

-- What is sent through the server: an SDP that is an offer or an answer, or a candidate.
pub data Sent : Type 0 where
  configuration : Bool → String → (from : ℕ) → (to : ℕ) → Sent
  ice_candidate : String → (from : ℕ) → (to : ℕ) → Sent

pub data Notice : Type 0 where
  p2p : ℕ → RtcP2PState → Notice
  server : RtcServerConnectionState → Notice
  room : RtcRoomOperation → String → Notice
  channel_closed : ℕ → String → Notice

-- What is asked of the HTTP server.
pub data Request : Type 0 where
  query_room open_room close_room join_room : String → Request
  query_rooms leave_room : Request

pub record Manager : Type 0 where
  pub link : Link
  pub remotesessionid_rtcconn_map : List (ℕ × ℕ)
  -- The peer connections by the number of the attempt that created them, with the remote session of
  -- each; the number of the next attempt.
  pub created : List (ℕ × ℕ)
  pub next_peer : ℕ
  -- What was done to the peer connections, what was sent and told: newest first.
  pub closed : List ℕ
  pub answered : List ℕ
  pub candidates : List ℕ
  pub sent : List Sent
  pub requests : List Request
  pub notices : List Notice

abbrev pub new_manager : Manager
new_manager = record {
  link = new_link;
  remotesessionid_rtcconn_map = [];
  created = [];
  next_peer = 0;
  closed = [];
  answered = [];
  candidates = [];
  sent = [];
  requests = [];
  notices = [];
}

abbrev pub tell : Notice → Manager → Manager
tell n m = record m { notices = n ∷ m.notices }

-- The entries closed in the order of the map.
abbrev pub close_all : List (ℕ × ℕ) → List ℕ → List ℕ
close_all [] closed = closed
close_all ((remote, peer) ∷ others) closed = close_all others (peer ∷ closed)

unfoldable pub destroy_all_peer_connection : Manager → Manager
destroy_all_peer_connection m = record m {
  remotesessionid_rtcconn_map = [];
  closed = close_all m.remotesessionid_rtcconn_map m.closed;
}

abbrev pub and_close : Option ℕ → List ℕ → List ℕ
and_close none closed = closed
and_close (some peer) closed = peer ∷ closed

unfoldable pub destroy_peer_connection : ℕ → Manager → Manager
destroy_peer_connection remote m = record m {
  remotesessionid_rtcconn_map = erase remote m.remotesessionid_rtcconn_map;
  closed = and_close (lookup remote m.remotesessionid_rtcconn_map) m.closed;
}

abbrev pub with_peer : ℕ → Manager → Manager
with_peer remote m = record m {
  created = (m.next_peer, remote) ∷ m.created;
  next_peer = suc m.next_peer;
}

-- The offering side adds its data channels and transceivers and asks for an offer; the other takes the
-- offer and asks for an answer.
unfoldable pub interact_remote_peer : Webrtc → ℕ → Bool → String → Manager → Manager
interact_remote_peer w remote offer_peer remote_sdp m =
    let opened = with_peer remote m in
    let added = record opened {
      remotesessionid_rtcconn_map = put remote m.next_peer m.remotesessionid_rtcconn_map;
    } in
    if not (is_some m.link.current_sessionid)
    then tell (p2p remote p2p_closed) m
    else if not (w.creates m.next_peer)
    then tell (p2p remote p2p_failed) (record m { next_peer = suc m.next_peer })
    else if offer_peer
    then added
    else if not (w.parses_offer remote_sdp)
    then opened
    else record added { answered = m.next_peer ∷ m.answered }

-- The part for a connection that was looked up.
abbrev pub ack_found : Webrtc → ℕ → String → Option ℕ → Manager → Manager
ack_found w remote text none m = m
ack_found w remote text (some peer) m =
    if not (w.parses_answer text)
    then destroy_peer_connection remote m
    else record m { answered = peer ∷ m.answered }

unfoldable pub ack_remote_peer_sdp : Webrtc → ℕ → String → Manager → Manager
unfolding destroy_peer_connection
ack_remote_peer_sdp w remote text m =
    ack_found w remote text (lookup remote m.remotesessionid_rtcconn_map) m

abbrev pub candidate_found : Webrtc → String → Option ℕ → Manager → Manager
candidate_found w text none m = m
candidate_found w text (some peer) m =
    if not (w.parses_candidate text) then m else record m { candidates = peer ∷ m.candidates }

unfoldable pub take_candidate : Webrtc → ℕ → String → Manager → Manager
take_candidate w remote text m =
    candidate_found w text (lookup remote m.remotesessionid_rtcconn_map) m

abbrev pub is_failed : RtcP2PState → Bool
is_failed p2p_failed = true
is_failed _ = false

-- `on_P2P_state_changed_` and `on_dc_state_changed_` (for the state Closed) of the connection of a peer.
abbrev pub p2p_of : Option ℕ → RtcP2PState → Manager → Manager
p2p_of none state m = m
p2p_of (some remote) state m =
    let told = tell (p2p remote state) m in
    if is_failed state then destroy_peer_connection remote told else told

unfoldable pub p2p_state_changed : ℕ → RtcP2PState → Manager → Manager
unfolding destroy_peer_connection
p2p_state_changed peer state m = p2p_of (lookup peer m.created) state m

abbrev pub closed_of : Option ℕ → String → Manager → Manager
closed_of none label m = m
closed_of (some remote) label m =
    tell (channel_closed remote label) (destroy_peer_connection remote m)

unfoldable pub channel_is_closed : ℕ → String → Manager → Manager
unfolding destroy_peer_connection
channel_is_closed peer label m = closed_of (lookup peer m.created) label m

abbrev pub send_from : Option ℕ → Option ℕ → (ℕ → Sent) → Manager → Manager
send_from (some me) (some conn) sent m = record m { sent = sent me ∷ m.sent }
send_from none _ sent m = m
send_from (some me) none sent m = m

-- `on_sdp_create_succeed_` and `on_ice_candidate_received_`.
unfoldable pub sdp_created : ℕ → Bool → String → Manager → Manager
sdp_created remote offer_peer sdp m =
    send_from m.link.current_sessionid m.link.ws_conn (λ me. configuration offer_peer sdp me remote)
      m

unfoldable pub ice_found : ℕ → String → Manager → Manager
ice_found remote text m =
    send_from m.link.current_sessionid m.link.ws_conn (λ me. ice_candidate text me remote) m

unfoldable pub run_task : Webrtc → Task → Manager → Manager
unfolding interact_remote_peer ack_remote_peer_sdp take_candidate destroy_all_peer_connection
run_task w connected m = tell (server server_connected) m
run_task w logined m = tell (server server_logined) m
run_task w disconnected m =
    tell (server server_reconnecting)
      (tell (server server_disconnected) (destroy_all_peer_connection m))
run_task w (room_info type id) m =
    if str_eq type "new"
    then tell (room room_new id) m
    else if str_eq type "delete"
    then tell (room room_delete id) m
    else m
run_task w (interact from sdp) m = interact_remote_peer w from false sdp m
run_task w (ack from sdp) m = ack_remote_peer_sdp w from sdp m
run_task w (candidate from text) m = take_candidate w from text m
