-- ===== src/Manager/Requests.antt =====
-- vtsrtc/src/rtc_connection_manager.cpp: the requests to the HTTP server, and all events of the manager. An
-- answer is what the HTTP client and the JSON library make of it; a field that is missing or of another
-- type throws there, and is not modelled. The signalling server's room is that of its own module.
use rtc_framework.Base.{
  ℕ, Bool, true, not, String, List, [], ◌∷◌, Option, none, some, ◌==◌, if◌then◌else◌,
}
use rtc_framework.VehicleModule.Queue.{RtcP2PState}
use rtc_framework.Runtime.Types.{RtcErrorCode}
use rtc_framework.Signaling.Rooms.{RoomType, Room, no_session}
use rtc_framework.Manager.Link
use rtc_framework.Manager.Link.{Link, Task}
use rtc_framework.Manager.Peers.{
  Webrtc, Request, open_room, close_room, join_room, leave_room, Manager,
  destroy_all_peer_connection, interact_remote_peer, p2p_state_changed, channel_is_closed,
  sdp_created, ice_found, run_task,
}

-- A `system_error`, a text that is no JSON, or a status with the data.
pub data Reply (A : Type 0) : Type 0 where
  throws no_json : Reply A
  replied : ℕ → A → Reply A

unfoldable pub convert_http_code : ℕ → RtcErrorCode
convert_http_code status =
    if status == 0
    then RtcErrorCode.ok
    else if status == 3001
    then RtcErrorCode.room_not_existed
    else if status == 3002
    then RtcErrorCode.room_already_existed
    else if status == 3003
    then RtcErrorCode.agent_already_in_room
    else RtcErrorCode.internal_error

-- `copy_sessionid`, where -1 stands for none, also as the number of a session.
abbrev pub copy_sessionid : Manager → Option ℕ
copy_sessionid m = elim m.link.current_sessionid [
  | none ↦ none
  | some id ↦ if id == no_session then none else some id
]

abbrev pub asking : Request → Manager → Manager
asking r m = record m { requests = r ∷ m.requests }

-- A request that needs a login, and what is done with its answer.
unfoldable pub with_login :
    {A : Type 0}
    → Option ℕ
    → Request
    → Reply A
    → (ℕ → ℕ → A → Manager → Manager)
    → Manager
    → Manager × RtcErrorCode
unfolding convert_http_code
with_login none request reply on_reply m = (m, RtcErrorCode.agent_not_logined)
with_login (some me) request throws on_reply m = (asking request m, RtcErrorCode.internal_error)
with_login (some me) request no_json on_reply m = (asking request m, RtcErrorCode.internal_error)
with_login (some me) request (replied status a) on_reply m =
    (on_reply me status a (asking request m), convert_http_code status)

-- The room is written where the status is OK; the queries need no login.
unfoldable pub ask_room :
    {A : Type 0} → Request → Reply A → A → Manager → Manager × (RtcErrorCode × A)
ask_room request throws old m = (asking request m, (RtcErrorCode.internal_error, old))
ask_room request no_json old m = (asking request m, (RtcErrorCode.internal_error, old))
ask_room request (replied status a) old m =
    (asking request m, (convert_http_code status, if status == 0 then a else old))

unfoldable pub ask_open_room : String → Reply (Unit {0}) → Manager → Manager × RtcErrorCode
unfolding with_login
ask_open_room roomid reply m =
    with_login (copy_sessionid m) (open_room roomid) reply (λ me status a t. t) m

unfoldable pub ask_close_room : String → Reply (Unit {0}) → Manager → Manager × RtcErrorCode
unfolding with_login
ask_close_room roomid reply m =
    with_login (copy_sessionid m) (close_room roomid) reply (λ me status a t. t) m

-- The loop over the sessions of a conference.
unfoldable pub interact_all : Webrtc → ℕ → List ℕ → Manager → Manager
unfolding interact_remote_peer
interact_all w me [] m = m
interact_all w me (sessionid ∷ others) m =
    interact_all w me others
      (if not (me == sessionid) then interact_remote_peer w sessionid true "" m else m)

unfoldable pub enter_room : Webrtc → ℕ → RoomType → Room → Manager → Manager
unfolding interact_all
enter_room w me RoomType.video_broadcasting room m =
    interact_remote_peer w room.broadcaster_sessionid true "" m
enter_room w me RoomType.video_conference room m = interact_all w me room.sessionids m
enter_room w me (RoomType.unlisted n) room m = m

unfoldable pub ask_join_room : Webrtc → String → Reply Room → Manager → Manager × RtcErrorCode
unfolding with_login enter_room
ask_join_room w roomid reply m =
    with_login (copy_sessionid m) (join_room roomid) reply
      (λ me status room t. if status == 0 then enter_room w me room.room_type room t else t) m

unfoldable pub ask_leave_room : Reply (Unit {0}) → Manager → Manager × RtcErrorCode
unfolding with_login destroy_all_peer_connection
ask_leave_room reply m =
    with_login (copy_sessionid m) leave_room reply
      (λ me status a t. if status == 0 then destroy_all_peer_connection t else t) m

-- What happens to the manager: on the WebSocket's thread, a task of the logic thread, a callback of
-- WebRTC, or a call of the owner.
pub data Event : Type 0 where
  on_link : Link.Event → Event
  next_task : Event
  p2p_changes : ℕ → RtcP2PState → Event
  channel_closes : ℕ → String → Event
  sdp : ℕ → Bool → String → Event
  ice : ℕ → String → Event
  opens closes : String → Reply (Unit {0}) → Event
  joins : String → Reply Room → Event
  leaves : Reply (Unit {0}) → Event

unfoldable pub take_task : Webrtc → List Task → Manager → Manager
unfolding run_task
take_task w [] m = m
take_task w (t ∷ ts) m = run_task w t (record m { link = record m.link { tasks = ts } })

unfoldable pub happen : Webrtc → Event → Manager → Manager
unfolding take_task ask_open_room ask_close_room ask_join_room ask_leave_room p2p_state_changed
    channel_is_closed sdp_created ice_found Link.happen
happen w (on_link e) m = record m { link = Link.happen e m.link }
happen w next_task m = take_task w m.link.tasks m
happen w (p2p_changes peer state) m = p2p_state_changed peer state m
happen w (channel_closes peer label) m = channel_is_closed peer label m
happen w (sdp remote offer_peer text) m = sdp_created remote offer_peer text m
happen w (ice remote text) m = ice_found remote text m
happen w (opens roomid reply) m = (ask_open_room roomid reply m).0
happen w (closes roomid reply) m = (ask_close_room roomid reply m).0
happen w (joins roomid reply) m = (ask_join_room w roomid reply m).0
happen w (leaves reply) m = (ask_leave_room reply m).0

unfoldable pub run_events : Webrtc → List Event → Manager → Manager
run_events w [] m = m
run_events w (e ∷ es) m = run_events w es (happen w e m)
