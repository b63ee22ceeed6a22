-- ===== src/Runtime/Session.antt =====
-- client/modules/runtime/src/rtc_session.cpp: the methods but `Init`, and the handlers that the C interface
-- calls. Each is one step: the atomics and the mutex are not interleaved.
use rtc_framework.Base.{
  ℕ, ◌+◌, ◌*◌, ◌/◌, ◌%◌, Bool, true, false, not, ◌&&◌, ◌||◌, String, is_empty, List, [], ◌∷◌,
  length, ltb, leb, ◌==◌, u32, u64, if◌then◌else◌,
}
use text.Mathlib.Text.{◌==◌ as str_eq}
use rtc_framework.VehicleModule.Queue.{RtcP2PState}
use rtc_framework.Runtime.Types.{
  RtcServerConnectionState, server_logined, RtcRoomOperation, room_new, room_delete, RtcErrorCode,
  is_ok, RoomAction, join, open_it, Call, leave_room, destory_agent, open_room, join_room,
  send_frame, send_audio_frame, Answers, Report, RtcSession, has_text, has,
}
use rtc_framework.Runtime.Init.{calling, init}

abbrev pub is_p2p_connected_state : RtcP2PState → Bool
is_p2p_connected_state RtcP2PState.p2p_connected = true
is_p2p_connected_state _ = false

abbrev pub is_p2p_disconnected_state : RtcP2PState → Bool
is_p2p_disconnected_state RtcP2PState.p2p_disconnected = true
is_p2p_disconnected_state RtcP2PState.p2p_failed = true
is_p2p_disconnected_state RtcP2PState.p2p_closed = true
is_p2p_disconnected_state _ = false

abbrev pub is_logined : RtcServerConnectionState → Bool
is_logined server_logined = true
is_logined _ = false

abbrev pub reporting : Report → RtcSession → RtcSession
reporting r s = record s { reports = r ∷ s.reports }

-- What leaving the room forgets: stated once, and written out in three places of the code.
abbrev pub left_room : RtcSession → RtcSession
left_room s = record s {
  room_joined = false;
  room_retry_requested = false;
  connected_peer_count = 0;
  connected_peers = [];
}

unfoldable pub shutdown : RtcSession → RtcSession
shutdown s = if not s.rtc_inited then s else record (left_room s) {
  rtc_inited = false;
  external_video_source_ids = [];
  external_audio_source_ids = [];
  calls = destory_agent ∷ leave_room ∷ s.calls;
}

abbrev pub entered : RtcErrorCode → Bool
entered RtcErrorCode.ok = true
entered RtcErrorCode.agent_already_in_room = true
entered _ = false

abbrev pub room_call : RoomAction → String → Call
room_call open_it id = open_room id
room_call join id = join_room id

-- A signed difference `now - last < d` is `now < last + d` here.
unfoldable pub maybe_enter_room : Answers → ℕ → RtcSession → RtcSession
maybe_enter_room answer now s =
    let action = room_call s.features.room_action s.options.room_id in
    let asked = record s { room_retry_requested = false } in
    let attempted = calling action (record asked { last_join_attempt = now }) in
    if not (is_logined s.server_state) || s.room_joined
    then s
    else if not s.room_retry_requested
        && (not (s.last_join_attempt == 0)
            && ltb now (s.last_join_attempt + s.options.join_retry_ms * 1000000))
    then asked
    else if entered (answer s.calls action)
    then record attempted { room_joined = true; room_retry_requested = false }
    else attempted

unfoldable pub tick : Answers → ℕ → RtcSession → RtcSession
unfolding maybe_enter_room
tick answer now s =
    let t = maybe_enter_room answer now s in
    if not s.rtc_inited
    then s
    else if ltb 0 t.options.status_interval_sec
        && leb (t.last_status + t.options.status_interval_sec * 1000000000) now
    then reporting Report.status (record t { last_status = now })
    else t

unfoldable pub note_captured_frame : RtcSession → RtcSession
note_captured_frame s = record s { captured_frames = u64 (s.captured_frames + 1) }

abbrev pub is_room_joined : RtcSession → Bool
is_room_joined s = s.room_joined

unfoldable pub is_ready_to_send : RtcSession → Bool
is_ready_to_send s = s.room_joined && ltb 0 s.connected_peer_count

unfoldable pub send_i420_frame : Answers → String → ℕ → RtcSession → RtcSession × Bool
send_i420_frame answer id size s =
    let called = calling (send_frame id) s in
    if is_empty id || size == 0
    then (s, false)
    else if not (has_text id s.external_video_source_ids)
    then (s, false)
    else if not (is_ok (answer s.calls (send_frame id)))
    then (called, false)
    else (record called { sent_frames = u64 (s.sent_frames + 1) }, true)

pub record Pcm : Type 0 where
  pub audio_data_size : ℕ
  pub bits_per_sample : ℕ
  pub sample_rate : ℕ
  pub number_of_channels : ℕ
  pub number_of_frames : ℕ

abbrev pub max_size : ℕ
max_size = 18446744073709551615

-- The test of the sizes, with the multiplications of `size_t`.
unfoldable pub pcm_is_valid : Pcm → Bool
pcm_is_valid p =
    let bytes_per_sample = p.bits_per_sample / 8 in
    if p.audio_data_size == 0
      || ((p.bits_per_sample == 0)
          || ((p.sample_rate == 0)
              || ((p.number_of_channels == 0)
                  || ((p.number_of_frames == 0) || not (p.bits_per_sample % 8 == 0)))))
    then false
    else not (
        ltb (max_size / bytes_per_sample) p.number_of_channels
        || (ltb (max_size / u64 (bytes_per_sample * p.number_of_channels)) p.number_of_frames
            || not (
                p.audio_data_size
                == u64 (u64 (bytes_per_sample * p.number_of_channels) * p.number_of_frames))))

unfoldable pub send_audio : Answers → Pcm → RtcSession → RtcSession × Bool
unfolding pcm_is_valid
send_audio answer p s =
    let id = s.features.external_audio_source_id in
    let called = calling (send_audio_frame id) s in
    if is_empty id || not (has_text id s.external_audio_source_ids)
    then (s, false)
    else if not (pcm_is_valid p)
    then (s, false)
    else if not (is_ok (answer s.calls (send_audio_frame id)))
    then (called, false)
    else (record called { sent_audio_frames = u64 (s.sent_audio_frames + 1) }, true)

abbrev pub is_join : RoomAction → Bool
is_join join = true
is_join open_it = false

-- A missing room id is the empty text.
unfoldable pub on_room : RtcRoomOperation → String → RtcSession → RtcSession
on_room room_delete id s = if str_eq id s.options.room_id then left_room s else s
on_room room_new id s =
    if str_eq id s.options.room_id && (is_join s.features.room_action && not s.room_joined)
    then record s { room_retry_requested = true }
    else s

-- `insert` and `erase` of the set of sessions.
abbrev pub with_peer : ℕ → List ℕ → List ℕ
with_peer x xs = if has x xs then xs else x ∷ xs

abbrev pub without_peer : ℕ → List ℕ → List ℕ
without_peer x [] = []
without_peer x (y ∷ ys) = if y == x then without_peer x ys else y ∷ without_peer x ys

unfoldable pub on_p2p_state : ℕ → RtcP2PState → RtcSession → RtcSession
on_p2p_state sessionid state s =
    let peers =
      if is_p2p_connected_state state
      then with_peer sessionid s.connected_peers
      else without_peer sessionid s.connected_peers in
    reporting (Report.p2p_state sessionid state) (
      if is_p2p_connected_state state || is_p2p_disconnected_state state
      then record s { connected_peers = peers; connected_peer_count = u32 (length peers) }
      else s)

unfoldable pub on_server_connection_state : RtcServerConnectionState → RtcSession → RtcSession
on_server_connection_state state s =
    let told = record s { server_state = state } in
    reporting (Report.server_connection_state state)
      (if is_logined state then told else left_room told)

unfoldable pub on_datachannel_state : ℕ → String → RtcSession → RtcSession
on_datachannel_state sessionid label s = reporting (Report.datachannel_state sessionid label) s

unfoldable pub on_recv_message : ℕ → String → ℕ → RtcSession → RtcSession
on_recv_message sessionid label size s =
    reporting (Report.recv_message sessionid label size)
      (record s { received_messages = u64 (s.received_messages + 1) })

unfoldable pub on_recv_audio_frame : ℕ → String → RtcSession → RtcSession
on_recv_audio_frame sessionid source s =
    reporting (Report.recv_audio_frame sessionid source)
      (record s { remote_audio_frames = u64 (s.remote_audio_frames + 1) })

unfoldable pub on_recv_frame : ℕ → String → RtcSession → RtcSession
on_recv_frame sessionid source s =
    reporting (Report.recv_frame sessionid source)
      (record s { remote_video_frames = u64 (s.remote_video_frames + 1) })

-- All that happens to a session. A call that answers is taken with its answers.
pub data Event : Type 0 where
  inits ticks : Answers → ℕ → Event
  shuts_down captures : Event
  sends_frame : Answers → String → ℕ → Event
  sends_audio : Answers → Pcm → Event
  room : RtcRoomOperation → String → Event
  p2p : ℕ → RtcP2PState → Event
  server : RtcServerConnectionState → Event
  channel : ℕ → String → Event
  message : ℕ → String → ℕ → Event
  audio frame : ℕ → String → Event

unfoldable pub happen : Event → RtcSession → RtcSession
unfolding init tick shutdown note_captured_frame send_i420_frame send_audio on_room on_p2p_state
    on_server_connection_state on_datachannel_state on_recv_message on_recv_audio_frame
    on_recv_frame
happen (inits answer now) s = (init answer now s).1
happen (ticks answer now) s = tick answer now s
happen shuts_down s = shutdown s
happen captures s = note_captured_frame s
happen (sends_frame answer id size) s = (send_i420_frame answer id size s).0
happen (sends_audio answer p) s = (send_audio answer p s).0
happen (room op id) s = on_room op id s
happen (p2p x state) s = on_p2p_state x state s
happen (server state) s = on_server_connection_state state s
happen (channel x label) s = on_datachannel_state x label s
happen (message x label size) s = on_recv_message x label size s
happen (audio x source) s = on_recv_audio_frame x source s
happen (frame x source) s = on_recv_frame x source s

unfoldable pub run_events : List Event → RtcSession → RtcSession
run_events [] s = s
run_events (e ∷ es) s = run_events es (happen e s)
