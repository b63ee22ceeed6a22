-- ===== src/Runtime/Types.antt =====
-- client/modules/runtime/include/rtc_runtime/rtc_session.h: `RtcSession`, with the types of
-- vtsrtc/src/c_rtc.h that it uses. What the C interface answers to a call is a parameter of the methods;
-- the calls are listed, newest first. Points of time are nanoseconds; an interval below zero is 0 here,
-- which no test tells apart. A buffer is the number of its bytes, 0 for a missing one.
use text.Mathlib.Text.{◌==◌ as str_eq}
use rtc_framework.Base.{ℕ, suc, Bool, true, false, ◌||◌, ◌==◌, String, List, [], ◌∷◌}
use rtc_framework.VehicleModule.Queue.{RtcP2PState}

pub data RtcServerConnectionState : Type 0 where
  server_connecting server_connected server_logined : RtcServerConnectionState
  server_disconnected server_reconnecting : RtcServerConnectionState

pub data RtcRoomOperation : Type 0 where
  room_new room_delete : RtcRoomOperation

pub data RtcErrorCode : Type 0 where
  ok internal_error room_not_existed room_already_existed agent_already_in_room : RtcErrorCode
  agent_not_logined agent_not_inited failed : RtcErrorCode

abbrev pub is_ok : RtcErrorCode → Bool
is_ok RtcErrorCode.ok = true
is_ok _ = false

pub data RoomAction : Type 0 where
  join open_it : RoomAction

pub record SessionOptions : Type 0 where
  pub room_id : String
  pub join_retry_ms : ℕ
  pub status_interval_sec : ℕ

pub record Features : Type 0 where
  pub enable_data_channel : Bool
  pub enable_external_audio_source : Bool
  pub external_audio_source_id : String
  pub enable_external_video_source : Bool
  pub external_video_source_id : String
  pub room_action : RoomAction
  -- The labels and the ids of the additional channels and sources.
  pub additional_data_channels : List String
  pub additional_external_video_sources : List String

-- The calls of the C interface.
pub data Call : Type 0 where
  init_agent leave_room destory_agent : Call
  add_data_channel add_external_audio_source add_external_video_source : String → Call
  open_room join_room : String → Call
  send_frame send_audio_frame : String → Call

-- How many of the calls were attempts to enter the room.
abbrev pub entries : List Call → ℕ
entries [] = 0
entries (open_room id ∷ calls) = suc (entries calls)
entries (join_room id ∷ calls) = suc (entries calls)
entries (c ∷ calls) = entries calls

-- What a call answers, from the calls before it.
abbrev pub Answers : Type 0
Answers = List Call → Call → RtcErrorCode

-- The callbacks of the owner, which are taken to be set, as they were called, newest first, and the lines of status.
pub data Report : Type 0 where
  p2p_state : ℕ → RtcP2PState → Report
  datachannel_state : ℕ → String → Report
  server_connection_state : RtcServerConnectionState → Report
  recv_message : ℕ → String → ℕ → Report
  recv_audio_frame recv_frame : ℕ → String → Report
  status : Report

pub record RtcSession : Type 0 where
  pub options : SessionOptions
  pub features : Features
  pub rtc_inited : Bool
  pub room_joined : Bool
  pub server_state : RtcServerConnectionState
  pub captured_frames : ℕ
  pub sent_frames : ℕ
  pub sent_audio_frames : ℕ
  pub received_messages : ℕ
  pub remote_audio_frames : ℕ
  pub remote_video_frames : ℕ
  pub room_retry_requested : Bool
  pub connected_peer_count : ℕ
  pub external_video_source_ids : List String
  pub external_audio_source_ids : List String
  pub last_join_attempt : ℕ
  pub last_status : ℕ
  pub connected_peers : List ℕ
  pub calls : List Call
  pub reports : List Report

abbrev pub new_session : SessionOptions → Features → RtcSession
new_session options features = record {
  options = options;
  features = features;
  rtc_inited = false;
  room_joined = false;
  server_state = server_disconnected;
  captured_frames = 0;
  sent_frames = 0;
  sent_audio_frames = 0;
  received_messages = 0;
  remote_audio_frames = 0;
  remote_video_frames = 0;
  room_retry_requested = false;
  connected_peer_count = 0;
  external_video_source_ids = [];
  external_audio_source_ids = [];
  last_join_attempt = 0;
  last_status = 0;
  connected_peers = [];
  calls = [];
  reports = [];
}

-- `find` on a set of texts, and on a set of sessions.
abbrev pub has_text : String → List String → Bool
has_text id [] = false
has_text id (x ∷ xs) = str_eq x id || has_text id xs

abbrev pub has : ℕ → List ℕ → Bool
has x [] = false
has x (y ∷ ys) = (y == x) || has x ys
