-- ===== src/Runtime/Tests.antt =====
-- The theorems of the session on a console that joins a room, and on a camera that sends.
use rtc_framework.Base.{
  ℕ, ◌≡◌, refl, true, false, not, ◌&&◌, List, [], ◌∷◌, ◌==◌, is_empty, arith, if◌then◌else◌,
}
use rtc_framework.VehicleModule.Queue.{RtcP2PState}
use rtc_framework.Runtime.Types.{
  RtcServerConnectionState, RtcErrorCode, RoomAction, SessionOptions, Features, RtcSession, Answers,
  new_session, has, has_text, is_ok, entries, send_audio_frame, send_frame,
}
use rtc_framework.Runtime.Init.{init}
use rtc_framework.Runtime.Session.{
  Event, happen, run_events, is_ready_to_send, tick, is_logined, Pcm, send_audio, send_i420_frame,
}
use rtc_framework.Runtime.Peers.{is_up, peers_are_up, ready_has_peer}
use rtc_framework.Runtime.Attempts.{attempts_spaced}
use rtc_framework.Runtime.Sending.{is_exact, send_audio_exact}
use rtc_framework.Runtime.InitLaws.{configured, is_clean, frames_after_init}

abbrev options : SessionOptions
options = record { room_id = "lab"; join_retry_ms = 3000; status_interval_sec = 5 }

abbrev features : Features
features = record {
  enable_data_channel = true;
  enable_external_audio_source = true;
  external_audio_source_id = "mic";
  enable_external_video_source = true;
  external_video_source_id = "left";
  room_action = RoomAction.join;
  additional_data_channels = "vehicle_control" ∷ [];
  additional_external_video_sources = "right" ∷ [];
}

abbrev all_ok : Answers
all_ok calls c = RtcErrorCode.ok

abbrev no_room : Answers
no_room calls c = RtcErrorCode.room_not_existed

abbrev joining : List Event
joining =
    Event.inits all_ok 1000
    ∷ Event.server RtcServerConnectionState.server_logined
    ∷ Event.ticks all_ok 2000
    ∷ Event.p2p 7 RtcP2PState.p2p_connected
    ∷ Event.p2p 8 RtcP2PState.p2p_failed
    ∷ []

abbrev new : RtcSession
new = new_session options features

peers_are_up_example :
    has 7 (run_events joining new).connected_peers ≡ is_up 7 joining new (has 7 [])
peers_are_up_example = peers_are_up 7 joining new

joined_is_ready : is_ready_to_send (run_events joining new) ≡ true
unfolding run_events happen is_ready_to_send
joined_is_ready = refl

ready_has_peer_example :
    let s = run_events joining new in
    (is_logined s.server_state ≡ true)
    × (s.rtc_inited ≡ true)
    × ((x : ℕ) × (is_up x joining new false ≡ true))
ready_has_peer_example = ready_has_peer options features joining joined_is_ready

abbrev logged_in : RtcSession
logged_in = record new { rtc_inited = true; server_state = RtcServerConnectionState.server_logined }

abbrev quiet : List Event
quiet =
    Event.ticks no_room 3000002000
    ∷ Event.p2p 7 RtcP2PState.p2p_connected
    ∷ Event.ticks all_ok 3000002999
    ∷ []

attempts_spaced_example : entries (run_events quiet (tick no_room 3000 logged_in)).calls ≡ 1
unfolding tick
attempts_spaced_example =
    attempts_spaced no_room 3000 logged_in quiet (omega arith) (ground arith) refl

-- 10 ms of stereo at 48 kHz.
abbrev stereo : Pcm
stereo = record {
  audio_data_size = 1920;
  bits_per_sample = 16;
  sample_rate = 48000;
  number_of_channels = 2;
  number_of_frames = 480;
}

abbrev with_mic : RtcSession
with_mic = record new { external_audio_source_ids = "mic" ∷ [] }

send_audio_exact_example :
    let (t, sent) = send_audio all_ok stereo with_mic in
    (sent ≡ (
      not (is_empty "mic")
      && (has_text "mic" ("mic" ∷ [])
          && (is_exact stereo && is_ok (all_ok [] (send_audio_frame "mic"))))))
    × (t.sent_audio_frames ≡ (if sent then 1 else 0))
send_audio_exact_example = send_audio_exact all_ok stereo with_mic (omega arith)

stereo_is_sent : (send_audio all_ok stereo with_mic).1 ≡ true
unfolding send_audio
stereo_is_sent = refl

init_succeeds : (init all_ok 1000 new).0 ≡ true
unfolding init
init_succeeds = refl

frames_after_init_example :
    let t = (init all_ok 1000 new).1 in
    ((send_i420_frame all_ok "right" 460800 t).1 ≡ (
      has_text "right" (configured features)
      && (not (◌==◌ 460800 0) && is_ok (all_ok t.calls (send_frame "right")))))
    × (is_clean (configured features) [] ≡ true)
frames_after_init_example = frames_after_init all_ok all_ok 1000 "right" 460800 new init_succeeds
