-- ===== src/Runtime/Kept.antt =====
-- rtc_session.cpp: what `Init` leaves alone.
use rtc_framework.Base.{ℕ, ◌≡◌, refl, Bool, true, String, List, [], ◌∷◌, arith}
use rtc_framework.Runtime.Types.{
  entries, RtcServerConnectionState, SessionOptions, Features, RtcSession, Answers, init_agent,
  add_data_channel,
}
use rtc_framework.Runtime.Init.{
  Step, ◌>>◌, default_channel, add_channels, add_audio_source, register_video_source,
  add_default_video_source, add_video_sources, add_features, init, calling,
}

-- The members that have to do with the server and the peers.
abbrev pub core :
    RtcSession
    → Bool × RtcServerConnectionState × Bool × ℕ × List ℕ × ℕ × SessionOptions × Features × Bool × ℕ
core s = (
  s.room_joined,
  s.server_state,
  s.room_retry_requested,
  s.connected_peer_count,
  s.connected_peers,
  s.last_join_attempt,
  s.options,
  s.features,
  s.rtc_inited,
  entries s.calls,
)

abbrev Keeps : Step → Type 0
Keeps m = (s : RtcSession) → core (m s).1 ≡ core s

then-Keeps : (m k : Step) → Keeps m → Keeps k → Keeps (m >> k)
then-Keeps m k h g s = ground (arith, h s, g (m s).1)

default-Keeps : (answer : Answers) → Keeps (default_channel answer)
unfolding default_channel
default-Keeps answer s = ground arith

channels-Keeps : (answer : Answers) (labels : List String) → Keeps (add_channels answer labels)
unfolding add_channels
channels-Keeps answer [] s = refl
channels-Keeps answer (label ∷ labels) s =
    ground (arith, channels-Keeps answer labels (calling (add_data_channel label) s))

audio-Keeps : (answer : Answers) → Keeps (add_audio_source answer)
unfolding add_audio_source
audio-Keeps answer s = ground arith

register-Keeps : (answer : Answers) (id : String) → Keeps (register_video_source answer id)
unfolding register_video_source
register-Keeps answer id s = ground arith

default_video-Keeps : (answer : Answers) → Keeps (add_default_video_source answer)
unfolding add_default_video_source
default_video-Keeps answer s =
    ground (arith, register-Keeps answer s.features.external_video_source_id s)

video-Keeps : (answer : Answers) (ids : List String) → Keeps (add_video_sources answer ids)
unfolding add_video_sources
video-Keeps answer [] s = refl
video-Keeps answer (id ∷ ids) s = ground (
  arith,
  register-Keeps answer id s,
  video-Keeps answer ids (register_video_source answer id s).1,
)

pub features-Keeps : (answer : Answers) → Keeps (add_features answer)
unfolding add_features
features-Keeps answer s =
    let a : Step = default_channel answer in
    let b : Step = add_channels answer s.features.additional_data_channels in
    let c : Step = add_audio_source answer in
    let d : Step = add_default_video_source answer in
    let e : Step = add_video_sources answer s.features.additional_external_video_sources in
    let ab =
      then-Keeps a b (default-Keeps answer)
        (channels-Keeps answer s.features.additional_data_channels) in
    let abc = then-Keeps (a >> b) c ab (audio-Keeps answer) in
    let abcd = then-Keeps (a >> b >> c) d abc (default_video-Keeps answer) in
    then-Keeps (a >> b >> c >> d) e abcd
      (video-Keeps answer s.features.additional_external_video_sources) s

-- `Init` touches only whether the session is initialised.
pub init_keeps :
    (answer : Answers) (now : ℕ) (s : RtcSession)
    → core (record ((init answer now s).1) { rtc_inited = s.rtc_inited }) ≡ core s
unfolding init
init_keeps answer now s =
    let cleared = record s { external_video_source_ids = []; external_audio_source_ids = [] } in
    ground (
      arith,
      features-Keeps answer
          (record (calling init_agent cleared) { rtc_inited = true; last_status = now }),
    )

-- It never undoes an initialisation.
pub init_inits :
    (answer : Answers) (now : ℕ) (s : RtcSession)
    → s.rtc_inited ≡ true
    → (init answer now s).1.rtc_inited ≡ true
unfolding init
init_inits answer now s h =
    let cleared = record s { external_video_source_ids = []; external_audio_source_ids = [] } in
    ground (
      arith,
      features-Keeps answer
          (record (calling init_agent cleared) { rtc_inited = true; last_status = now }),
    )
