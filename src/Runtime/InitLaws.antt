-- ===== src/Runtime/InitLaws.antt =====
-- rtc_session.cpp: what a successful `Init` has registered, and which frames are sent after it.
use text.Mathlib.TextEquality.{eq_iff}
use rtc_framework.Base.{
  ℕ, ◌≡◌, refl, ap, Bool, true, false, not, ◌&&◌, ◌||◌, String, is_empty, List, [], ◌∷◌, ◌==◌,
  arith, if◌then◌else◌,
}
use rtc_framework.Runtime.Types.{
  RtcSession, Features, Answers, Call, is_ok, has_text, init_agent, send_frame,
}
use rtc_framework.Runtime.Init.{
  Step, ◌>>◌, calling, default_channel, add_channels, add_audio_source, register_video_source,
  add_default_video_source, add_video_sources, add_features, init,
}
use rtc_framework.Runtime.Session.{send_i420_frame}

-- The ids that the features name, in the order in which they are registered.
abbrev pub configured : Features → List String
configured f =
    if f.enable_external_video_source
    then f.external_video_source_id ∷ f.additional_external_video_sources
    else f.additional_external_video_sources

-- Registered one after the other, newest first.
abbrev pub onto : List String → List String → List String
onto [] seen = seen
onto (id ∷ ids) seen = onto ids (id ∷ seen)

-- No id is empty, and none comes twice.
abbrev pub is_clean : List String → List String → Bool
is_clean [] seen = true
is_clean (id ∷ ids) seen = not (is_empty id) && (not (has_text id seen) && is_clean ids (id ∷ seen))

video_registers :
    (answer : Answers) (ids : List String) (s : RtcSession)
    → (add_video_sources answer ids s).0 ≡ true
    → ((add_video_sources answer ids s).1.external_video_source_ids
        ≡ onto ids s.external_video_source_ids)
      × (is_clean ids s.external_video_source_ids ≡ true)
unfolding add_video_sources register_video_source
video_registers answer [] s h = (refl, refl)
video_registers answer (id ∷ ids) s h =
    ground (arith, video_registers answer ids (register_video_source answer id s).1)

abbrev video : RtcSession → Features × List String
video s = (s.features, s.external_video_source_ids)

abbrev VideoKept : Step → Type 0
VideoKept m = (s : RtcSession) → video (m s).1 ≡ video s

then-VideoKept : (m k : Step) → VideoKept m → VideoKept k → VideoKept (m >> k)
then-VideoKept m k h g s = ground (arith, h s, g (m s).1)

channels-VideoKept :
    (answer : Answers) (labels : List String) → VideoKept (add_channels answer labels)
unfolding add_channels
channels-VideoKept answer [] s = refl
channels-VideoKept answer (label ∷ labels) s =
    ground (arith, channels-VideoKept answer labels (calling (Call.add_data_channel label) s))

-- The steps before the video sources.
abbrev first_steps : Answers → RtcSession → Step
first_steps answer s =
    default_channel answer
    >> add_channels answer s.features.additional_data_channels
    >> add_audio_source answer

first-VideoKept : (answer : Answers) (s : RtcSession) → VideoKept (first_steps answer s)
unfolding default_channel add_audio_source
first-VideoKept answer s =
    let a : Step = default_channel answer in
    let b : Step = add_channels answer s.features.additional_data_channels in
    let c : Step = add_audio_source answer in
    then-VideoKept (a >> b) c
      (then-VideoKept a b (λ t. ground arith)
        (channels-VideoKept answer s.features.additional_data_channels))
      (λ t. ground arith)

default_video_registers :
    (answer : Answers) (s : RtcSession)
    → s.external_video_source_ids ≡ []
    → (add_default_video_source answer s).0 ≡ true
    → let t = (add_default_video_source answer s).1 in
      let f = s.features in
      (t.external_video_source_ids
        ≡ (if f.enable_external_video_source then f.external_video_source_id ∷ [] else []))
      × ((not f.enable_external_video_source || not (is_empty f.external_video_source_id)) ≡ true)
unfolding add_default_video_source register_video_source
default_video_registers answer s e h = ground arith

-- The last two steps, after those that leave the video sources alone.
last_registers :
    (answer : Answers) (m : Step) (s : RtcSession)
    → VideoKept m
    → s.external_video_source_ids ≡ []
    → let all =
        m
        >> add_default_video_source answer
        >> add_video_sources answer s.features.additional_external_video_sources in
      (all s).0 ≡ true
      → ((all s).1.external_video_source_ids ≡ onto (configured s.features) [])
        × (is_clean (configured s.features) [] ≡ true)
last_registers answer m s k e h = ground (
  arith,
  k s,
  default_video_registers answer (m s).1,
  video_registers answer s.features.additional_external_video_sources
      (add_default_video_source answer (m s).1).1,
)

-- After a successful `Init` the set of video sources holds the ids that the features name, none of them
-- empty or named twice.
init_registers :
    (answer : Answers) (now : ℕ) (s : RtcSession)
    → (init answer now s).0 ≡ true
    → ((init answer now s).1.external_video_source_ids ≡ onto (configured s.features) [])
      × (is_clean (configured s.features) [] ≡ true)
unfolding init add_features
init_registers answer now s h =
    let cleared = record s { external_video_source_ids = []; external_audio_source_ids = [] } in
    let begun = record (calling init_agent cleared) { rtc_inited = true; last_status = now } in
    ground (
      arith,
      last_registers answer (first_steps answer begun) begun (first-VideoKept answer begun) refl,
    )

has-onto :
    (id : String) (ids seen : List String)
    → has_text id (onto ids seen) ≡ (has_text id ids || has_text id seen)
has-onto id [] seen = refl
has-onto id (x ∷ xs) seen = ground (arith, has-onto id xs (x ∷ seen))

clean_nonempty :
    (id : String) (ids seen : List String)
    → is_clean ids seen ≡ true
    → (is_empty id && has_text id ids) ≡ false
clean_nonempty id [] seen h = ground arith
clean_nonempty id (x ∷ xs) seen h = ground (arith, eq_iff x id, clean_nonempty id xs (x ∷ seen))

-- After a successful `Init`, a frame is sent exactly when its source is one that the features name, the
-- buffer is not empty, and the C interface takes it; the names are then distinct and not empty.
pub frames_after_init :
    (answer later : Answers) (now : ℕ) (id : String) (size : ℕ) (s : RtcSession)
    → (init answer now s).0 ≡ true
    → let t = (init answer now s).1 in
      ((send_i420_frame later id size t).1 ≡ (
        has_text id (configured s.features)
        && (not (size == 0) && is_ok (later t.calls (send_frame id)))))
      × (is_clean (configured s.features) [] ≡ true)
unfolding send_i420_frame
frames_after_init answer later now id size s h =
    let (ids, clean) = init_registers answer now s h in
    (
      ground (
        arith,
        ap (has_text id) ids,
        has-onto id (configured s.features) [],
        clean_nonempty id (configured s.features) [] clean,
      ),
      clean,
    )
