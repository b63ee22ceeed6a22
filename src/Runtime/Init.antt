-- ===== src/Runtime/Init.antt =====
-- client/modules/runtime/src/rtc_session.cpp: `Init`. Each step tells whether to go on.
use rtc_framework.Base.{ℕ, Bool, true, false, String, is_empty, List, [], ◌∷◌, if◌then◌else◌}
use rtc_framework.Runtime.Types.{
  Call, init_agent, add_data_channel, add_external_audio_source, add_external_video_source, Answers,
  is_ok, has_text, RtcSession,
}

abbrev pub Step : Type 0
Step = RtcSession → Bool × RtcSession

infixl 5 ◌>>◌
abbrev pub ◌>>◌ : Step → Step → Step
◌>>◌ m k s = let (on, t) = m s in let rest = k t in if on then rest else (false, t)

abbrev pub calling : Call → RtcSession → RtcSession
calling c s = record s { calls = c ∷ s.calls }

unfoldable pub default_channel : Answers → Step
default_channel answer s =
    if s.features.enable_data_channel
    then (true, calling (add_data_channel "datachannel") s)
    else (true, s)

unfoldable pub add_channels : Answers → List String → Step
add_channels answer [] s = (true, s)
add_channels answer (label ∷ labels) s =
    let rest = add_channels answer labels (calling (add_data_channel label) s) in
    if is_ok (answer s.calls (add_data_channel label))
    then rest
    else (false, calling (add_data_channel label) s)

unfoldable pub add_audio_source : Answers → Step
add_audio_source answer s =
    let id = s.features.external_audio_source_id in
    let t = calling (add_external_audio_source id) s in
    if s.features.enable_external_audio_source
    then (if is_empty id
        then (false, s)
        else if is_ok (answer s.calls (add_external_audio_source id))
        then (
          true,
          record t {
            external_audio_source_ids =
                if has_text id t.external_audio_source_ids
                then t.external_audio_source_ids
                else id ∷ t.external_audio_source_ids;
          },
        )
        else (false, t))
    else (true, s)

-- The call with its answer, and the id inserted into the set.
unfoldable pub register_video_source : Answers → String → Step
register_video_source answer id s =
    let t = calling (add_external_video_source id) s in
    if is_ok (answer s.calls (add_external_video_source id))
    then (
      true,
      record t {
        external_video_source_ids =
            if has_text id t.external_video_source_ids
            then t.external_video_source_ids
            else id ∷ t.external_video_source_ids;
      },
    )
    else (false, t)

unfoldable pub add_default_video_source : Answers → Step
unfolding register_video_source
add_default_video_source answer s =
    let id = s.features.external_video_source_id in
    if s.features.enable_external_video_source
    then (if is_empty id then (false, s) else register_video_source answer id s)
    else (true, s)

unfoldable pub add_video_sources : Answers → List String → Step
unfolding register_video_source
add_video_sources answer [] s = (true, s)
add_video_sources answer (id ∷ ids) s =
    let (on, t) = register_video_source answer id s in
    let rest = add_video_sources answer ids t in
    if is_empty id
    then (false, s)
    else if has_text id s.external_video_source_ids
    then (false, s)
    else if on
    then rest
    else (false, t)

-- What follows the agent.
unfoldable pub add_features : Answers → Step
unfolding default_channel add_channels add_audio_source add_default_video_source add_video_sources
add_features answer s =
    (default_channel answer
        >> add_channels answer s.features.additional_data_channels
        >> add_audio_source answer
        >> add_default_video_source answer
        >> add_video_sources answer s.features.additional_external_video_sources)
      s

unfoldable pub init : Answers → ℕ → Step
unfolding add_features
init answer now s =
    let cleared = record s { external_video_source_ids = []; external_audio_source_ids = [] } in
    let called = calling init_agent cleared in
    if is_ok (answer cleared.calls init_agent)
    then add_features answer (record called { rtc_inited = true; last_status = now })
    else (false, called)
