-- ===== src/Console/Fullscreen.antt =====
-- client/apps/rtc_console/video_fullscreen_state.h.
use rtc_framework.Base.{
  ◌≡◌, refl, Bool, true, false, not, ◌&&◌, ◌||◌, String, List, [], ◌∷◌, is_empty, arith, if_elim,
  if◌then◌else◌,
}
use rtc_framework.Base.Float32.{Float, zero_f, one_f, is_finite, lt_float, le_float}

pub record FullscreenVideoCrop : Type 0 where
  pub left : Float
  pub top : Float
  pub right : Float
  pub bottom : Float

abbrev pub full_crop : FullscreenVideoCrop
full_crop = record { left = zero_f; top = zero_f; right = one_f; bottom = one_f }

pub data Mode : Type 0 where
  windowed monitor stream : Mode

pub record VideoFullscreenState : Type 0 where
  pub mode : Mode
  pub return_to_monitor : Bool
  pub stream_key : String
  pub label : String
  pub crop : FullscreenVideoCrop

abbrev pub reset_view : VideoFullscreenState
reset_view = record {
  mode = Mode.windowed;
  return_to_monitor = false;
  stream_key = "";
  label = "";
  crop = full_crop;
}

abbrev pub open_monitor : VideoFullscreenState
open_monitor = record reset_view { mode = Mode.monitor }

abbrev pub returns : Mode → Bool → Bool
returns Mode.monitor b = true
returns Mode.stream b = b
returns Mode.windowed b = false

abbrev pub is_stream : Mode → Bool
is_stream Mode.stream = true
is_stream _ = false

unfoldable pub crop_refused : FullscreenVideoCrop → Bool
crop_refused c =
    not (is_finite c.left)
    || (not (is_finite c.top)
        || (not (is_finite c.right)
            || (not (is_finite c.bottom)
                || (lt_float c.left zero_f
                    || (lt_float c.top zero_f
                        || (lt_float one_f c.right
                            || (lt_float one_f c.bottom
                                || (le_float c.right c.left || le_float c.bottom c.top))))))))

unfoldable pub open_stream :
    String → FullscreenVideoCrop → String → VideoFullscreenState → VideoFullscreenState × Bool
open_stream key crop label s = if is_empty key || crop_refused crop then (s, false) else (
  record {
    mode = Mode.stream;
    return_to_monitor = returns s.mode s.return_to_monitor;
    stream_key = key;
    label = label;
    crop = crop;
  },
  true,
)

unfoldable pub back : VideoFullscreenState → VideoFullscreenState
back s = if is_stream s.mode && s.return_to_monitor then open_monitor else reset_view

pub data Call : Type 0 where
  monitors goes_back resets : Call
  streams : String → FullscreenVideoCrop → String → Call

unfoldable pub do_calls : List Call → VideoFullscreenState → VideoFullscreenState
unfolding open_stream back
do_calls [] s = s
do_calls (monitors ∷ cs) s = do_calls cs open_monitor
do_calls (goes_back ∷ cs) s = do_calls cs (back s)
do_calls (resets ∷ cs) s = do_calls cs reset_view
do_calls (streams key crop label ∷ cs) s = do_calls cs (open_stream key crop label s).0

-- A stream has a key, and whatever is shown has a crop within the picture that is not empty.
pub record IsShown (s : VideoFullscreenState) : Type 0 where
  pub keyed : is_stream s.mode ≡ not (is_empty s.stream_key)
  pub cropped : crop_refused s.crop ≡ false

full_crop_fits : crop_refused full_crop ≡ false
unfolding crop_refused is_finite lt_float le_float
full_crop_fits = refl

-- After any calls, a stream is shown exactly if there is a key, and the crop passes the check.
pub calls-IsShown :
    (cs : List Call) (s : VideoFullscreenState) → IsShown s → IsShown (do_calls cs s)
unfolding do_calls open_stream back
calls-IsShown [] s v = v
calls-IsShown (monitors ∷ cs) s v =
    calls-IsShown cs open_monitor (record { keyed = refl; cropped = full_crop_fits })
calls-IsShown (resets ∷ cs) s v =
    calls-IsShown cs reset_view (record { keyed = refl; cropped = full_crop_fits })
calls-IsShown (goes_back ∷ cs) s v = calls-IsShown cs (back s) (
    if_elim IsShown (is_stream s.mode && s.return_to_monitor) _ _
      (λ _. record { keyed = refl; cropped = full_crop_fits })
      (λ _. record { keyed = refl; cropped = full_crop_fits }))
calls-IsShown (streams key crop label ∷ cs) s v =
    calls-IsShown cs (open_stream key crop label s).0 (ground (arith, v))
