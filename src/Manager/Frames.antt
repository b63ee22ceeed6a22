-- ===== src/Manager/Frames.antt =====
-- vtsrtc/src/rtc_videosource.hpp: `RtcVideoSource::FitFrameSize`. A size or a limit below zero is 0 here, and
-- like 0 there: the size is returned as it is.
use rtc_framework.Base.{ℕ, zero, suc, ◌-◌, ◌*◌, ◌/◌, ◌%◌, ◌&&◌, ◌||◌, leb, ltb, ◌==◌, if◌then◌else◌}

-- The `while` loop; the remainder falls in each round, so one more round than its value is enough.
unfoldable pub divisor_loop : ℕ → ℕ → ℕ → ℕ
divisor_loop zero divisor remainder = divisor
divisor_loop (suc fuel) divisor remainder =
    let rest = divisor_loop fuel remainder (divisor % remainder) in
    if remainder == 0 then divisor else rest

unfoldable pub divisor_of : ℕ → ℕ → ℕ
unfolding divisor_loop
divisor_of width height = divisor_loop (suc height) width height

-- What follows the early return.
unfoldable pub scaled : ℕ → ℕ → ℕ → ℕ → ℕ → ℕ × ℕ
scaled divisor width height max_width max_height =
    let ratio_width = width / divisor in
    let ratio_height = height / divisor in
    let width_multiple = max_width / ratio_width in
    let height_multiple = max_height / ratio_height in
    let smaller = if ltb width_multiple height_multiple then width_multiple else height_multiple in
    let multiple = smaller - smaller % 2 in
    if multiple == 0 then (width, height) else (ratio_width * multiple, ratio_height * multiple)

unfoldable pub fit_frame_size : ℕ → ℕ → ℕ → ℕ → ℕ × ℕ
unfolding divisor_of scaled
fit_frame_size width height max_width max_height =
    if width == 0
      || ((height == 0)
          || ((max_width == 0)
              || ((max_height == 0) || (leb width max_width && leb height max_height))))
    then (width, height)
    else scaled (divisor_of width height) width height max_width max_height
