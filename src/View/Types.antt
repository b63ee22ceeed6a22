-- ===== src/View/Types.antt =====
-- client/protocols/vision/include/rtc_vision/view_control_protocol.h. An `enum class` over uint32_t may
-- hold a value that no enumerator names: `unlisted`.
use rtc_framework.Base.{ℕ, Bool, true, false, String, List, is_empty, ◌==◌, if◌then◌else◌}

abbrev pub video_view_control_magic : ℕ
video_view_control_magic = 0x31435656

abbrev pub protocol_major : ℕ
protocol_major = 1

abbrev pub protocol_minor : ℕ
protocol_minor = 1

pub data ViewMode : Type 0 where
  unknown binocular surround surround_front surround_rear surround_left surround_right : ViewMode
  unlisted : ℕ → ViewMode

pub data ViewControlDecodeStatus : Type 0 where
  decode_ok empty_payload invalid_size invalid_envelope : ViewControlDecodeStatus
  unsupported_protocol invalid_field : ViewControlDecodeStatus

pub record ViewControlEnvelope : Type 0 where
  pub seq : ℕ
  pub enable_view : ViewMode

abbrev pub default_envelope : ViewControlEnvelope
default_envelope = record { seq = 0; enable_view = ViewMode.unknown }

pub record ViewControlEncodeResult : Type 0 where
  pub payload : List ℕ
  pub error_message : String

pub record ViewControlDecodeResult : Type 0 where
  pub status : ViewControlDecodeStatus
  pub envelope : ViewControlEnvelope
  pub error_message : String

abbrev pub encoded_ok : ViewControlEncodeResult → Bool
encoded_ok r = is_empty r.error_message

-- `static_cast` to and from `uint32_t`.
abbrev pub mode_number : ViewMode → ℕ
mode_number ViewMode.unknown = 0
mode_number ViewMode.binocular = 1
mode_number ViewMode.surround = 2
mode_number ViewMode.surround_front = 3
mode_number ViewMode.surround_rear = 4
mode_number ViewMode.surround_left = 5
mode_number ViewMode.surround_right = 6
mode_number (ViewMode.unlisted n) = n

unfoldable pub mode_of : ℕ → ViewMode
mode_of n =
    if n == 0
    then ViewMode.unknown
    else if n == 1
    then ViewMode.binocular
    else if n == 2
    then ViewMode.surround
    else if n == 3
    then ViewMode.surround_front
    else if n == 4
    then ViewMode.surround_rear
    else if n == 5
    then ViewMode.surround_left
    else if n == 6
    then ViewMode.surround_right
    else ViewMode.unlisted n

abbrev pub is_known_view_mode : ViewMode → Bool
is_known_view_mode ViewMode.unknown = false
is_known_view_mode (ViewMode.unlisted n) = false
is_known_view_mode _ = true

abbrev pub view_mode_text : ViewMode → String
view_mode_text ViewMode.binocular = "binocular"
view_mode_text ViewMode.surround = "surround"
view_mode_text ViewMode.surround_front = "surround_front"
view_mode_text ViewMode.surround_rear = "surround_rear"
view_mode_text ViewMode.surround_left = "surround_left"
view_mode_text ViewMode.surround_right = "surround_right"
view_mode_text _ = "unknown"
