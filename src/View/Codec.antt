-- ===== src/View/Codec.antt =====
-- client/protocols/vision/src/view_control_protocol.cpp. A null pointer is `none`.
use rtc_framework.Base.{
  ℕ, zero, suc, ◌+◌, ◌*◌, ◌/◌, ◌%◌, not, List, [], ◌∷◌, ◌++◌, Option, none, some, String, length,
  take, drop, ◌==◌, if◌then◌else◌,
}
use rtc_framework.View.Types.{
  video_view_control_magic, protocol_major, protocol_minor, ViewMode, ViewControlDecodeStatus,
  default_envelope, ViewControlEncodeResult, ViewControlDecodeResult, mode_of, mode_number,
  is_known_view_mode,
}

abbrev pub payload_size : ℕ
payload_size = 20

-- `WriteU16`, `WriteU32`, `WriteU64` for 2, 4 and 8 bytes, the lowest first, and the reading of them.
unfoldable pub write_bytes : ℕ → ℕ → List ℕ
write_bytes zero value = []
write_bytes (suc count) value = value % 256 ∷ write_bytes count (value / 256)

abbrev pub read_bytes : List ℕ → ℕ
read_bytes [] = 0
read_bytes (b ∷ bytes) = b + 256 * read_bytes bytes

-- The bytes, with the number of the mode.
unfoldable pub layout : ℕ → ℕ → List ℕ
unfolding write_bytes
layout seq mode =
    write_bytes 4 video_view_control_magic
    ++ (write_bytes 2 protocol_major
        ++ (write_bytes 2 protocol_minor ++ (write_bytes 8 seq ++ write_bytes 4 mode)))

unfoldable pub encode_view_control : ℕ → ViewMode → ViewControlEncodeResult
unfolding layout
encode_view_control seq mode =
    if not (is_known_view_mode mode)
    then record { payload = []; error_message = "enable_view is unknown" }
    else record { payload = layout seq (mode_number mode); error_message = "" }

abbrev pub decode_error : ViewControlDecodeStatus → String → ViewControlDecodeResult
decode_error status text = record {
  status = status;
  envelope = default_envelope;
  error_message = text;
}

unfoldable pub decode_bytes : List ℕ → ViewControlDecodeResult
unfolding mode_of
decode_bytes bytes =
    let mode = mode_of (read_bytes (take 4 (drop 16 bytes))) in
    if length bytes == 0
    then decode_error ViewControlDecodeStatus.empty_payload "empty payload"
    else if not (length bytes == payload_size)
    then decode_error ViewControlDecodeStatus.invalid_size "invalid payload size"
    else if not (read_bytes (take 4 bytes) == video_view_control_magic)
    then decode_error ViewControlDecodeStatus.invalid_envelope "missing or invalid magic"
    else if not (read_bytes (take 2 (drop 4 bytes)) == protocol_major)
    then decode_error ViewControlDecodeStatus.unsupported_protocol "unsupported protocol_major"
    else if not (is_known_view_mode mode)
    then decode_error ViewControlDecodeStatus.invalid_field "enable_view is unknown"
    else record {
      status = ViewControlDecodeStatus.decode_ok;
      envelope = record { seq = read_bytes (take 8 (drop 8 bytes)); enable_view = mode };
      error_message = "";
    }

unfoldable pub decode_view_control : Option (List ℕ) → ViewControlDecodeResult
unfolding decode_bytes
decode_view_control none = decode_error ViewControlDecodeStatus.empty_payload "empty payload"
decode_view_control (some bytes) = decode_bytes bytes
