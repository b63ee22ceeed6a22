-- ===== src/View/CodecLaws.antt =====
-- view_control_protocol.cpp: what is encoded is decoded, and what is decoded was laid out so.
use rtc_framework.Base.{
  ℕ, ◌<◌, ◌≡◌, refl, ap, ◌∙◌, true, [], some, Bool-cases, inl, inr, arith, if◌then◌else◌,
}
use rtc_framework.View.Types.{
  ViewMode, ViewControlDecodeStatus, ViewControlDecodeResult, mode_of, mode_number,
  is_known_view_mode, encoded_ok,
}
use rtc_framework.View.Codec.{
  write_bytes, read_bytes, layout, encode_view_control, decode_error, decode_bytes,
  decode_view_control,
}

-- What decoding the bytes of a mode gives: the mode and the number if it is known, and else there are
-- no bytes.
abbrev pub expected : ℕ → ViewMode → ViewControlDecodeResult
expected seq mode =
    if is_known_view_mode mode
    then record {
      status = ViewControlDecodeStatus.decode_ok;
      envelope = record { seq = seq; enable_view = mode };
      error_message = "";
    }
    else decode_error ViewControlDecodeStatus.empty_payload "empty payload"

mode_of-number :
    (mode : ViewMode) → is_known_view_mode mode ≡ true → mode_of (mode_number mode) ≡ mode
unfolding mode_of
mode_of-number mode h = ground arith

abbrev accepted : ℕ → ViewMode → ViewControlDecodeResult
accepted seq mode = record {
  status = ViewControlDecodeStatus.decode_ok;
  envelope = record { seq = seq; enable_view = mode };
  error_message = "";
}

decode_layout :
    (seq n : ℕ)
    → seq < 18446744073709551616
    → n < 4294967296
    → is_known_view_mode (mode_of n) ≡ true
    → decode_bytes (layout seq n) ≡ accepted seq (mode_of n)
unfolding decode_bytes layout write_bytes
decode_layout seq n h k known =
    let number : read_bytes (write_bytes 4 n) ≡ n = omega (arith, k) in
    let sequence : read_bytes (write_bytes 8 seq) ≡ seq = omega (arith, h) in
    rw (number, known, sequence) refl

mode_number_small :
    (mode : ViewMode) → is_known_view_mode mode ≡ true → mode_number mode < 4294967296
mode_number_small mode h = ground arith

empty_refused : decode_bytes [] ≡ decode_error ViewControlDecodeStatus.empty_payload "empty payload"
unfolding decode_bytes
empty_refused = refl

-- A mode is encoded without an error exactly if it is known. Then its bytes are decoded to it and its
-- 64-bit sequence number; and else there are no bytes, and decoding them is an error.
pub decode-encode :
    (seq : ℕ) (mode : ViewMode)
    → seq < 18446744073709551616
    → let e = encode_view_control seq mode in
      (encoded_ok e ≡ is_known_view_mode mode)
      × (decode_view_control (some e.payload) ≡ expected seq mode)
unfolding encode_view_control decode_view_control
decode-encode seq mode h = elim (Bool-cases (is_known_view_mode mode)) [
  | inl known ↦
      let same = mode_of-number mode known in
      let read =
        decode_layout seq (mode_number mode) h (mode_number_small mode known) (rw same known) in
      rw known (refl, read ∙ ap (accepted seq) same)
  | inr unlisted ↦ rw unlisted (refl, empty_refused)
]
