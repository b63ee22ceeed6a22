-- ===== src/Runtime/Sending.antt =====
-- rtc_session.cpp: which audio frames are sent.
use native.Mathlib.Nat.{le-div_iff_mul-le, mul_comm}
use rtc_framework.Base.{
  ℕ, zero, suc, ◌+◌, ◌*◌, ◌/◌, ◌%◌, ◌≤◌, ◌<◌, ◌≡◌, Bool, true, false, not, ◌&&◌, ◌||◌, ltb, leb,
  ◌==◌, u64, is_empty, arith, if◌then◌else◌, Bool-cases, inl, inr,
}
use rtc_framework.Runtime.Types.{RtcSession, Answers, is_ok, has_text, send_audio_frame}
use rtc_framework.Runtime.Session.{Pcm, max_size, pcm_is_valid, send_audio}

-- The size is the product of the whole bytes of a sample, the channels and the frames, in numbers
-- without a bound.
abbrev pub is_exact : Pcm → Bool
is_exact p =
    ltb 0 p.sample_rate
    && ((p.bits_per_sample % 8 == 0)
        && (ltb 0 p.audio_data_size
            && (p.audio_data_size
                == p.bits_per_sample / 8 * p.number_of_channels * p.number_of_frames)))

product_fits : (b c : ℕ) → 0 < b → ltb (max_size / b) c ≡ not (leb (b * c) max_size)
product_fits b c h =
    ground (arith, le-div_iff_mul-le {k = b} {x = c} {y = max_size} h, mul_comm b c)

u64_small : (n : ℕ) → leb n max_size ≡ true → u64 n ≡ n
u64_small n h = ground arith

grows : (n f : ℕ) → 0 < f → n ≤ n * f
grows n zero h = elim h [ ]
grows n (suc f) h = grind arith

pos_product : (b c : ℕ) → 0 < b → 0 < c → 0 < b * c
pos_product zero c h k = elim h [ ]
pos_product (suc b) zero h k = elim k [ ]
pos_product (suc b) (suc c) h k = grind arith

abbrev sizes_agree : ℕ → ℕ → ℕ → ℕ → Bool
sizes_agree b c f size = not (
    ltb (max_size / b) c || (ltb (max_size / u64 (b * c)) f || not (size == u64 (u64 (b * c) * f))))

sizes_agree_lem :
    (b c f size : ℕ)
    → 0 < b
    → 0 < c
    → 0 < f
    → size ≤ max_size
    → sizes_agree b c f size ≡ (size == b * c * f)
sizes_agree_lem b c f size hb hc hf hs = elim (Bool-cases (leb (b * c) max_size)) [
  | inl small ↦
      let e = u64_small (b * c) small in
      let fits = product_fits (b * c) f (pos_product b c hb hc) in
      elim (Bool-cases (leb (b * c * f) max_size)) [
        | inl whole ↦ ground (arith, product_fits b c hb, fits, e, u64_small (b * c * f) whole)
        | inr large ↦ ground (arith, product_fits b c hb, fits, e)
      ]
  | inr large ↦ ground (arith, product_fits b c hb, grows (b * c) f hf)
]

no_product : (b c f : ℕ) → (ltb 0 b && (ltb 0 c && ltb 0 f)) ≡ false → b * c * f ≡ 0
no_product zero c f h = grind arith
no_product (suc b) zero f h = grind arith
no_product (suc b) (suc c) zero h = grind arith
no_product (suc b) (suc c) (suc f) h = ground arith

-- Sizes of `size_t`: the test of the code, with its divisions and wrapping products, is the exact one.
pcm_is_exact : (p : Pcm) → p.audio_data_size ≤ max_size → pcm_is_valid p ≡ is_exact p
unfolding pcm_is_valid
pcm_is_exact p h =
    elim (Bool-cases
      (ltb 0 (p.bits_per_sample / 8) && (ltb 0 p.number_of_channels && ltb 0 p.number_of_frames))) [
        | inl some_bytes ↦ ground (
          arith,
          sizes_agree_lem (p.bits_per_sample / 8) p.number_of_channels p.number_of_frames
              p.audio_data_size (ground arith) (ground arith) (ground arith) h,
        )
        | inr no_bytes ↦ ground (
          arith,
          no_product (p.bits_per_sample / 8) p.number_of_channels p.number_of_frames no_bytes,
        )
      ]

-- For a buffer whose size fits `size_t`: `SendAudioFrame` answers true exactly when the audio source is
-- registered, no stated number nor the size is 0, a sample is of whole bytes, the buffer holds exactly
-- the stated samples (no product wraps around), and the C interface takes the frame; and it counts the
-- frame exactly then.
pub send_audio_exact :
    (answer : Answers) (p : Pcm) (s : RtcSession)
    → p.audio_data_size ≤ max_size
    → let id = s.features.external_audio_source_id in
      let (t, sent) = send_audio answer p s in
      (sent ≡ (
        not (is_empty id)
        && (has_text id s.external_audio_source_ids
            && (is_exact p && is_ok (answer s.calls (send_audio_frame id))))))
      × (t.sent_audio_frames
          ≡ (if sent then u64 (s.sent_audio_frames + 1) else s.sent_audio_frames))
unfolding send_audio
send_audio_exact answer p s h = (ground (arith, pcm_is_exact p h), ground (arith, pcm_is_exact p h))
