-- ===== src/Vision/Arrival.antt =====
-- vision_detection_codec.cpp: what is encoded arrives.
use rtc_framework.Base.{
  ℕ, ◌≡◌, ◌≢◌, refl, Bool, true, false, not, String, is_empty, List, [], ◌∷◌, some, ◌⊎◌, inl, inr,
  arith,
}
use rtc_framework.VehicleProtocol.Pb.{PbResult-cases}
use rtc_framework.Vision.Types.{
  EncodeResult, DecodeResult, CoordType, Detection, FrameDetections, Text, PbEnvelope, Nanopb,
}
use rtc_framework.Vision.Codec.{
  Filled, filled, refused, copy_string, fill_detection, fill_detections, fill_frame_detections,
}
use rtc_framework.Vision.Envelopes.{
  encoded_ok, not_filled, of_decoded, decode_envelope, decode_pb_envelope, of_pb,
}
use rtc_framework.Vision.Laws.{EnvelopeFits, stored_envelope, NanopbLaws}

pub Filled-cases :
    {A : Type 0} (r : Filled A)
    → ((a : A) × (r ≡ filled a)) ⊎ ((text : String) × (r ≡ refused text))
Filled-cases (filled a) = inl (a, refl)
Filled-cases (refused text) = inr (text, refl)

-- Whether a refusal has a text.
abbrev pub has_reason : {A : Type 0} → Filled A → Bool
has_reason (filled a) = true
has_reason (refused text) = not (is_empty text)

pub copy-has_reason :
    (text : String) (t : Text) → is_empty text ≡ false → has_reason (copy_string text t) ≡ true
unfolding copy_string
copy-has_reason text t h = ground arith

detection-has_reason : (c : CoordType) (d : Detection) → has_reason (fill_detection c d) ≡ true
unfolding fill_detection
detection-has_reason c d = ground arith

detections-has_reason :
    (c : CoordType) (ds : List Detection) → has_reason (fill_detections c ds) ≡ true
unfolding fill_detections
detections-has_reason c [] = refl
detections-has_reason c (d ∷ ds) =
    ground (arith, detection-has_reason c d, detections-has_reason c ds)

pub frame-has_reason : (f : FrameDetections) → has_reason (fill_frame_detections f) ≡ true
unfolding fill_frame_detections
frame-has_reason f = ground (
  arith,
  copy-has_reason "detection_frame.source_id exceeds 31 bytes" f.source_id refl,
  detections-has_reason f.coord_type f.detections,
)

pub decode_nonempty :
    (pb : Nanopb) (bytes : List ℕ)
    → bytes ≢ []
    → decode_envelope pb (some bytes) ≡ of_decoded (pb.decode bytes)
unfolding decode_envelope
decode_nonempty pb [] h = absurd (h refl)
decode_nonempty pb (b ∷ bs) h = refl

module _ (pb : Nanopb) (laws : NanopbLaws pb) where
  -- An envelope that was encoded arrives as it is stored.
  pub arrives :
      (e : PbEnvelope)
      → EnvelopeFits e
      → e.magic.has ≡ true
      → encoded_ok (of_pb (pb.encode e)) ≡ true
      → decode_envelope pb (some (of_pb (pb.encode e)).payload)
        ≡ decode_pb_envelope (stored_envelope e)
  arrives e fits magic ok = elim (PbResult-cases (pb.encode e)) [
    | inl (bytes, done) ↦
        rw
          (
            done,
            decode_nonempty pb bytes (laws.encode-ne-nil e bytes magic done),
            laws.decode-encode e bytes fits done,
          )
          refl
    | inr (text, failed) ↦ absurd (ground (arith, laws.encode_error_text e text failed, failed))
  ]

  -- What is filled in is encoded, what is refused is not.
  abbrev pub sent : {P : Type 0} → Filled P → (P → PbEnvelope) → EncodeResult
  sent r wrap = elim r [ filled p ↦ of_pb (pb.encode (wrap p)) | refused text ↦ not_filled text ]

  pub sent_arrives :
      {P : Type 0} (r : Filled P) (wrap : P → PbEnvelope) (x : DecodeResult)
      → has_reason r ≡ true
      → ((p : P) → (wrap p).magic.has ≡ true)
      → ((p : P)
          → r ≡ filled p
          → EnvelopeFits (wrap p) × (decode_pb_envelope (stored_envelope (wrap p)) ≡ x))
      → encoded_ok (sent r wrap) ≡ true
      → decode_envelope pb (some (sent r wrap).payload) ≡ x
  sent_arrives (filled p) wrap x reason magic fits ok =
      let (fit, same) = fits p refl in rw (arrives (wrap p) fit (magic p) ok) same
  sent_arrives (refused text) wrap x reason magic fits ok = absurd (ground (arith, reason, ok))
