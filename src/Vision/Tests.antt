-- ===== src/Vision/Tests.antt =====
-- The theorems of the detection protocol on a frame of two objects.
use rtc_framework.Base.{
  ◌≡◌, ◌↔◌, ◌≢◌, refl, true, false, List, [], ◌∷◌, some, arith, ap, is_empty, sym, ℕ, String,
}
use native.Mathlib.Decide.{ℕ_discrete}
use rtc_framework.VehicleProtocol.Pb.{PbResult}
use rtc_framework.Vision.Types.{MessageType, CoordType, FrameDetections, PbEnvelope, Nanopb}
use rtc_framework.Vision.Codec.{
  filled, copy_string, fill_detection, fill_detections, fill_frame_detections, present,
  is_known_coord_type, to_pb_coord_type, uses_u16_coords, to_pb_message_type,
}
use rtc_framework.Vision.Envelopes.{
  fill_envelope_header, encode_frame_detections_envelope, encoded_ok, decode_envelope, decoded,
}
use rtc_framework.Vision.Laws.{stored_envelope, NanopbLaws}
use rtc_framework.Vision.Accepted.{is_filled, FrameIsValid, fill_frame_detections_iff}
use rtc_framework.Vision.Messages.{a_frame, encode_message, received, decode-encode_message}

-- The second has an id that is not marked as there.
abbrev two_objects : FrameDetections
two_objects = record {
  source_id = 99 ∷ 97 ∷ 109 ∷ [];
  frame_id = 12;
  capture_ts_ms = 1700000000000;
  frame_width = 1280;
  frame_height = 720;
  class_map_version = 1;
  coord_type = CoordType.norm_u16_xywh;
  detections =
      (record {
        class_id = 2;
        confidence = 1000;
        x = 10;
        y = 20;
        w = 65535;
        h = 40;
        has_detection_id = true;
        detection_id = 5;
        has_track_id = false;
        track_id = 0;
        flags = 1;
      })
      ∷ (record {
        class_id = 0;
        confidence = 400;
        x = 1;
        y = 2;
        w = 3;
        h = 4;
        has_detection_id = false;
        detection_id = 6;
        has_track_id = true;
        track_id = 8;
        flags = 0;
      })
      ∷ [];
}

written : PbEnvelope
unfolding fill_envelope_header fill_frame_detections fill_detections fill_detection copy_string
    is_known_coord_type to_pb_coord_type uses_u16_coords to_pb_message_type
written = elim (fill_frame_detections two_objects) [
  | filled p ↦ record (fill_envelope_header MessageType.frame_detections 7) {
    detection_frame = present p;
  }
  | _ ↦ fill_envelope_header MessageType.frame_detections 7
]

PbEnvelope-discrete : Discrete PbEnvelope
PbEnvelope-discrete = hlevel ℕ_discrete

abbrev of_decision : {P : Type 0} → Dec P → PbResult (List ℕ)
of_decision (yes p) = PbResult.done (1 ∷ [])
of_decision (no p) = PbResult.failed "encode failed"

-- A nanopb that writes one envelope, as one byte.
abbrev one_envelope : Nanopb
one_envelope = record {
  encode = λ e. of_decision (PbEnvelope-discrete written e);
  decode = λ bytes. PbResult.done (stored_envelope written);
}

of_decision-holds : {P : Type 0} (d : Dec P) → P → of_decision d ≡ PbResult.done (1 ∷ [])
of_decision-holds (yes q) p = refl
of_decision-holds (no q) p = absurd (q p)

of_decision-done :
    {P : Type 0} (d : Dec P) (bytes : List ℕ)
    → of_decision d ≡ PbResult.done bytes
    → P × (bytes ≢ [])
of_decision-done (yes p) bytes h = (p, λ e. ground (arith, h, e))
of_decision-done (no p) bytes h = cc

abbrev error_text : PbResult (List ℕ) → String
error_text (PbResult.done bytes) = ""
error_text (PbResult.failed text) = text

of_decision-failed :
    {P : Type 0} (d : Dec P) (text : String)
    → of_decision d ≡ PbResult.failed text
    → is_empty text ≡ false
of_decision-failed (yes p) text h = cc
of_decision-failed (no p) text h = ap (λ r. is_empty (error_text r)) (sym h)

one_envelope-NanopbLaws : NanopbLaws one_envelope
one_envelope-NanopbLaws = record {
  decode-encode = λ e bytes fits h.
      ap (λ x. PbResult.done (stored_envelope x))
        (of_decision-done (PbEnvelope-discrete written e) bytes h).0;
  encode-ne-nil = λ e bytes there h. (of_decision-done (PbEnvelope-discrete written e) bytes h).1;
  encode_error_text = λ e text h. of_decision-failed (PbEnvelope-discrete written e) text h;
}

two_objects_encode : encoded_ok (encode_frame_detections_envelope one_envelope 7 two_objects) ≡ true
unfolding encode_frame_detections_envelope written
two_objects_encode = rw (of_decision-holds (PbEnvelope-discrete written written) refl) refl

decode-encode_message_example :
    decode_envelope one_envelope
      (some (encode_message one_envelope 7 (a_frame two_objects)).payload)
    ≡ decoded (received 7 (a_frame two_objects))
decode-encode_message_example =
    decode-encode_message one_envelope one_envelope-NanopbLaws 7 (a_frame two_objects) (omega arith)
      (ground arith) two_objects_encode

fill_frame_detections_iff_example :
    (is_filled (fill_frame_detections two_objects) ≡ true) ↔ FrameIsValid two_objects
fill_frame_detections_iff_example = fill_frame_detections_iff two_objects
