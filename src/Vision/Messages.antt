-- ===== src/Vision/Messages.antt =====
-- vision_detection_codec.cpp: the messages from the sender to the receiver.
use rtc_framework.Base.{ℕ, ◌≡◌, refl, true, some, arith}
use rtc_framework.VehicleProtocol.Pb.{Fits32}
use rtc_framework.Vision.Types.{
  MessageType, Capability, ClassMap, FrameDetections, Envelope, default_envelope, EncodeResult,
  PbCapability, PbClassMap, PbDetectionFrame, PbEnvelope, Nanopb,
}
use rtc_framework.Vision.Codec.{
  filled, present, fill_capability, fill_class_map, fill_frame_detections,
}
use rtc_framework.Vision.Envelopes.{
  fill_envelope_header, encoded_ok, encode_capability_envelope, encode_class_map_envelope,
  encode_frame_detections_envelope, decoded, decode_envelope, decode_pb_envelope,
}
use rtc_framework.Vision.Laws.{NanopbLaws, stored_envelope, EnvelopeFits}
use rtc_framework.Vision.Roundtrip.{IsFrame, sent_frame, frame_filled}
use rtc_framework.Vision.ClassRoundtrip.{
  IsCapability, IsClassMap, sent_class_map, capability_filled, class_map_filled, map-has_reason,
}
use rtc_framework.Vision.Arrival.{sent_arrives, frame-has_reason}

-- One of the three messages.
pub data Message : Type 0 where
  a_capability : Capability → Message
  a_class_map : ClassMap → Message
  a_frame : FrameDetections → Message

-- The values are of their C types.
abbrev pub IsMessage : Message → Type 0
IsMessage (a_capability c) = IsCapability c
IsMessage (a_class_map m) = IsClassMap m
IsMessage (a_frame f) = IsFrame f

abbrev pub encode_message : Nanopb → ℕ → Message → EncodeResult
encode_message pb seq (a_capability c) = encode_capability_envelope pb seq c
encode_message pb seq (a_class_map m) = encode_class_map_envelope pb seq m
encode_message pb seq (a_frame f) = encode_frame_detections_envelope pb seq f

abbrev pub received : ℕ → Message → Envelope
received seq (a_capability c) = record default_envelope {
  seq = seq;
  type = MessageType.capability;
  capability = c;
}
received seq (a_class_map m) = record default_envelope {
  seq = seq;
  type = MessageType.class_map;
  class_map = sent_class_map m;
}
received seq (a_frame f) = record default_envelope {
  seq = seq;
  type = MessageType.frame_detections;
  frame_detections = sent_frame f;
}

framed : ℕ → PbDetectionFrame → PbEnvelope
framed seq p = record (fill_envelope_header MessageType.frame_detections seq) {
  detection_frame = present p;
}

framed_fits :
    (seq : ℕ) (f : FrameDetections) (p : PbDetectionFrame)
    → Fits32 seq
    → IsFrame f
    → fill_frame_detections f ≡ filled p
    → EnvelopeFits (framed seq p)
      × (decode_pb_envelope (stored_envelope (framed seq p)) ≡ decoded (received seq (a_frame f)))
unfolding framed fill_envelope_header decode_pb_envelope
framed_fits seq f p s h e = let (fits, same) = frame_filled f p h e in (ground arith, rw same refl)

mapped : ℕ → PbClassMap → PbEnvelope
mapped seq p = record (fill_envelope_header MessageType.class_map seq) { class_map = present p }

mapped_fits :
    (seq : ℕ) (m : ClassMap) (p : PbClassMap)
    → Fits32 seq
    → IsClassMap m
    → fill_class_map m ≡ filled p
    → EnvelopeFits (mapped seq p)
      × (decode_pb_envelope (stored_envelope (mapped seq p))
          ≡ decoded (received seq (a_class_map m)))
unfolding mapped fill_envelope_header decode_pb_envelope
mapped_fits seq m p s h e =
    let (fits, same) = class_map_filled m p h e in (ground arith, rw same refl)

limited : ℕ → PbCapability → PbEnvelope
limited seq p = record (fill_envelope_header MessageType.capability seq) { capability = present p }

limited_fits :
    (seq : ℕ) (c : Capability)
    → Fits32 seq
    → IsCapability c
    → EnvelopeFits (limited seq (fill_capability c))
      × (decode_pb_envelope (stored_envelope (limited seq (fill_capability c)))
          ≡ decoded (received seq (a_capability c)))
unfolding limited fill_envelope_header decode_pb_envelope
limited_fits seq c s h = let (fits, same) = capability_filled c h in (ground arith, rw same refl)

module _ (pb : Nanopb) (laws : NanopbLaws pb) where
  -- A message whose values are of their C types and that is encoded without an error arrives with its
  -- kind and its number: every text up to its first zero, a colour and the ids of a detection only
  -- where they are marked as there, all else as it was sent, and the parts of the other kinds empty.
  pub decode-encode_message :
      (seq : ℕ) (message : Message)
      → Fits32 seq
      → IsMessage message
      → encoded_ok (encode_message pb seq message) ≡ true
      → decode_envelope pb (some (encode_message pb seq message).payload)
        ≡ decoded (received seq message)
  unfolding framed mapped limited encode_frame_detections_envelope encode_class_map_envelope
      encode_capability_envelope fill_envelope_header
  decode-encode_message seq (a_frame f) s h ok =
      sent_arrives pb laws (fill_frame_detections f) (framed seq) _ (frame-has_reason f) (λ p. refl)
        (λ p e. framed_fits seq f p s h e) ok
  decode-encode_message seq (a_class_map m) s h ok =
      sent_arrives pb laws (fill_class_map m) (mapped seq) _ (map-has_reason m) (λ p. refl)
        (λ p e. mapped_fits seq m p s h e) ok
  decode-encode_message seq (a_capability c) s h ok =
      sent_arrives pb laws (filled (fill_capability c)) (λ p. limited seq (fill_capability c)) _
        refl (λ p. refl) (λ p e. limited_fits seq c s h) ok
