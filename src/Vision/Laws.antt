-- ===== src/Vision/Laws.antt =====
-- vision_detection_codec.cpp: what is assumed of nanopb, and what a filled struct holds.
use rtc_framework.Base.{
  ℕ, ◌<◌, ◌≤◌, ◌≡◌, ◌≢◌, refl, true, false, String, is_empty, List, [], map, length, All,
  if◌then◌else◌,
}
use rtc_framework.VehicleProtocol.Pb.{PbResult, Fits32, Fits64}
use rtc_framework.Vision.Types.{
  Text, Field, PbCapability, PbClassInfo, PbClassMap, PbDetection, PbDetectionFrame, PbEnvelope,
  Nanopb,
}
use rtc_framework.Vision.Codec.{◌>>=◌, Filled, filled, refused, absent}
use rtc_framework.Vision.Envelopes.{no_capability, no_class_map, no_detection_frame}

-- A text of at most 31 bytes, without a zero.
abbrev pub TextFits : Text → Type 0
TextFits t = (length t < 32) × All (λ b. (0 < b) × (b < 256)) t

abbrev pub ClassInfoFits : PbClassInfo → Type 0
ClassInfoFits c = Fits32 c.class_id.value × Fits32 c.color_argb.value × TextFits c.label.value

abbrev pub DetectionFits : PbDetection → Type 0
DetectionFits d =
    Fits32 d.class_id.value
    × Fits32 d.confidence.value
    × Fits32 d.x.value
    × Fits32 d.y.value
    × Fits32 d.w.value
    × Fits32 d.h.value
    × Fits32 d.detection_id.value
    × Fits32 d.track_id.value
    × Fits32 d.flags.value

abbrev pub ClassMapFits : PbClassMap → Type 0
ClassMapFits m =
    Fits32 m.map_version.value
    × TextFits m.model_name.value
    × TextFits m.model_version.value
    × (length m.classes ≤ 256)
    × All ClassInfoFits m.classes

abbrev pub FrameFits : PbDetectionFrame → Type 0
FrameFits f =
    Fits64 f.frame_id.value
    × Fits64 f.capture_ts_ms.value
    × Fits32 f.frame_width.value
    × Fits32 f.frame_height.value
    × Fits32 f.class_map_version.value
    × Fits32 f.coord_type.value
    × TextFits f.source_id.value
    × (length f.detections ≤ 64)
    × All DetectionFits f.detections

abbrev pub CapabilityFits : PbCapability → Type 0
CapabilityFits c =
    Fits32 c.max_detections_per_frame.value
    × Fits32 c.supported_coord_types.value
    × Fits32 c.max_source_id_size.value
    × Fits32 c.max_label_size.value

-- The values of the struct are of their C types.
pub record EnvelopeFits (e : PbEnvelope) : Type 0 where
  pub magic_fits : Fits32 e.magic.value
  pub major_fits : Fits32 e.protocol_major.value
  pub minor_fits : Fits32 e.protocol_minor.value
  pub type_fits : Fits32 e.type.value
  pub seq_fits : Fits32 e.seq.value
  pub capability_fits : CapabilityFits e.capability.value
  pub class_map_fits : ClassMapFits e.class_map.value
  pub frame_fits : FrameFits e.detection_frame.value

-- A field that is not present is not written, and is read as its default.
abbrev pub stored : {A : Type 0} → A → Field A → Field A
stored default f = if f.has then f else absent default

abbrev pub stored_capability : PbCapability → PbCapability
stored_capability c = record {
  max_detections_per_frame = stored 0 c.max_detections_per_frame;
  supported_coord_types = stored 0 c.supported_coord_types;
  max_source_id_size = stored 0 c.max_source_id_size;
  max_label_size = stored 0 c.max_label_size;
}

abbrev pub stored_class_info : PbClassInfo → PbClassInfo
stored_class_info c = record {
  class_id = stored 0 c.class_id;
  label = stored [] c.label;
  color_argb = stored 0 c.color_argb;
}

abbrev pub stored_class_map : PbClassMap → PbClassMap
stored_class_map m = record {
  map_version = stored 0 m.map_version;
  model_name = stored [] m.model_name;
  model_version = stored [] m.model_version;
  classes = map stored_class_info m.classes;
}

abbrev pub stored_detection : PbDetection → PbDetection
stored_detection d = record {
  class_id = stored 0 d.class_id;
  confidence = stored 0 d.confidence;
  x = stored 0 d.x;
  y = stored 0 d.y;
  w = stored 0 d.w;
  h = stored 0 d.h;
  detection_id = stored 0 d.detection_id;
  track_id = stored 0 d.track_id;
  flags = stored 0 d.flags;
}

abbrev pub stored_detection_frame : PbDetectionFrame → PbDetectionFrame
stored_detection_frame f = record {
  source_id = stored [] f.source_id;
  frame_id = stored 0 f.frame_id;
  capture_ts_ms = stored 0 f.capture_ts_ms;
  frame_width = stored 0 f.frame_width;
  frame_height = stored 0 f.frame_height;
  class_map_version = stored 0 f.class_map_version;
  coord_type = stored 0 f.coord_type;
  detections = map stored_detection f.detections;
}

abbrev pub stored_message : {A : Type 0} → (A → A) → A → Field A → Field A
stored_message inner default f =
    if f.has then record { has = true; value = inner f.value } else absent default

abbrev pub stored_envelope : PbEnvelope → PbEnvelope
stored_envelope e = record {
  magic = stored 0 e.magic;
  protocol_major = stored 0 e.protocol_major;
  protocol_minor = stored 0 e.protocol_minor;
  type = stored 0 e.type;
  seq = stored 0 e.seq;
  capability = stored_message stored_capability no_capability e.capability;
  class_map = stored_message stored_class_map no_class_map e.class_map;
  detection_frame = stored_message stored_detection_frame no_detection_frame e.detection_frame;
}

-- What nanopb documents: what was written is read back, a message with a field is at least one byte, and
-- an error has a text.
pub record NanopbLaws (pb : Nanopb) : Type 0 where
  pub decode-encode :
      (e : PbEnvelope) (bytes : List ℕ)
      → EnvelopeFits e
      → pb.encode e ≡ PbResult.done bytes
      → pb.decode bytes ≡ PbResult.done (stored_envelope e)
  pub encode-ne-nil :
      (e : PbEnvelope) (bytes : List ℕ)
      → e.magic.has ≡ true
      → pb.encode e ≡ PbResult.done bytes
      → bytes ≢ []
  pub encode_error_text :
      (e : PbEnvelope) (text : String) → pb.encode e ≡ PbResult.failed text → is_empty text ≡ false

-- Inversion of a step that filled.
pub >>=-eq-filled :
    {A B : Type 0} (m : Filled A) (f : A → Filled B) {b : B}
    → (m >>= f) ≡ filled b
    → (a : A) × (m ≡ filled a) × (f a ≡ filled b)
>>=-eq-filled (filled a) f h = (a, refl, h)
>>=-eq-filled (refused text) f h = cc
