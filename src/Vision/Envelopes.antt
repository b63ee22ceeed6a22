-- ===== src/Vision/Envelopes.antt =====
-- client/protocols/vision/src/vision_detection_codec.cpp: the envelopes. The data of a call is `none`
-- for a null pointer with a size above 0; a call with size 0 is that of no bytes.
use rtc_framework.Base.{
  ℕ, Bool, not, ◌||◌, String, is_empty, List, [], ◌∷◌, Option, none, some, map, ◌==◌, if◌then◌else◌,
}
use rtc_framework.VehicleProtocol.Pb.{PbResult}
use rtc_framework.Vision.Types.{
  vision_detection_magic, vision_protocol_major, vision_protocol_minor, MessageType, CoordType,
  DecodeStatus, Capability, ClassInfo, ClassMap, Detection, FrameDetections, Envelope,
  default_envelope, EncodeResult, DecodeResult, PbCapability, PbClassInfo, PbClassMap, PbDetection,
  PbDetectionFrame, PbEnvelope, Nanopb,
}
use rtc_framework.Vision.Codec.{
  filled, refused, present, absent, read_field, to_pb_message_type, from_pb_message_type,
  from_pb_coord_type, is_known_message_type, fill_capability, fill_class_map, fill_frame_detections,
}

abbrev pub no_capability : PbCapability
no_capability = record {
  max_detections_per_frame = absent 0;
  supported_coord_types = absent 0;
  max_source_id_size = absent 0;
  max_label_size = absent 0;
}

abbrev pub no_class_map : PbClassMap
no_class_map = record {
  map_version = absent 0;
  model_name = absent [];
  model_version = absent [];
  classes = [];
}

abbrev pub no_detection_frame : PbDetectionFrame
no_detection_frame = record {
  source_id = absent [];
  frame_id = absent 0;
  capture_ts_ms = absent 0;
  frame_width = absent 0;
  frame_height = absent 0;
  class_map_version = absent 0;
  coord_type = absent 0;
  detections = [];
}

-- `FillEnvelopeHeader` on an envelope of zeros.
unfoldable pub fill_envelope_header : MessageType → ℕ → PbEnvelope
unfolding to_pb_message_type
fill_envelope_header type seq = record {
  magic = present vision_detection_magic;
  protocol_major = present vision_protocol_major;
  protocol_minor = present vision_protocol_minor;
  type = present (to_pb_message_type type);
  seq = present seq;
  capability = absent no_capability;
  class_map = absent no_class_map;
  detection_frame = absent no_detection_frame;
}

-- `explicit operator bool`.
abbrev pub encoded_ok : EncodeResult → Bool
encoded_ok r = is_empty r.error_message

abbrev pub of_pb : PbResult (List ℕ) → EncodeResult
of_pb (PbResult.done bytes) = record { payload = bytes; error_message = "" }
of_pb (PbResult.failed text) = record { payload = []; error_message = text }

abbrev pub not_filled : String → EncodeResult
not_filled text = record { payload = []; error_message = text }

abbrev pub decode_error : DecodeStatus → String → DecodeResult
decode_error status text = record {
  status = status;
  envelope = default_envelope;
  error_message = text;
}

unfoldable pub from_pb_capability : PbCapability → Capability
from_pb_capability c = record {
  max_detections_per_frame = read_field 0 c.max_detections_per_frame;
  supported_coord_types = read_field 0 c.supported_coord_types;
  max_source_id_size = read_field 0 c.max_source_id_size;
  max_label_size = read_field 0 c.max_label_size;
}

unfoldable pub from_pb_class_info : PbClassInfo → ClassInfo
from_pb_class_info c = record {
  class_id = read_field 0 c.class_id;
  label = read_field [] c.label;
  has_color_argb = c.color_argb.has;
  color_argb = c.color_argb.value;
}

unfoldable pub from_pb_class_map : PbClassMap → ClassMap
unfolding from_pb_class_info
from_pb_class_map m = record {
  map_version = read_field 0 m.map_version;
  model_name = read_field [] m.model_name;
  model_version = read_field [] m.model_version;
  classes = map from_pb_class_info m.classes;
}

unfoldable pub from_pb_detection : PbDetection → Detection
from_pb_detection d = record {
  class_id = read_field 0 d.class_id;
  confidence = read_field 0 d.confidence;
  x = read_field 0 d.x;
  y = read_field 0 d.y;
  w = read_field 0 d.w;
  h = read_field 0 d.h;
  has_detection_id = d.detection_id.has;
  detection_id = d.detection_id.value;
  has_track_id = d.track_id.has;
  track_id = d.track_id.value;
  flags = read_field 0 d.flags;
}

unfoldable pub from_pb_detection_frame : PbDetectionFrame → FrameDetections
unfolding from_pb_detection from_pb_coord_type
from_pb_detection_frame f = record {
  source_id = read_field [] f.source_id;
  frame_id = read_field 0 f.frame_id;
  capture_ts_ms = read_field 0 f.capture_ts_ms;
  frame_width = read_field 0 f.frame_width;
  frame_height = read_field 0 f.frame_height;
  class_map_version = read_field 0 f.class_map_version;
  coord_type =
      if f.coord_type.has then from_pb_coord_type f.coord_type.value else CoordType.norm_u16_xywh;
  detections = map from_pb_detection f.detections;
}

-- The mask has the bits 1, 2 and 3, one of each known kind of coordinates.
unfoldable pub default_capability : Capability
default_capability = record {
  max_detections_per_frame = 64;
  supported_coord_types = 14;
  max_source_id_size = 31;
  max_label_size = 31;
}

abbrev pub decoded : Envelope → DecodeResult
decoded e = record { status = DecodeStatus.ok; envelope = e; error_message = "" }

-- The `switch` on the type.
unfoldable pub decode_payload : MessageType → PbEnvelope → DecodeResult
unfolding from_pb_capability from_pb_class_map from_pb_detection_frame
decode_payload MessageType.capability e =
    if not e.capability.has
    then decode_error DecodeStatus.unexpected_payload
        "capability envelope has no capability payload"
    else decoded (record default_envelope {
      seq = read_field 0 e.seq;
      type = MessageType.capability;
      capability = from_pb_capability e.capability.value;
    })
decode_payload MessageType.class_map e =
    if not e.class_map.has
    then decode_error DecodeStatus.unexpected_payload "class_map envelope has no class_map payload"
    else decoded (record default_envelope {
      seq = read_field 0 e.seq;
      type = MessageType.class_map;
      class_map = from_pb_class_map e.class_map.value;
    })
decode_payload MessageType.frame_detections e =
    if not e.detection_frame.has
    then decode_error DecodeStatus.unexpected_payload
        "detection_frame envelope has no detection_frame payload"
    else decoded (record default_envelope {
      seq = read_field 0 e.seq;
      type = MessageType.frame_detections;
      frame_detections = from_pb_detection_frame e.detection_frame.value;
    })
decode_payload _ e = decode_error DecodeStatus.invalid_envelope "unknown message type"

unfoldable pub decode_pb_envelope : PbEnvelope → DecodeResult
unfolding decode_payload from_pb_message_type is_known_message_type
decode_pb_envelope e =
    if not e.magic.has || not (e.magic.value == vision_detection_magic)
    then decode_error DecodeStatus.invalid_envelope "missing or invalid magic"
    else if not e.protocol_major.has
    then decode_error DecodeStatus.invalid_envelope "missing protocol_major"
    else if not (e.protocol_major.value == vision_protocol_major)
    then decode_error DecodeStatus.unsupported_protocol "unsupported protocol_major"
    else if not e.type.has
    then decode_error DecodeStatus.invalid_envelope "missing type"
    else if not (is_known_message_type (from_pb_message_type e.type.value))
    then decode_error DecodeStatus.invalid_envelope "unknown message type"
    else decode_payload (from_pb_message_type e.type.value) e

abbrev pub of_decoded : PbResult PbEnvelope → DecodeResult
of_decoded (PbResult.done e) = decode_pb_envelope e
of_decoded (PbResult.failed text) = decode_error DecodeStatus.decode_failed text

module _ (pb : Nanopb) where
  unfoldable pub encode_capability_envelope : ℕ → Capability → EncodeResult
  unfolding fill_envelope_header fill_capability
  encode_capability_envelope seq c = of_pb (
      pb.encode (record (fill_envelope_header MessageType.capability seq) {
        capability = present (fill_capability c);
      }))

  unfoldable pub encode_class_map_envelope : ℕ → ClassMap → EncodeResult
  unfolding fill_envelope_header fill_class_map
  encode_class_map_envelope seq m = elim (fill_class_map m) [
    | filled p ↦ of_pb (
        pb.encode
          (record (fill_envelope_header MessageType.class_map seq) { class_map = present p }))
    | refused text ↦ not_filled text
  ]

  unfoldable pub encode_frame_detections_envelope : ℕ → FrameDetections → EncodeResult
  unfolding fill_envelope_header fill_frame_detections
  encode_frame_detections_envelope seq f = elim (fill_frame_detections f) [
    | filled p ↦ of_pb (
        pb.encode (record (fill_envelope_header MessageType.frame_detections seq) {
          detection_frame = present p;
        }))
    | refused text ↦ not_filled text
  ]

  unfoldable pub decode_envelope : Option (List ℕ) → DecodeResult
  unfolding decode_pb_envelope
  decode_envelope none = decode_error DecodeStatus.empty_payload "null payload"
  decode_envelope (some []) = decode_error DecodeStatus.empty_payload "empty payload"
  decode_envelope (some (b ∷ bs)) = of_decoded (pb.decode (b ∷ bs))
