-- ===== src/Vision/Types.antt =====
-- client/protocols/vision/include/rtc_vision/vision_detection_codec.h, and the structs of
-- generated/vision_detection.pb.h. A text is the list of its bytes. An array of 32 characters is the
-- text up to its first zero, which is all that is read of it; an enum of C is a number.
use rtc_framework.Base.{ℕ, Bool, String, List, []}
use rtc_framework.VehicleProtocol.Pb.{PbResult}

abbrev pub Text : Type 0
Text = List ℕ

abbrev pub vision_detection_magic : ℕ
vision_detection_magic = 0x31544456

abbrev pub vision_protocol_major : ℕ
vision_protocol_major = 1

abbrev pub vision_protocol_minor : ℕ
vision_protocol_minor = 0

abbrev pub max_classes_per_map : ℕ
max_classes_per_map = 256

abbrev pub max_detections_per_frame : ℕ
max_detections_per_frame = 64

pub data MessageType : Type 0 where
  unknown capability class_map frame_detections : MessageType
  unlisted : ℕ → MessageType

pub data CoordType : Type 0 where
  unknown norm_u16_xywh norm_u16_xyxy pixel_i32_xywh : CoordType
  unlisted : ℕ → CoordType

pub data DecodeStatus : Type 0 where
  ok empty_payload decode_failed invalid_envelope : DecodeStatus
  unsupported_protocol unexpected_payload : DecodeStatus

pub record Capability : Type 0 where
  pub max_detections_per_frame : ℕ
  pub supported_coord_types : ℕ
  pub max_source_id_size : ℕ
  pub max_label_size : ℕ

pub record ClassInfo : Type 0 where
  pub class_id : ℕ
  pub label : Text
  pub has_color_argb : Bool
  pub color_argb : ℕ

pub record ClassMap : Type 0 where
  pub map_version : ℕ
  pub model_name : Text
  pub model_version : Text
  pub classes : List ClassInfo

pub record Detection : Type 0 where
  pub class_id : ℕ
  pub confidence : ℕ
  pub x : ℕ
  pub y : ℕ
  pub w : ℕ
  pub h : ℕ
  pub has_detection_id : Bool
  pub detection_id : ℕ
  pub has_track_id : Bool
  pub track_id : ℕ
  pub flags : ℕ

pub record FrameDetections : Type 0 where
  pub source_id : Text
  pub frame_id : ℕ
  pub capture_ts_ms : ℕ
  pub frame_width : ℕ
  pub frame_height : ℕ
  pub class_map_version : ℕ
  pub coord_type : CoordType
  pub detections : List Detection

pub record Envelope : Type 0 where
  pub seq : ℕ
  pub type : MessageType
  pub capability : Capability
  pub class_map : ClassMap
  pub frame_detections : FrameDetections

abbrev pub default_envelope : Envelope
default_envelope = record {
  seq = 0;
  type = MessageType.unknown;
  capability = record {
    max_detections_per_frame = 0;
    supported_coord_types = 0;
    max_source_id_size = 0;
    max_label_size = 0;
  };
  class_map = record { map_version = 0; model_name = []; model_version = []; classes = [] };
  frame_detections = record {
    source_id = [];
    frame_id = 0;
    capture_ts_ms = 0;
    frame_width = 0;
    frame_height = 0;
    class_map_version = 0;
    coord_type = CoordType.norm_u16_xywh;
    detections = [];
  };
}

pub record EncodeResult : Type 0 where
  pub payload : List ℕ
  pub error_message : String

pub record DecodeResult : Type 0 where
  pub status : DecodeStatus
  pub envelope : Envelope
  pub error_message : String

-- A field with its `has_` flag.
pub record Field (A : Type 0) : Type 0 where
  pub has : Bool
  pub value : A

pub record PbCapability : Type 0 where
  pub max_detections_per_frame : Field ℕ
  pub supported_coord_types : Field ℕ
  pub max_source_id_size : Field ℕ
  pub max_label_size : Field ℕ

pub record PbClassInfo : Type 0 where
  pub class_id : Field ℕ
  pub label : Field Text
  pub color_argb : Field ℕ

pub record PbClassMap : Type 0 where
  pub map_version : Field ℕ
  pub model_name : Field Text
  pub model_version : Field Text
  pub classes : List PbClassInfo

pub record PbDetection : Type 0 where
  pub class_id : Field ℕ
  pub confidence : Field ℕ
  pub x : Field ℕ
  pub y : Field ℕ
  pub w : Field ℕ
  pub h : Field ℕ
  pub detection_id : Field ℕ
  pub track_id : Field ℕ
  pub flags : Field ℕ

pub record PbDetectionFrame : Type 0 where
  pub source_id : Field Text
  pub frame_id : Field ℕ
  pub capture_ts_ms : Field ℕ
  pub frame_width : Field ℕ
  pub frame_height : Field ℕ
  pub class_map_version : Field ℕ
  pub coord_type : Field ℕ
  pub detections : List PbDetection

pub record PbEnvelope : Type 0 where
  pub magic : Field ℕ
  pub protocol_major : Field ℕ
  pub protocol_minor : Field ℕ
  pub type : Field ℕ
  pub seq : Field ℕ
  pub capability : Field PbCapability
  pub class_map : Field PbClassMap
  pub detection_frame : Field PbDetectionFrame

-- nanopb, as a parameter.
pub record Nanopb : Type 0 where
  pub encode : PbEnvelope → PbResult (List ℕ)
  pub decode : List ℕ → PbResult PbEnvelope
