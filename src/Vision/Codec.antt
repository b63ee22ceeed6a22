-- ===== src/Vision/Codec.antt =====
-- client/protocols/vision/src/vision_detection_codec.cpp.
use rtc_framework.Base.{
  ℕ, Bool, true, false, not, ◌&&◌, ◌||◌, String, List, [], ◌∷◌, length, ltb, leb, ◌==◌,
  if◌then◌else◌,
}
use rtc_framework.Vision.Types.{
  Text, max_classes_per_map, max_detections_per_frame, MessageType, CoordType, Capability,
  ClassInfo, ClassMap, Detection, FrameDetections, Field, PbCapability, PbClassInfo, PbClassMap,
  PbDetection, PbDetectionFrame,
}

-- What is filled in, or the text of the error.
pub data Filled (A : Type 0) : Type 0 where
  filled : A → Filled A
  refused : String → Filled A

infixl 5 ◌>>=◌ ◌>>◌
abbrev pub ◌>>=◌ : {A B : Type 0} → Filled A → (A → Filled B) → Filled B
filled a >>= f = f a
refused text >>= f = refused text

abbrev pub ◌>>◌ : {B : Type 0} → Filled (Unit {0}) → Filled B → Filled B
m >> k = m >>= λ _. k

abbrev pub guard : Bool → String → Filled (Unit {0})
guard true text = filled tt
guard false text = refused text

abbrev pub present : {A : Type 0} → A → Field A
present a = record { has = true; value = a }

abbrev pub absent : {A : Type 0} → A → Field A
absent a = record { has = false; value = a }

-- The bytes before the first zero, which ends the text that the array holds.
abbrev pub until_zero : Text → Text
until_zero [] = []
until_zero (b ∷ bs) = if b == 0 then [] else b ∷ until_zero bs

-- The error names the field.
unfoldable pub copy_string : String → Text → Filled Text
copy_string text source = do guard (ltb (length source) 32) text; filled (until_zero source)

-- `ReadString`, and `has ? value : 0`.
abbrev pub read_field : {A : Type 0} → A → Field A → A
read_field default f = if f.has then f.value else default

unfoldable pub to_pb_message_type : MessageType → ℕ
to_pb_message_type MessageType.capability = 1
to_pb_message_type MessageType.class_map = 2
to_pb_message_type MessageType.frame_detections = 3
to_pb_message_type _ = 0

unfoldable pub from_pb_message_type : ℕ → MessageType
from_pb_message_type n =
    if n == 1
    then MessageType.capability
    else if n == 2
    then MessageType.class_map
    else if n == 3
    then MessageType.frame_detections
    else MessageType.unknown

unfoldable pub to_pb_coord_type : CoordType → ℕ
to_pb_coord_type CoordType.norm_u16_xywh = 1
to_pb_coord_type CoordType.norm_u16_xyxy = 2
to_pb_coord_type CoordType.pixel_i32_xywh = 3
to_pb_coord_type _ = 0

unfoldable pub from_pb_coord_type : ℕ → CoordType
from_pb_coord_type n =
    if n == 1
    then CoordType.norm_u16_xywh
    else if n == 2
    then CoordType.norm_u16_xyxy
    else if n == 3
    then CoordType.pixel_i32_xywh
    else CoordType.unknown

unfoldable pub is_known_message_type : MessageType → Bool
is_known_message_type MessageType.capability = true
is_known_message_type MessageType.class_map = true
is_known_message_type MessageType.frame_detections = true
is_known_message_type _ = false

unfoldable pub is_known_coord_type : CoordType → Bool
is_known_coord_type CoordType.norm_u16_xywh = true
is_known_coord_type CoordType.norm_u16_xyxy = true
is_known_coord_type CoordType.pixel_i32_xywh = true
is_known_coord_type _ = false

unfoldable pub uses_u16_coords : CoordType → Bool
uses_u16_coords CoordType.norm_u16_xywh = true
uses_u16_coords CoordType.norm_u16_xyxy = true
uses_u16_coords _ = false

unfoldable pub fill_capability : Capability → PbCapability
fill_capability c = record {
  max_detections_per_frame = present c.max_detections_per_frame;
  supported_coord_types = present c.supported_coord_types;
  max_source_id_size = present c.max_source_id_size;
  max_label_size = present c.max_label_size;
}

unfoldable pub fill_class_info : ClassInfo → Filled PbClassInfo
unfolding copy_string
fill_class_info c = do
  label ← copy_string "class.label exceeds 31 bytes" c.label
  filled (record {
    class_id = present c.class_id;
    label = present label;
    color_argb = record { has = c.has_color_argb; value = c.color_argb };
  })

unfoldable pub fill_classes : List ClassInfo → Filled (List PbClassInfo)
unfolding fill_class_info
fill_classes [] = filled []
fill_classes (c ∷ cs) = do p ← fill_class_info c; ps ← fill_classes cs; filled (p ∷ ps)

unfoldable pub fill_class_map : ClassMap → Filled PbClassMap
unfolding copy_string fill_classes
fill_class_map m = do
  guard (leb (length m.classes) max_classes_per_map) "class_map.classes: too many classes"
  name ← copy_string "class_map.model_name exceeds 31 bytes" m.model_name
  version ← copy_string "class_map.model_version exceeds 31 bytes" m.model_version
  classes ← fill_classes m.classes
  filled (record {
    map_version = present m.map_version;
    model_name = present name;
    model_version = present version;
    classes = classes;
  })

abbrev pub has_large_coord : Detection → Bool
has_large_coord d = ltb 65535 d.x || (ltb 65535 d.y || (ltb 65535 d.w || ltb 65535 d.h))

unfoldable pub fill_detection : CoordType → Detection → Filled PbDetection
unfolding uses_u16_coords
fill_detection coord_type d = do
  guard (leb d.confidence 1000) "detection.confidence: must be in range 0..1000"
  guard (not (uses_u16_coords coord_type && has_large_coord d))
      "detection.coords: normalized coordinates must be in range 0..65535"
  filled (record {
    class_id = present d.class_id;
    confidence = present d.confidence;
    x = present d.x;
    y = present d.y;
    w = present d.w;
    h = present d.h;
    detection_id = record { has = d.has_detection_id; value = d.detection_id };
    track_id = record { has = d.has_track_id; value = d.track_id };
    flags = present d.flags;
  })

unfoldable pub fill_detections : CoordType → List Detection → Filled (List PbDetection)
unfolding fill_detection
fill_detections coord_type [] = filled []
fill_detections coord_type (d ∷ ds) = do
  p ← fill_detection coord_type d
  ps ← fill_detections coord_type ds
  filled (p ∷ ps)

unfoldable pub fill_frame_detections : FrameDetections → Filled PbDetectionFrame
unfolding copy_string fill_detections is_known_coord_type to_pb_coord_type
fill_frame_detections f = do
  guard (is_known_coord_type f.coord_type) "detection_frame.coord_type: unknown coordinate type"
  guard (leb (length f.detections) max_detections_per_frame)
      "detection_frame.detections: too many detections"
  source_id ← copy_string "detection_frame.source_id exceeds 31 bytes" f.source_id
  detections ← fill_detections f.coord_type f.detections
  filled (record {
    source_id = present source_id;
    frame_id = present f.frame_id;
    capture_ts_ms = present f.capture_ts_ms;
    frame_width = present f.frame_width;
    frame_height = present f.frame_height;
    class_map_version = present f.class_map_version;
    coord_type = present (to_pb_coord_type f.coord_type);
    detections = detections;
  })
