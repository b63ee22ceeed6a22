-- ===== src/Vision/Accepted.antt =====
-- vision_detection_codec.cpp: which frames `FillFrameDetections` accepts.
use rtc_framework.Base.{◌≤◌, ◌<◌, ◌≡◌, ◌↔◌, Bool, true, false, List, [], ◌∷◌, length, All, arith}
use rtc_framework.Vision.Types.{CoordType, Detection, FrameDetections}
use rtc_framework.Vision.Codec.{
  Filled, filled, refused, copy_string, fill_detection, fill_detections, fill_frame_detections,
  is_known_coord_type, uses_u16_coords,
}

abbrev pub is_filled : {A : Type 0} → Filled A → Bool
is_filled (filled a) = true
is_filled (refused text) = false

-- The confidence is in thousandths, and a coordinate that is a share of the picture is of 16 bits.
abbrev pub DetectionIsValid : CoordType → Detection → Type 0
DetectionIsValid c d =
    (d.confidence ≤ 1000)
    × (uses_u16_coords c ≡ true → (d.x ≤ 65535) × (d.y ≤ 65535) × (d.w ≤ 65535) × (d.h ≤ 65535))

abbrev pub FrameIsValid : FrameDetections → Type 0
FrameIsValid f =
    (is_known_coord_type f.coord_type ≡ true)
    × (length f.detections ≤ 64)
    × (length f.source_id < 32)
    × All (DetectionIsValid f.coord_type) f.detections

fill_detection_iff :
    (c : CoordType) (d : Detection) → (is_filled (fill_detection c d) ≡ true) ↔ DetectionIsValid c d
unfolding fill_detection
fill_detection_iff c d = ground arith

fill_detections_iff :
    (c : CoordType) (ds : List Detection)
    → (is_filled (fill_detections c ds) ≡ true) ↔ All (DetectionIsValid c) ds
unfolding fill_detections
fill_detections_iff c [] = ground arith
fill_detections_iff c (d ∷ ds) = ground (arith, fill_detection_iff c d, fill_detections_iff c ds)

-- A frame is accepted exactly when its coordinates are of a known kind, it has at most 64 detections
-- and a source id of at most 31 bytes, every confidence is at most 1000, and, where the coordinates
-- are of 16 bits, every coordinate is at most 65535.
pub fill_frame_detections_iff :
    (f : FrameDetections) → (is_filled (fill_frame_detections f) ≡ true) ↔ FrameIsValid f
unfolding fill_frame_detections copy_string
fill_frame_detections_iff f = ground (arith, fill_detections_iff f.coord_type f.detections)
