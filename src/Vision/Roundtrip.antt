-- ===== src/Vision/Roundtrip.antt =====
-- vision_detection_codec.cpp: the round trips.
use rtc_framework.Base.{
  ◌<◌, ◌≤◌, ◌≡◌, refl, true, String, List, [], ◌∷◌, map, length, leb, All, arith, if◌then◌else◌,
}
use rtc_framework.VehicleProtocol.Pb.{Fits32, Fits64}
use rtc_framework.Vision.Types.{
  Text, Detection, FrameDetections, CoordType, PbDetection, PbDetectionFrame,
}
use rtc_framework.Vision.Codec.{
  guard, filled, until_zero, copy_string, fill_detection, fill_detections, fill_frame_detections,
  to_pb_coord_type, from_pb_coord_type, is_known_coord_type,
}
use rtc_framework.Vision.Envelopes.{from_pb_detection, from_pb_detection_frame}
use rtc_framework.Vision.Laws.{
  TextFits, DetectionFits, FrameFits, stored_detection, stored_detection_frame, >>=-eq-filled,
}

-- The values of the source are of their C types.
abbrev pub IsBytes : Text → Type 0
IsBytes t = All (λ b. b < 256) t

abbrev pub IsDetection : Detection → Type 0
IsDetection d =
    Fits32 d.class_id
    × Fits32 d.confidence
    × Fits32 d.x
    × Fits32 d.y
    × Fits32 d.w
    × Fits32 d.h
    × Fits32 d.detection_id
    × Fits32 d.track_id
    × Fits32 d.flags

abbrev pub IsFrame : FrameDetections → Type 0
IsFrame f =
    Fits64 f.frame_id
    × Fits64 f.capture_ts_ms
    × Fits32 f.frame_width
    × Fits32 f.frame_height
    × Fits32 f.class_map_version
    × IsBytes f.source_id
    × All IsDetection f.detections

-- What arrives: a text up to its first zero, an id only if it is marked as there.
abbrev pub sent_detection : Detection → Detection
sent_detection d = record d {
  detection_id = if d.has_detection_id then d.detection_id else 0;
  track_id = if d.has_track_id then d.track_id else 0;
}

abbrev pub sent_frame : FrameDetections → FrameDetections
sent_frame f = record f {
  source_id = until_zero f.source_id;
  detections = map sent_detection f.detections;
}

length-until_zero : (t : Text) → length (until_zero t) ≤ length t
length-until_zero [] = omega arith
length-until_zero (b ∷ bs) = ground (arith, length-until_zero bs)

until_zero-bytes : (t : Text) → IsBytes t → All (λ b. (0 < b) × (b < 256)) (until_zero t)
until_zero-bytes [] h = tt
until_zero-bytes (b ∷ bs) h = ground (arith, until_zero-bytes bs h.1)

pub copy-TextFits :
    (text : String) (source t : Text)
    → IsBytes source
    → copy_string text source ≡ filled t
    → TextFits t × (t ≡ until_zero source)
unfolding copy_string
copy-TextFits text source t h e =
    ground (arith, length-until_zero source, until_zero-bytes source h)

detection_filled :
    (c : CoordType) (d : Detection) (p : PbDetection)
    → IsDetection d
    → fill_detection c d ≡ filled p
    → DetectionFits p × (from_pb_detection (stored_detection p) ≡ sent_detection d)
unfolding fill_detection from_pb_detection
detection_filled c d p h e = ground arith

detections_filled :
    (c : CoordType) (ds : List Detection) (ps : List PbDetection)
    → All IsDetection ds
    → fill_detections c ds ≡ filled ps
    → All DetectionFits ps
      × (map from_pb_detection (map stored_detection ps) ≡ map sent_detection ds)
      × (length ps ≡ length ds)
unfolding fill_detections
detections_filled c [] ps h e = ground arith
detections_filled c (d ∷ ds) ps h e =
    let (p, ep, rest) = >>=-eq-filled (fill_detection c d) _ e in
    let (qs, eq, last) = >>=-eq-filled (fill_detections c ds) _ rest in
    ground (arith, detection_filled c d p h.0 ep, detections_filled c ds qs h.1 eq)

to_pb_fits : (c : CoordType) → Fits32 (to_pb_coord_type c)
unfolding to_pb_coord_type
to_pb_fits CoordType.norm_u16_xywh = omega arith
to_pb_fits c = ground arith

coord_type_kept :
    (c : CoordType) → is_known_coord_type c ≡ true → from_pb_coord_type (to_pb_coord_type c) ≡ c
unfolding is_known_coord_type from_pb_coord_type to_pb_coord_type
coord_type_kept CoordType.norm_u16_xywh h = refl
coord_type_kept c h = ground arith

pub frame_filled :
    (f : FrameDetections) (p : PbDetectionFrame)
    → IsFrame f
    → fill_frame_detections f ≡ filled p
    → FrameFits p × (from_pb_detection_frame (stored_detection_frame p) ≡ sent_frame f)
unfolding fill_frame_detections from_pb_detection_frame
frame_filled f p h e =
    let (u, known, r1) = >>=-eq-filled (guard (is_known_coord_type f.coord_type) _) _ e in
    let (v, few, r2) = >>=-eq-filled (guard (leb (length f.detections) 64) _) _ r1 in
    let (id, copied, r3) = >>=-eq-filled (copy_string _ f.source_id) _ r2 in
    let (ds, all, last) = >>=-eq-filled (fill_detections f.coord_type f.detections) _ r3 in
    ground (
      arith,
      coord_type_kept f.coord_type,
      to_pb_fits f.coord_type,
      copy-TextFits _ f.source_id id h.5 copied,
      detections_filled f.coord_type f.detections ds h.6 all,
    )
