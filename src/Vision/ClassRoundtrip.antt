-- ===== src/Vision/ClassRoundtrip.antt =====
-- vision_detection_codec.cpp: the classes of a class map, filled in and read back.
use rtc_framework.Base.{◌≡◌, true, List, [], ◌∷◌, map, length, leb, All, arith, if◌then◌else◌, refl}
use rtc_framework.VehicleProtocol.Pb.{Fits32}
use rtc_framework.Vision.Types.{Capability, ClassInfo, ClassMap, PbClassInfo, PbClassMap}
use rtc_framework.Vision.Codec.{
  filled, guard, until_zero, copy_string, fill_capability, fill_class_info, fill_classes,
  fill_class_map,
}
use rtc_framework.Vision.Envelopes.{from_pb_class_info, from_pb_class_map, from_pb_capability}
use rtc_framework.Vision.Laws.{
  ClassInfoFits, ClassMapFits, CapabilityFits, stored_class_info, stored_class_map,
  stored_capability, >>=-eq-filled,
}
use rtc_framework.Vision.Roundtrip.{IsBytes, copy-TextFits}
use rtc_framework.Vision.Arrival.{has_reason, copy-has_reason}

abbrev pub IsCapability : Capability → Type 0
IsCapability c =
    Fits32 c.max_detections_per_frame
    × Fits32 c.supported_coord_types
    × Fits32 c.max_source_id_size
    × Fits32 c.max_label_size

abbrev pub IsClassInfo : ClassInfo → Type 0
IsClassInfo c = Fits32 c.class_id × Fits32 c.color_argb × IsBytes c.label

abbrev pub IsClassMap : ClassMap → Type 0
IsClassMap m =
    Fits32 m.map_version
    × IsBytes m.model_name
    × IsBytes m.model_version
    × All IsClassInfo m.classes

-- What arrives: a colour only if it is marked as there.
abbrev pub sent_class_info : ClassInfo → ClassInfo
sent_class_info c = record c {
  label = until_zero c.label;
  color_argb = if c.has_color_argb then c.color_argb else 0;
}

abbrev pub sent_class_map : ClassMap → ClassMap
sent_class_map m = record m {
  model_name = until_zero m.model_name;
  model_version = until_zero m.model_version;
  classes = map sent_class_info m.classes;
}

pub capability_filled :
    (c : Capability)
    → IsCapability c
    → CapabilityFits (fill_capability c)
      × (from_pb_capability (stored_capability (fill_capability c)) ≡ c)
unfolding fill_capability from_pb_capability
capability_filled c h = ground arith

class_info_filled :
    (c : ClassInfo) (p : PbClassInfo)
    → IsClassInfo c
    → fill_class_info c ≡ filled p
    → ClassInfoFits p × (from_pb_class_info (stored_class_info p) ≡ sent_class_info c)
unfolding fill_class_info from_pb_class_info
class_info_filled c p h e =
    let (t, copied, last) = >>=-eq-filled (copy_string _ c.label) _ e in
    ground (arith, copy-TextFits _ c.label t h.2 copied)

classes_filled :
    (cs : List ClassInfo) (ps : List PbClassInfo)
    → All IsClassInfo cs
    → fill_classes cs ≡ filled ps
    → All ClassInfoFits ps
      × (map from_pb_class_info (map stored_class_info ps) ≡ map sent_class_info cs)
      × (length ps ≡ length cs)
unfolding fill_classes
classes_filled [] ps h e = ground arith
classes_filled (c ∷ cs) ps h e =
    let (p, ep, rest) = >>=-eq-filled (fill_class_info c) _ e in
    let (qs, eq, last) = >>=-eq-filled (fill_classes cs) _ rest in
    ground (arith, class_info_filled c p h.0 ep, classes_filled cs qs h.1 eq)

pub class_map_filled :
    (m : ClassMap) (p : PbClassMap)
    → IsClassMap m
    → fill_class_map m ≡ filled p
    → ClassMapFits p × (from_pb_class_map (stored_class_map p) ≡ sent_class_map m)
unfolding fill_class_map from_pb_class_map
class_map_filled m p h e =
    let (u, few, r1) = >>=-eq-filled (guard (leb (length m.classes) 256) _) _ e in
    let (name, named, r2) = >>=-eq-filled (copy_string _ m.model_name) _ r1 in
    let (version, versioned, r3) = >>=-eq-filled (copy_string _ m.model_version) _ r2 in
    let (cs, all, last) = >>=-eq-filled (fill_classes m.classes) _ r3 in
    ground (
      arith,
      copy-TextFits _ m.model_name name h.1 named,
      copy-TextFits _ m.model_version version h.2 versioned,
      classes_filled m.classes cs h.3 all,
    )

classes-has_reason : (cs : List ClassInfo) → has_reason (fill_classes cs) ≡ true
unfolding fill_classes fill_class_info
classes-has_reason [] = refl
classes-has_reason (c ∷ cs) =
    ground
      (arith, copy-has_reason "class.label exceeds 31 bytes" c.label refl, classes-has_reason cs)

pub map-has_reason : (m : ClassMap) → has_reason (fill_class_map m) ≡ true
unfolding fill_class_map
map-has_reason m = ground (
  arith,
  copy-has_reason "class_map.model_name exceeds 31 bytes" m.model_name refl,
  copy-has_reason "class_map.model_version exceeds 31 bytes" m.model_version refl,
  classes-has_reason m.classes,
)
