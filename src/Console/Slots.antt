-- ===== src/Console/Slots.antt =====
-- client/apps/rtc_console/device_slot_registry.h. The four bindings are a list.
use text.Mathlib.Text.{◌==◌ as str_eq}
use Prim.Native.String.{◌++◌ as str_append}
use rtc_framework.Base.{
  ℕ, Bool, true, false, not, String, List, [], ◌∷◌, map, Option, none, some, is_empty, ◌==◌,
  if◌then◌else◌,
}
use rtc_framework.Base.Assoc.{lookup, erase}
use rtc_framework.Base.Sorted.{put}

pub record DeviceSlot : Type 0 where
  pub device_id : String
  pub session_id : ℕ
  pub conflict : Bool

pub record DeviceSlotRegistry : Type 0 where
  pub bindings : List String
  pub identities : List (ℕ × String)

abbrev pub new_slots : DeviceSlotRegistry
new_slots = record { bindings = "" ∷ "" ∷ "" ∷ "" ∷ []; identities = [] }

abbrev pub configure : List String → DeviceSlotRegistry → DeviceSlotRegistry
configure bindings r = record r { bindings = bindings }

unfoldable pub identify : ℕ → String → DeviceSlotRegistry → DeviceSlotRegistry
identify session_id device_id r = record r { identities = put session_id device_id r.identities }

unfoldable pub disconnect : ℕ → DeviceSlotRegistry → DeviceSlotRegistry
disconnect session_id r = record r { identities = erase session_id r.identities }

abbrev pub clear_slots : DeviceSlotRegistry → DeviceSlotRegistry
clear_slots r = record r { identities = [] }

-- `Label`, with `std::to_string`.
abbrev pub found_label : (ℕ → String) → ℕ → Option String → String
found_label to_string session_id none = str_append "session " (to_string session_id)
found_label to_string session_id (some device_id) = device_id

abbrev pub label : (ℕ → String) → ℕ → DeviceSlotRegistry → String
label to_string session_id r = found_label to_string session_id (lookup session_id r.identities)

-- The loop over the identities.
unfoldable pub fill_slot : List (ℕ × String) → DeviceSlot → DeviceSlot
fill_slot [] slot = slot
fill_slot ((session_id, name) ∷ others) slot = fill_slot others (
    if not (str_eq name slot.device_id) then slot else record slot {
      conflict = if not (slot.session_id == 0) then true else slot.conflict;
      session_id = session_id;
    })

unfoldable pub snapshot_slot : List (ℕ × String) → String → DeviceSlot
unfolding fill_slot
snapshot_slot identities binding =
    let empty : DeviceSlot = record { device_id = binding; session_id = 0; conflict = false } in
    let slot = fill_slot identities empty in
    if is_empty binding
    then empty
    else if slot.conflict
    then record slot { session_id = 0 }
    else slot

abbrev pub snapshot : DeviceSlotRegistry → List DeviceSlot
snapshot r = map (snapshot_slot r.identities) r.bindings
