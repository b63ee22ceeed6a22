-- ===== src/Console/SlotsLaws.antt =====
-- device_slot_registry.h: what a slot shows.
use text.Mathlib.Text.{◌==◌ as str_eq}
use rtc_framework.Base.{
  ℕ, ◌<◌, ◌≡◌, refl, true, false, not, ◌&&◌, ◌||◌, String, List, [], ◌∷◌, map, All, Bool-cases, inl,
  inr, is_empty, length, leb, ◌==◌, arith, if◌then◌else◌,
}
use rtc_framework.Base.Sorted.{IsAbove, put-IsAbove, erase-IsAbove}
use rtc_framework.Console.Slots.{
  DeviceSlot, DeviceSlotRegistry, configure, identify, disconnect, clear_slots, fill_slot,
  snapshot_slot,
}

-- The sessions that gave the name.
abbrev pub holders : String → List (ℕ × String) → List ℕ
holders name [] = []
holders name ((session_id, given) ∷ others) =
    if str_eq given name then session_id ∷ holders name others else holders name others

abbrev pub last_or : ℕ → List ℕ → ℕ
last_or x [] = x
last_or x (y ∷ ys) = last_or y ys

-- One session is shown, and of several none, as a conflict.
abbrev pub shown : String → List ℕ → DeviceSlot
shown name [] = record { device_id = name; session_id = 0; conflict = false }
shown name (x ∷ []) = record { device_id = name; session_id = x; conflict = false }
shown name (x ∷ y ∷ xs) = record { device_id = name; session_id = 0; conflict = true }

filled :
    (bound : ℕ) (identities : List (ℕ × String)) (slot : DeviceSlot)
    → IsAbove bound identities
    → let xs = holders slot.device_id identities in
      fill_slot identities slot ≡ record slot {
        session_id = last_or slot.session_id xs;
        conflict =
            slot.conflict
            || ((not (slot.session_id == 0) && leb 1 (length xs)) || leb 2 (length xs));
      }
unfolding fill_slot
filled bound [] slot v = ground arith
filled bound ((session_id, given) ∷ others) slot v =
    let taken : DeviceSlot = record slot {
      conflict = if not (slot.session_id == 0) then true else slot.conflict;
      session_id = session_id;
    } in
    ground (arith, filled session_id others slot v.1, filled session_id others taken v.1)

shown_as :
    (name : String) (identities : List (ℕ × String)) (xs : List ℕ)
    → holders name identities ≡ xs
    → IsAbove 0 identities
    → is_empty name ≡ false
    → snapshot_slot identities name ≡ shown name xs
unfolding snapshot_slot
shown_as name identities [] e v h =
    ground
      (arith, filled 0 identities (record { device_id = name; session_id = 0; conflict = false }) v)
shown_as name identities (x ∷ []) e v h =
    ground
      (arith, filled 0 identities (record { device_id = name; session_id = 0; conflict = false }) v)
shown_as name identities (x ∷ y ∷ xs) e v h =
    ground
      (arith, filled 0 identities (record { device_id = name; session_id = 0; conflict = false }) v)

unbound :
    (identities : List (ℕ × String)) (name : String)
    → is_empty name ≡ true
    → snapshot_slot identities name ≡ shown name []
unfolding snapshot_slot
unbound identities name h = ground arith

pub slots_shown :
    (identities : List (ℕ × String))
    → IsAbove 0 identities
    → (names : List String)
    → map (snapshot_slot identities) names
      ≡ map (λ name. shown name (if is_empty name then [] else holders name identities)) names
slots_shown identities v [] = refl
slots_shown identities v (name ∷ names) = elim (Bool-cases (is_empty name)) [
  | inl e ↦ rw (e, unbound identities name e, slots_shown identities v names) refl
  | inr e ↦
      rw
        (
          e,
          shown_as name identities (holders name identities) refl v e,
          slots_shown identities v names,
        )
        refl
]

-- What is called, by sessions that are not 0.
pub data Call : Type 0 where
  configures : List String → Call
  identifies : ℕ → String → Call
  disconnects : ℕ → Call
  clears : Call

abbrev pub HasSession : Call → Type 0
HasSession (identifies session_id name) = 0 < session_id
HasSession _ = Unit {0}

unfoldable pub do_calls : List Call → DeviceSlotRegistry → DeviceSlotRegistry
unfolding identify disconnect
do_calls [] r = r
do_calls (configures bindings ∷ cs) r = do_calls cs (configure bindings r)
do_calls (identifies session_id name ∷ cs) r = do_calls cs (identify session_id name r)
do_calls (disconnects session_id ∷ cs) r = do_calls cs (disconnect session_id r)
do_calls (clears ∷ cs) r = do_calls cs (clear_slots r)

pub calls-IsAbove :
    (cs : List Call) (r : DeviceSlotRegistry)
    → All HasSession cs
    → IsAbove 0 r.identities
    → IsAbove 0 (do_calls cs r).identities
unfolding do_calls identify disconnect
calls-IsAbove [] r h v = v
calls-IsAbove (configures bindings ∷ cs) r h v = calls-IsAbove cs (configure bindings r) h.1 v
calls-IsAbove (identifies session_id name ∷ cs) r h v =
    calls-IsAbove cs (identify session_id name r) h.1
      (put-IsAbove 0 session_id name r.identities h.0 v)
calls-IsAbove (disconnects session_id ∷ cs) r h v =
    calls-IsAbove cs (disconnect session_id r) h.1 (erase-IsAbove 0 session_id r.identities v)
calls-IsAbove (clears ∷ cs) r h v = calls-IsAbove cs (clear_slots r) h.1 tt
