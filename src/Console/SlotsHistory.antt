-- ===== src/Console/SlotsHistory.antt =====
-- device_slot_registry.h: what a slot shows, by the calls alone.
use text.Mathlib.Text.{◌==◌ as str_eq}
use rtc_framework.Base.{
  ℕ, ◌<◌, ◌≡◌, refl, false, ◌||◌, String, List, [], ◌∷◌, map, All, is_empty, ◌==◌, arith,
  if◌then◌else◌, Bool, Option, none, some, ap, ◌∙◌,
}
use rtc_framework.Base.Assoc.{lookup, lookup-erase}
use rtc_framework.Base.Sorted.{IsAbove, lookup-put, absent_below}
use rtc_framework.Console.Slots.{
  DeviceSlot, DeviceSlotRegistry, new_slots, configure, identify, disconnect, clear_slots, snapshot,
}
use rtc_framework.Console.SlotsLaws.{
  holders, shown, slots_shown, Call, configures, identifies, disconnects, clears, HasSession,
  do_calls, calls-IsAbove,
}

-- The name that a session gave last, if since then it was not disconnected nor all
-- names cleared; and the names that are bound to the slots.
abbrev pub named : ℕ → List Call → Option String → Option String
named x [] was = was
named x (configures bindings ∷ cs) was = named x cs was
named x (identifies session_id name ∷ cs) was =
    named x cs (if session_id == x then some name else was)
named x (disconnects session_id ∷ cs) was = named x cs (if session_id == x then none else was)
named x (clears ∷ cs) was = named x cs none

abbrev pub bound_names : List Call → List String → List String
bound_names [] was = was
bound_names (configures bindings ∷ cs) was = bound_names cs bindings
bound_names (_ ∷ cs) was = bound_names cs was

abbrev pub is_name : String → Option String → Bool
is_name name none = false
is_name name (some given) = str_eq given name

abbrev pub among : ℕ → List ℕ → Bool
among x [] = false
among x (y ∷ ys) = (y == x) || among x ys

abbrev pub Ascend : ℕ → List ℕ → Type 0
Ascend bound [] = Unit {0}
Ascend bound (x ∷ xs) = (bound < x) × Ascend x xs

-- The sessions whose name it is, each once, are what the slot shows.
abbrev pub Shows : List Call → String → DeviceSlot → Type 0
Shows cs name slot =
    (xs : List ℕ) × Ascend 0 xs
    × ((x : ℕ) → among x xs ≡ is_name name (named x cs none))
    × (slot ≡ shown name (if is_empty name then [] else xs))

abbrev pub ShowEach : List Call → List String → List DeviceSlot → Type 0
ShowEach cs [] [] = Unit {0}
ShowEach cs (name ∷ names) (slot ∷ slots) = Shows cs name slot × ShowEach cs names slots
ShowEach cs _ _ = ⊥

lookup-calls :
    (x : ℕ) (cs : List Call) (r : DeviceSlotRegistry)
    → lookup x (do_calls cs r).identities ≡ named x cs (lookup x r.identities)
unfolding do_calls identify disconnect lookup
lookup-calls x [] r = refl
lookup-calls x (configures bindings ∷ cs) r = lookup-calls x cs (configure bindings r)
lookup-calls x (identifies session_id name ∷ cs) r =
    rw (lookup-calls x cs (identify session_id name r), lookup-put session_id x name r.identities)
      refl
lookup-calls x (disconnects session_id ∷ cs) r =
    rw (lookup-calls x cs (disconnect session_id r), lookup-erase session_id x r.identities) refl
lookup-calls x (clears ∷ cs) r = lookup-calls x cs (clear_slots r)

bindings-calls :
    (cs : List Call) (r : DeviceSlotRegistry) → (do_calls cs r).bindings ≡ bound_names cs r.bindings
unfolding do_calls identify disconnect
bindings-calls [] r = refl
bindings-calls (configures bindings ∷ cs) r = bindings-calls cs (configure bindings r)
bindings-calls (identifies session_id name ∷ cs) r = bindings-calls cs (identify session_id name r)
bindings-calls (disconnects session_id ∷ cs) r = bindings-calls cs (disconnect session_id r)
bindings-calls (clears ∷ cs) r = bindings-calls cs (clear_slots r)

among-holders :
    (x bound : ℕ) (name : String) (identities : List (ℕ × String))
    → IsAbove bound identities
    → among x (holders name identities) ≡ is_name name (lookup x identities)
unfolding lookup
among-holders x bound name [] v = refl
among-holders x bound name ((session_id, given) ∷ others) v =
    ground (arith, among-holders x session_id name others v.1, absent_below session_id x others v.1)

weaken-Ascend : (low high : ℕ) (xs : List ℕ) → low < high → Ascend high xs → Ascend low xs
weaken-Ascend low high [] h v = tt
weaken-Ascend low high (x ∷ xs) h v = ground arith

holders-Ascend :
    (bound : ℕ) (name : String) (identities : List (ℕ × String))
    → IsAbove bound identities
    → Ascend bound (holders name identities)
holders-Ascend bound name [] v = tt
holders-Ascend bound name ((session_id, given) ∷ others) v = ground (
  arith,
  holders-Ascend session_id name others v.1,
  weaken-Ascend bound session_id (holders name others) v.0,
)

each_shown :
    (cs : List Call) (identities : List (ℕ × String)) (names : List String)
    → IsAbove 0 identities
    → ((x : ℕ) → lookup x identities ≡ named x cs none)
    → ShowEach cs names
        (map (λ name. shown name (if is_empty name then [] else holders name identities)) names)
each_shown cs identities [] v same = tt
each_shown cs identities (name ∷ names) v same = (
  (
    holders name identities,
    holders-Ascend 0 name identities v,
    λ x. among-holders x 0 name identities v ∙ ap (is_name name) (same x),
    refl,
  ),
  each_shown cs identities names v same,
)

-- After any calls by sessions that are not 0: for each name that was bound last there are the sessions
-- that gave this name last and were neither disconnected nor cleared since, each once. A slot whose name is
-- empty shows none; any other shows the session if it is one, none if there is none, and a conflict
-- with no session if they are several.
pub snapshot_shows_holders :
    (cs : List Call)
    → All HasSession cs
    → ShowEach cs (bound_names cs new_slots.bindings) (snapshot (do_calls cs new_slots))
unfolding lookup
snapshot_shows_holders cs h =
    let r = do_calls cs new_slots in
    let v = calls-IsAbove cs new_slots h tt in
    rw (slots_shown r.identities v r.bindings, bindings-calls cs new_slots)
      (each_shown cs r.identities (bound_names cs new_slots.bindings) v
        (λ x. lookup-calls x cs new_slots))
