-- ===== src/Base/Assoc.antt =====
-- `std::map` as an association list: keys are numbers, at most one entry for each.
use Prim.Native.Nat.{ℕ, suc, ◌≤◌}
use mathlib.Core.Path.{◌≡◌, refl}
use mathlib.Core.Option.{Option, none, some}
use mathlib.Core.List.{List, [], ◌∷◌}
use native.Mathlib.Omega.{arith}
use rtc_framework.Base.Tests.{◌==◌, if◌then◌else◌}
use rtc_framework.Base.Lists.{length}

module _ {ℓ} {V : Type ℓ} where
  unfoldable pub lookup : (key : ℕ) → List (ℕ × V) → Option V
  lookup key [] = none
  lookup key ((here, value) ∷ others) = if here == key then some value else lookup key others

  -- `m[key] = value`.
  unfoldable pub insert : (key : ℕ) → V → List (ℕ × V) → List (ℕ × V)
  insert key value [] = (key, value) ∷ []
  insert key value ((here, old) ∷ others) =
      let kept = insert key value others in
      if here == key then (key, value) ∷ others else (here, old) ∷ kept

  -- `m.erase(key)`.
  unfoldable pub erase : (key : ℕ) → List (ℕ × V) → List (ℕ × V)
  erase key [] = []
  erase key ((here, value) ∷ others) =
      let kept = erase key others in if here == key then kept else (here, value) ∷ kept

  pub lookup-insert :
      (key other : ℕ) (value : V) (entries : List (ℕ × V))
      → lookup other (insert key value entries)
        ≡ (if key == other then some value else lookup other entries)
  unfolding lookup insert
  lookup-insert key other value [] = refl
  lookup-insert key other value ((here, old) ∷ others) =
      ground (arith, lookup-insert key other value others)

  pub lookup-erase :
      (key other : ℕ) (entries : List (ℕ × V))
      → lookup other (erase key entries) ≡ (if key == other then none else lookup other entries)
  unfolding lookup erase
  lookup-erase key other [] = ground arith
  lookup-erase key other ((here, old) ∷ others) = ground (arith, lookup-erase key other others)

  pub length-erase : (k : ℕ) (m : List (ℕ × V)) → length (erase k m) ≤ length m
  unfolding erase
  length-erase k [] = omega arith
  length-erase k ((i, w) ∷ m) = ground (arith, length-erase k m)

  pub length-insert : (k : ℕ) (v : V) (m : List (ℕ × V)) → length (insert k v m) ≤ suc (length m)
  unfolding insert
  length-insert k v [] = omega arith
  length-insert k v ((i, w) ∷ m) = ground (arith, length-insert k v m)
