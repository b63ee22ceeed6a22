-- ===== src/Base/Sorted.antt =====
-- `std::map` as an association list in the order of its keys.
use Prim.Native.Nat.{ℕ, ◌<◌, ◌≤◌}
use mathlib.Core.Path.{◌≡◌, refl}
use mathlib.Core.Logic.{◌≢◌}
use mathlib.Core.Option.{none, some}
use mathlib.Core.List.{List, [], ◌∷◌}
use native.Mathlib.Omega.{arith}
use rtc_framework.Base.Tests.{◌==◌, ltb, if◌then◌else◌}
use rtc_framework.Base.Assoc.{lookup, erase}

module _ {ℓ} {V : Type ℓ} where
  -- `m[key] = value`.
  unfoldable pub put : (key : ℕ) → V → List (ℕ × V) → List (ℕ × V)
  put key value [] = (key, value) ∷ []
  put key value ((here, old) ∷ others) =
      let kept = put key value others in
      if key == here
      then (key, value) ∷ others
      else if ltb key here
      then (key, value) ∷ (here, old) ∷ others
      else (here, old) ∷ kept

  -- Every key is above the bound, and each above the one before it.
  abbrev pub IsAbove : ℕ → List (ℕ × V) → Type 0
  IsAbove bound [] = Unit {0}
  IsAbove bound ((here, value) ∷ others) = (bound < here) × IsAbove here others

  pub lookup-put :
      (key other : ℕ) (value : V) (m : List (ℕ × V))
      → lookup other (put key value m) ≡ (if key == other then some value else lookup other m)
  unfolding lookup put
  lookup-put key other value [] = refl
  lookup-put key other value ((here, old) ∷ others) =
      ground (arith, lookup-put key other value others)

  pub put-IsAbove :
      (bound key : ℕ) (value : V) (m : List (ℕ × V))
      → bound < key
      → IsAbove bound m
      → IsAbove bound (put key value m)
  unfolding put
  put-IsAbove bound key value [] h v = ground arith
  put-IsAbove bound key value ((here, old) ∷ others) h v =
      ground (arith, put-IsAbove here key value others)

  weaken-IsAbove : (low high : ℕ) (m : List (ℕ × V)) → low < high → IsAbove high m → IsAbove low m
  weaken-IsAbove low high [] h v = tt
  weaken-IsAbove low high ((here, old) ∷ others) h v = ground arith

  pub erase-IsAbove :
      (bound key : ℕ) (m : List (ℕ × V)) → IsAbove bound m → IsAbove bound (erase key m)
  unfolding erase
  erase-IsAbove bound key [] v = tt
  erase-IsAbove bound key ((here, old) ∷ others) v =
      ground
        (arith, erase-IsAbove here key others v.1, weaken-IsAbove bound here (erase key others) v.0)

  pub lookup-above :
      (bound key : ℕ) (m : List (ℕ × V)) → IsAbove bound m → lookup key m ≢ none → bound < key
  unfolding lookup
  lookup-above bound key [] v h = ground arith
  lookup-above bound key ((here, old) ∷ others) v h =
      ground (arith, lookup-above here key others v.1)

  -- The keys ascend.
  abbrev pub IsAscending : List (ℕ × V) → Type 0
  IsAscending [] = Unit {0}
  IsAscending ((here, value) ∷ others) = IsAbove here others

  pub put-IsAscending :
      (key : ℕ) (value : V) (m : List (ℕ × V)) → IsAscending m → IsAscending (put key value m)
  unfolding put
  put-IsAscending key value [] h = tt
  put-IsAscending key value ((here, old) ∷ others) h =
      ground (arith, put-IsAbove here key value others)

  pub ascending : (bound : ℕ) (m : List (ℕ × V)) → IsAbove bound m → IsAscending m
  ascending bound [] v = tt
  ascending bound ((here, old) ∷ others) v = v.1

  pub erase-IsAscending : (key : ℕ) (m : List (ℕ × V)) → IsAscending m → IsAscending (erase key m)
  unfolding erase
  erase-IsAscending key [] h = tt
  erase-IsAscending key ((here, old) ∷ others) h =
      ground (arith, erase-IsAbove here key others h, ascending here (erase key others))

  pub absent_below :
      (bound key : ℕ) (m : List (ℕ × V)) → IsAbove bound m → key ≤ bound → lookup key m ≡ none
  unfolding lookup
  absent_below bound key [] v h = refl
  absent_below bound key ((here, old) ∷ others) v h =
      ground (arith, absent_below here key others v.1)
