-- ===== src/Base/Float32.antt =====
-- IEEE 754 binary32 values (`float`) as their 32-bit patterns, with the comparisons of C++.
use Prim.Native.Nat.{ℕ, ◌+◌, ◌/◌, ◌%◌, ◌≤◌, ◌<◌}
use mathlib.Core.Path.{◌≡◌}
use mathlib.Core.Logic.{◌↔◌, ◌⊎◌}
use mathlib.Core.Bool.{Bool, false, not, ◌&&◌, ◌||◌}
use native.Mathlib.Omega.{arith}
use rtc_framework.Base.Tests.{ltb, ◌==◌, if◌then◌else◌}

abbrev pub Float : Type 0
Float = ℕ

abbrev pub zero_f : Float
zero_f = 0

-- 1.0f
abbrev pub one_f : Float
one_f = 0x3f800000

abbrev pub is_negative : Float → Bool
is_negative f = f / 2147483648 % 2 == 1

abbrev pub exponent : Float → ℕ
exponent f = f / 8388608 % 256

abbrev pub magnitude : Float → ℕ
magnitude f = f % 2147483648

-- `std::isfinite`: the exponent is not all ones.
unfoldable pub is_finite : Float → Bool
is_finite f = not (exponent f == 255)

unfoldable pub is_nan : Float → Bool
is_nan f = ltb 2139095040 (magnitude f)

-- `a < b`: false if either is not a number; the two zeros are equal.
unfoldable pub lt_float : Float → Float → Bool
unfolding is_nan
lt_float a b =
    not (is_nan a)
    && (not (is_nan b)
        && (if is_negative a
            then (if is_negative b
                then ltb (magnitude b) (magnitude a)
                else (not (magnitude a == 0) || not (magnitude b == 0)))
            else (if is_negative b then false else ltb (magnitude a) (magnitude b))))

-- `a <= b` and `a == b`.
unfoldable pub le_float : Float → Float → Bool
unfolding is_nan lt_float
le_float a b = not (is_nan a) && (not (is_nan b) && not (lt_float b a))

unfoldable pub eq_float : Float → Float → Bool
unfolding is_nan
eq_float a b =
    not (is_nan a) && (not (is_nan b) && ((a == b) || ((magnitude a == 0) && (magnitude b == 0))))

-- `-a`: the sign bit is turned over.
unfoldable pub neg_float : Float → Float
neg_float a = (a + 2147483648) % 4294967296

-- The patterns of the values from 0 to 1: from +0 up to 1, and -0.
abbrev pub IsUnit01 : Float → Type 0
IsUnit01 f = (f ≤ one_f) ⊎ (f ≡ 0x80000000)

-- `!isfinite(f) || f < 0 || f > 1` fails for just these.
pub in_range_iff :
    (f : Float)
    → f < 4294967296
    → ((not (is_finite f) || (lt_float f zero_f || lt_float one_f f)) ≡ false) ↔ IsUnit01 f
unfolding is_finite lt_float
in_range_iff f h = ground arith
