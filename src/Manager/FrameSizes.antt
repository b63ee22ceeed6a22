-- ===== src/Manager/FrameSizes.antt =====
-- rtc_videosource.hpp: the size that `FitFrameSize` chooses.
use native.Mathlib.Nat.{le-div_iff_mul-le, mul-le-mul_left, mul_comm, mul_assoc, mul-div_cancel}
use rtc_framework.Base.{
  ℕ, zero, suc, ◌-◌, ◌*◌, ◌/◌, ◌%◌, ◌≤◌, ◌<◌, ◌≡◌, refl, Bool, true, false, ◌&&◌, leb, ltb, ◌==◌,
  arith, if◌then◌else◌, Bool-cases, inl, inr,
}
use rtc_framework.Manager.Frames.{divisor_of, scaled, fit_frame_size}
use rtc_framework.Manager.Divisor.{Divides, loop-Divides, loop_greatest}

pub record Fits (width height max_width max_height : ℕ) (size : ℕ × ℕ) : Type 0 where
  pub same_ratio : width * size.1 ≡ height * size.0
  pub in_width : size.0 ≤ max_width
  pub in_height : size.1 ≤ max_height
  pub not_wider : size.0 ≤ width
  pub not_higher : size.1 ≤ height

factor_pos : (a g : ℕ) → 0 < a * g → 0 < a
factor_pos zero g h = grind arith
factor_pos (suc a) g h = omega arith

-- What is chosen of the multiples.
abbrev even_multiple : ℕ → ℕ → ℕ
even_multiple m n = let smaller = if ltb m n then m else n in smaller - smaller % 2

even_multiple_lem :
    (m n : ℕ) → (even_multiple m n ≤ m) × (even_multiple m n ≤ n) × (even_multiple m n % 2 ≡ 0)
even_multiple_lem m n = ground arith

if_no {ℓ} : {A : Type ℓ} (c : Bool) (x y : A) → c ≡ false → (if c then x else y) ≡ y
if_no true x y h = cc
if_no false x y h = refl

module _ (a b g max_width max_height : ℕ) (some_a : 0 < a) (some_b : 0 < b) (some_g : 0 < g) where
  multiple : ℕ
  multiple = even_multiple (max_width / a) (max_height / b)

  scaled_at :
      scaled g (a * g) (b * g) max_width max_height
      ≡ (if multiple == 0 then (a * g, b * g) else (a * multiple, b * multiple))
  unfolding scaled multiple
  scaled_at = rw (mul-div_cancel a some_g) (rw (mul-div_cancel b some_g) refl)

  below_width : a * multiple ≤ max_width
  unfolding multiple
  below_width = ground (
    arith,
    (le-div_iff_mul-le {x = multiple} {y = max_width} some_a).0
        (even_multiple_lem (max_width / a) (max_height / b)).0,
    mul_comm a multiple,
  )

  below_height : b * multiple ≤ max_height
  unfolding multiple
  below_height = ground (
    arith,
    (le-div_iff_mul-le {x = multiple} {y = max_height} some_b).0
        (even_multiple_lem (max_width / a) (max_height / b)).1,
    mul_comm b multiple,
  )

  no_larger : (leb (a * g) max_width && leb (b * g) max_height) ≡ false → multiple ≤ g
  no_larger h = elim (Bool-cases (leb multiple g)) [
    | inl small ↦ ground arith
    | inr large ↦ absurd (
        ground (
          arith,
          mul-le-mul_left {m = g} {n = multiple} a (ground arith),
          mul-le-mul_left {m = g} {n = multiple} b (ground arith),
          below_width,
          below_height,
        ))
  ]

  some_multiple : 2 * a ≤ max_width → 2 * b ≤ max_height → 0 < multiple
  unfolding multiple
  some_multiple h k = ground (
    arith,
    (le-div_iff_mul-le {x = 2} {y = max_width} some_a).1 h,
    (le-div_iff_mul-le {x = 2} {y = max_height} some_b).1 k,
  )

  even_below : (j : ℕ) → 2 * j * a ≤ max_width → 2 * j * b ≤ max_height → 2 * j ≤ multiple
  unfolding multiple
  even_below j h k = ground (
    arith,
    (le-div_iff_mul-le {x = 2 * j} {y = max_width} some_a).1 h,
    (le-div_iff_mul-le {x = 2 * j} {y = max_height} some_b).1 k,
  )

  ratio_kept : a * g * (b * multiple) ≡ b * g * (a * multiple)
  ratio_kept = grind (arith, mul_assoc, mul_comm)

  -- The size that is returned, once its lowest terms are known.
  abbrev size : ℕ × ℕ
  size =
      if leb (a * g) max_width && leb (b * g) max_height
      then (a * g, b * g)
      else scaled g (a * g) (b * g) max_width max_height

  size-Fits :
      2 * a ≤ max_width → 2 * b ≤ max_height → Fits (a * g) (b * g) max_width max_height size
  size-Fits h k = elim (Bool-cases (leb (a * g) max_width && leb (b * g) max_height)) [
    | inl small ↦ rw small (record {
      same_ratio = mul_comm (a * g) (b * g);
      in_width = ground arith;
      in_height = ground arith;
      not_wider = omega arith;
      not_higher = omega arith;
    })
    | inr large ↦
        let some_m = some_multiple h k in
        let less = no_larger large in
        rw (large, scaled_at, if_no (multiple == 0) _ _ (ground arith))
          (record {
            same_ratio = ratio_kept;
            in_width = below_width;
            in_height = below_height;
            not_wider = mul-le-mul_left a less;
            not_higher = mul-le-mul_left b less;
          })
  ]

  -- No even multiple of the lowest terms that fits is wider.
  size_widest :
      2 * a ≤ max_width
      → 2 * b ≤ max_height
      → (j : ℕ) → 2 * j * a ≤ max_width
      → 2 * j * b ≤ max_height
      → 2 * j * a ≤ a * g
      → 2 * j * a ≤ size.0
  size_widest h k j hw hh hg = elim (Bool-cases (leb (a * g) max_width && leb (b * g) max_height)) [
    | inl small ↦ rw small hg
    | inr large ↦
        rw (large, scaled_at, if_no (multiple == 0) _ _ (ground (arith, some_multiple h k)))
          (ground (arith, mul-le-mul_left a (even_below j hw hh), mul_comm a (2 * j)))
  ]

abbrev pub Widest : ℕ → ℕ → ℕ → ℕ → ℕ → ℕ × ℕ → Type 0
Widest a b width max_width max_height size =
    (j : ℕ)
    → 2 * j * a ≤ max_width
    → 2 * j * b ≤ max_height
    → 2 * j * a ≤ width
    → 2 * j * a ≤ size.0

at_terms :
    (w h a b g max_width max_height : ℕ)
    → w ≡ a * g
    → h ≡ b * g
    → 0 < w
    → 0 < h
    → 0 < g
    → 2 * (w / g) ≤ max_width
    → 2 * (h / g) ≤ max_height
    → let size =
        if leb w max_width && leb h max_height then (w, h) else scaled g w h max_width max_height in
      Fits w h max_width max_height size × Widest (w / g) (h / g) w max_width max_height size
at_terms w h a b g max_width max_height e f pw ph pg kw kh =
    let some_a : 0 < a = factor_pos a g (rw (← e) pw) in
    let some_b : 0 < b = factor_pos b g (rw (← f) ph) in
    let ea : a * g / g ≡ a = mul-div_cancel a pg in
    let eb : b * g / g ≡ b = mul-div_cancel b pg in
    let ka : 2 * a ≤ max_width = rw (← ea) (rw (← e) kw) in
    let kb : 2 * b ≤ max_height = rw (← eb) (rw (← f) kh) in
    rw (e, f, ea, eb)
      (
        size-Fits a b g max_width max_height some_a some_b pg ka kb,
        size_widest a b g max_width max_height some_a some_b pg ka kb,
      )

quotient_pos : (w a g : ℕ) → w ≡ a * g → 0 < w → 0 < g → 0 < w / g
quotient_pos w a g e p q =
    let ea : a * g / g ≡ a = mul-div_cancel a q in rw (e, ea) (factor_pos a g (rw (← e) p))

fit_open :
    (w h max_width max_height : ℕ)
    → 0 < w
    → 0 < h
    → 0 < max_width
    → 0 < max_height
    → fit_frame_size w h max_width max_height ≡ (
        if leb w max_width && leb h max_height
        then (w, h)
        else scaled (divisor_of w h) w h max_width max_height)
unfolding fit_frame_size
fit_open w h max_width max_height pw ph qw qh = ground arith

-- For a frame with a width and a height, and limits in which twice its lowest terms fit: the size that is
-- chosen has the ratio of the frame, lies within both limits, is not larger than the frame, and is at
-- least as wide as every even multiple of the lowest terms that does all this. The terms are the lowest:
-- every common divisor of the width and the height divides the one that the loop finds.
pub fit_frame_size_best :
    (w h max_width max_height : ℕ)
    → 0 < w
    → 0 < h
    → let g = divisor_of w h in
      2 * (w / g) ≤ max_width
      → 2 * (h / g) ≤ max_height
      → let size = fit_frame_size w h max_width max_height in
        Fits w h max_width max_height size
        × Widest (w / g) (h / g) w max_width max_height size
        × ((k x y : ℕ) → w ≡ x * k → h ≡ y * k → (z : ℕ) × (divisor_of w h ≡ z * k))
unfolding divisor_of
fit_frame_size_best w h max_width max_height pw ph kw kh =
    let g : ℕ = divisor_of w h in
    let d : Divides g w h = loop-Divides (suc h) w h (omega arith) pw in
    let qw : 0 < w / g = quotient_pos w d.first g d.first_is pw d.some_divisor in
    let qh : 0 < h / g = quotient_pos h d.second g d.second_is ph d.some_divisor in
    let (fits, widest) =
      at_terms w h d.first d.second g max_width max_height d.first_is d.second_is pw ph
        d.some_divisor kw kh in
    let opened = fit_open w h max_width max_height pw ph (omega arith) (omega arith) in
    (rw opened fits, rw opened widest, loop_greatest (suc h) w h)
