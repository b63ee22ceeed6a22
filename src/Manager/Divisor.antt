-- ===== src/Manager/Divisor.antt =====
-- rtc_videosource.hpp: the loop of `FitFrameSize` finds the greatest common divisor.
use native.Mathlib.Nat.{mul_comm, mul_assoc, div-add-mod', mod-eq-sub-div-mul, mul-sub}
use rtc_framework.Base.{
  ℕ, zero, suc, ◌+◌, ◌-◌, ◌*◌, ◌/◌, ◌%◌, ◌<◌, ◌≡◌, sym, ap, ◌∙◌, ◌==◌, arith, Bool-cases, inl, inr,
}
use rtc_framework.Manager.Frames.{divisor_loop}

-- The loop ends by its test, with a divisor of both.
pub record Divides (g d r : ℕ) : Type 0 where
  pub some_divisor : 0 < g
  pub first : ℕ
  pub second : ℕ
  pub first_is : d ≡ first * g
  pub second_is : r ≡ second * g

regroup : (a b c g : ℕ) → a * (b * g) + c * g ≡ (a * b + c) * g
regroup a b c g = grind arith

step-Divides : (g d r : ℕ) → 0 < r → Divides g r (d % r) → Divides g d r
step-Divides g d r h v = record {
  some_divisor = v.some_divisor;
  first = d / r * v.first + v.second;
  second = v.first;
  first_is =
      sym (div-add-mod' d r)
      ∙ ground (
        arith,
        ap (λ (t : ℕ). d / r * t) v.first_is,
        regroup (d / r) v.first v.second g,
        v.second_is,
      );
  second_is = v.first_is;
}

pub loop-Divides : (fuel d r : ℕ) → r < fuel → 0 < d → Divides (divisor_loop fuel d r) d r
unfolding divisor_loop
loop-Divides zero d r h p = elim h [ ]
loop-Divides (suc fuel) d r h p = elim (Bool-cases (r == 0)) [
  | inl done ↦ rw done (record {
    some_divisor = p;
    first = 1;
    second = 0;
    first_is = omega arith;
    second_is = ground arith;
  })
  | inr more ↦ rw more (
      step-Divides _ d r (ground arith) (loop-Divides fuel r (d % r) (ground arith) (ground arith)))
]

-- Every common divisor divides what the loop returns.
sub_product : (x c k : ℕ) → (x - c) * k ≡ x * k - c * k
sub_product x c k = mul_comm (x - c) k ∙ mul-sub k x c ∙ ground (arith, mul_comm k x, mul_comm k c)

step_factor : (d r k x y : ℕ) → d ≡ x * k → r ≡ y * k → d % r ≡ (x - d / r * y) * k
step_factor d r k x y e f =
    mod-eq-sub-div-mul d r
    ∙ ground
        (arith, ap (λ (t : ℕ). d / r * t) f, mul_assoc (d / r) y k, sub_product x (d / r * y) k)

pub loop_greatest :
    (fuel d r k x y : ℕ) → d ≡ x * k → r ≡ y * k → (z : ℕ) × (divisor_loop fuel d r ≡ z * k)
unfolding divisor_loop
loop_greatest zero d r k x y e f = (x, e)
loop_greatest (suc fuel) d r k x y e f = elim (Bool-cases (r == 0)) [
  | inl done ↦ (x, rw done e)
  | inr more ↦
      rw more (loop_greatest fuel r (d % r) k y (x - d / r * y) f (step_factor d r k x y e f))
]
