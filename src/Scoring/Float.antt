-- ===== src/Scoring/Float.antt =====
-- float64 and package math, as a parameter, and what IEEE 754 promises of them.
use fraud_scoring_platform.Prelude.{Bool, true, false, ◌≡◌}

pub record Float64 : Type 1 where
  pub F : Type 0
  pub zero : F
  pub one : F
  pub add : F → F → F
  pub mul : F → F → F
  pub div : F → F → F
  pub neg : F → F
  pub exp : F → F
  -- `a <= b`, false if either is NaN.
  pub leq : F → F → Bool
  pub is_nan : F → Bool
  pub is_inf : F → Bool

-- Rounding keeps orders between numbers that are floats already.
pub record IsFloat64 (fl : Float64) : Type 0 where
  pub one_bounds : (fl.leq fl.zero fl.one ≡ true) × (fl.leq fl.one fl.one ≡ true)
  pub leq_total :
      (x : fl.F) → fl.is_nan x ≡ false → fl.leq fl.zero x ≡ false → fl.leq x fl.zero ≡ true
  pub neg_nonpos : (x : fl.F) → fl.leq fl.zero x ≡ true → fl.leq (fl.neg x) fl.zero ≡ true
  pub exp_bounds :
      (x : fl.F)
      → fl.leq x fl.zero ≡ true
      → (fl.leq fl.zero (fl.exp x) ≡ true) × (fl.leq (fl.exp x) fl.one ≡ true)
  pub one-le-add : (x : fl.F) → fl.leq fl.zero x ≡ true → fl.leq fl.one (fl.add fl.one x) ≡ true
  pub div_bounds :
      (a b : fl.F)
      → fl.leq fl.zero a ≡ true
      → fl.leq a fl.one ≡ true
      → fl.leq fl.one b ≡ true
      → (fl.leq fl.zero (fl.div a b) ≡ true) × (fl.leq (fl.div a b) fl.one ≡ true)
