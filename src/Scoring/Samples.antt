-- ===== src/Scoring/Samples.antt =====
-- A small arithmetic, a model and features, for the tests.
use fraud_scoring_platform.Scoring.Model.Kernel.{IsModel}
use fraud_scoring_platform.Scoring.Model.{Model}
use fraud_scoring_platform.Scoring.Vector.{number, Features}
use fraud_scoring_platform.Scoring.Service.{Service}
use fraud_scoring_platform.Scoring.Float.{Float64, IsFloat64}
use fraud_scoring_platform.Prelude.{false, leb, if◌then◌else◌, ◌*◌, [], ◌+◌, ◌∷◌, ℕ, arith, refl}

-- Whole numbers from 0 up to 999, and infinite ones above.
abbrev pub small : Float64
small = record {
  F = ℕ;
  zero = 0;
  one = 1;
  add = λ a b. a + b;
  mul = λ a b. a * b;
  div = λ a b. if leb b a then 1 else 0;
  neg = λ a. 0;
  exp = λ a. 1;
  leq = leb;
  is_nan = λ a. false;
  is_inf = λ a. leb 1000 a;
}

pub small-IsFloat64 : IsFloat64 small
small-IsFloat64 = record {
  one_bounds = (refl, refl);
  leq_total = λ x r h. ground (arith, h);
  neg_nonpos = λ x h. refl;
  exp_bounds = λ x h. (refl, refl);
  one-le-add = λ x h. ground arith;
  div_bounds = λ a b lo hi one. (ground arith, ground arith);
}

abbrev pub artifact : Model ℕ
artifact = record {
  version = "v1";
  created_at = "today";
  feature_order = "amount" ∷ "age" ∷ [];
  weights = 3 ∷ 2 ∷ [];
  intercept = 1;
}

pub artifact-IsModel : IsModel small artifact
artifact-IsModel = record {
  version = λ e. cc e;
  some_feature = omega arith;
  aligned = refl;
  finite_weights = (refl, (refl, tt));
  finite_intercept = refl;
}

abbrev pub service : Service ℕ ℕ
service = record { model = artifact; now = 7 }

abbrev pub given : Features ℕ
given = ("age", number 40) ∷ ("amount", number 100) ∷ []
