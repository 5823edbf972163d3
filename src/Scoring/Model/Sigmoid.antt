-- ===== src/Scoring/Model/Sigmoid.antt =====
-- The score is a probability.
use fraud_scoring_platform.Scoring.Float.{IsFloat64, Float64}
use fraud_scoring_platform.Scoring.Model.Kernel.{logit, score_lem, Scored}
use fraud_scoring_platform.Scoring.Model.{is_finite, Model, done, score, sigmoid}
use fraud_scoring_platform.Prelude.{inr, sym, inl, Bool-cases, subst, false, List, true, ◌≡◌, arith}

module _ (fl : Float64) (law : IsFloat64 fl) where
  abbrev pub IsProbability : fl.F → Type 0
  IsProbability p = (fl.leq fl.zero p ≡ true) × (fl.leq p fl.one ≡ true)

  pub sigmoid-IsProbability : (z : fl.F) → fl.is_nan z ≡ false → IsProbability (sigmoid fl z)
  unfolding sigmoid
  sigmoid-IsProbability z real = elim (Bool-cases (fl.leq fl.zero z)) [
    | inl up ↦
        let (lo, hi) = law.exp_bounds (fl.neg z) (law.neg_nonpos z up) in
        rw up (
          law.div_bounds fl.one (fl.add fl.one (fl.exp (fl.neg z))) law.one_bounds.0
            law.one_bounds.1 (law.one-le-add (fl.exp (fl.neg z)) lo))
    | inr down ↦
        let (lo, hi) = law.exp_bounds z (law.leq_total z real down) in
        rw down (
          law.div_bounds (fl.exp z) (fl.add fl.one (fl.exp z)) lo hi (law.one-le-add (fl.exp z) lo))
  ]

  pub finite-not_nan : (z : fl.F) → is_finite fl z ≡ true → fl.is_nan z ≡ false
  finite-not_nan z h = ground (arith, h)

  -- Over an arithmetic with the rounding that IEEE 754 promises, whatever `Score` returns without
  -- an error is at least 0 and at most 1.
  pub score-IsProbability :
      (m : Model fl.F) (xs : List fl.F) (p : fl.F) → score fl m xs ≡ done p → IsProbability p
  score-IsProbability m xs p h =
      let (_, _, finite, at) = subst (Scored fl m xs) h (score_lem fl m xs) in
      subst IsProbability (sym at) (
        sigmoid-IsProbability (logit fl m.intercept xs m.weights)
          (finite-not_nan (logit fl m.intercept xs m.weights) finite))
