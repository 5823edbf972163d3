-- ===== src/Scoring/Service/Total.antt =====
-- `Score` of internal/scoring/scoring.go with a model that has been validated.
use fraud_scoring_platform.Scoring.Vector.Fault.{ReadsAll}
use fraud_scoring_platform.Scoring.Vector.Order.{Vectored, vector_for_lem, IsSort}
use fraud_scoring_platform.Scoring.Vector.{vector_for, FeatureError, lookup, Features}
use fraud_scoring_platform.Scoring.Float.{Float64}
use fraud_scoring_platform.Scoring.Service.{
  Service, ScoreResult, ServiceError, bad_feature, too_large, internal, with_time, score_vector,
  score_features,
}
use fraud_scoring_platform.Scoring.Model.Kernel.{
  IsModel, AllFinite, FirstBad, Scored, score_lem, logit,
}
use fraud_scoring_platform.Scoring.Model.{
  is_finite, sigmoid, Result, done, fail, panic, ScoreError, feature_count, non_finite_feature,
  non_finite_logit, score,
}
use fraud_scoring_platform.Prelude.{
  true, false, sym, inr, ◌∙◌, ap, inl, Elem, zero, none, [], ◌≢◌, ◌⊎◌, suc, ◌≡◌, length, ◌∷◌, ℕ,
  String, List, refl,
}

module _ (fl : Float64) where
  ReadsAll-AllFinite :
      (fs : Features fl.F) (ns : List String) (xs : List fl.F)
      → ReadsAll fl fs ns xs
      → (length xs ≡ length ns) × AllFinite fl xs
  ReadsAll-AllFinite fs [] [] h = (refl, tt)
  ReadsAll-AllFinite fs [] (x ∷ xs) h = elim h [ ]
  ReadsAll-AllFinite fs (n ∷ ns) [] h = elim h [ ]
  ReadsAll-AllFinite fs (n ∷ ns) (x ∷ xs) h =
      let (len, all) = ReadsAll-AllFinite fs ns xs h.1 in (ap suc len, (h.0.1, all))

  AllFinite-not_bad : (xs : List fl.F) (k : ℕ) → AllFinite fl xs → ¬ FirstBad fl xs k
  AllFinite-not_bad [] k h b = cc (b.here)
  AllFinite-not_bad (x ∷ xs) zero h b = cc (b.here, b.bad, h.0)
  AllFinite-not_bad (x ∷ xs) (suc k) h b =
      AllFinite-not_bad xs k h.1
        (record { before = b.before.1; value = b.value; here = b.here; bad = b.bad })

module _ (fl : Float64) {Time : Type 0} (Le : String → String → Type 0)
    (sort : List String → List String) (law : IsSort Le sort) (s : Service fl.F Time)
    (valid : IsModel fl s.model) where
  -- What the service answers, by the branch that it takes.
  abbrev pub Served : Features fl.F → Result ServiceError (ScoreResult fl.F Time) → Type 0
  Served fs (done r) =
      (xs : List fl.F) × ReadsAll fl fs s.model.feature_order xs
      × ((k : String) → lookup fs k ≢ none → Elem k s.model.feature_order)
      × (is_finite fl (logit fl s.model.intercept xs s.model.weights) ≡ true)
      × (r ≡ record {
        score = sigmoid fl (logit fl s.model.intercept xs s.model.weights);
        model_version = s.model.version;
        scored_at = s.now;
      })
  Served fs (fail (bad_feature e)) = Vectored fl Le sort law s.model fs (inl e)
  Served fs (fail too_large) =
      (xs : List fl.F) × ReadsAll fl fs s.model.feature_order xs
      × ((k : String) → lookup fs k ≢ none → Elem k s.model.feature_order)
      × (is_finite fl (logit fl s.model.intercept xs s.model.weights) ≡ false)
  Served fs (fail (internal e)) = ⊥
  Served fs panic = ⊥

  with_time_lem :
      (fs : Features fl.F) (xs : List fl.F) (r : Result ScoreError fl.F)
      → ReadsAll fl fs s.model.feature_order xs
      → ((k : String) → lookup fs k ≢ none → Elem k s.model.feature_order)
      → Scored fl s.model xs r
      → Served fs (with_time fl s r)
  with_time_lem fs xs (done p) reads known h = (xs, reads, known, h.2, cc (h.3))
  with_time_lem fs xs (fail non_finite_logit) reads known h = (xs, reads, known, h.2)
  with_time_lem fs xs (fail (feature_count got want)) reads known h = h.2 (
      h.0
      ∙ (ReadsAll-AllFinite fl fs s.model.feature_order xs reads).0
      ∙ sym valid.aligned
      ∙ sym h.1)
  with_time_lem fs xs (fail (non_finite_feature k)) reads known h =
      AllFinite-not_bad fl xs k (ReadsAll-AllFinite fl fs s.model.feature_order xs reads).1 h.1
  with_time_lem fs xs panic reads known h = h

  score_vector_lem :
      (fs : Features fl.F) (v : FeatureError ⊎ List fl.F)
      → Vectored fl Le sort law s.model fs v
      → Served fs (score_vector fl s v)
  score_vector_lem fs (inl e) h = h
  score_vector_lem fs (inr xs) h =
      with_time_lem fs xs (score fl s.model xs) h.0 h.1 (score_lem fl s.model xs)

  -- With a model that `validate` would accept and names sorted by a sort that keeps them and puts a
  -- least one, by an antisymmetric order, in front: `Score` never panics and never returns an error
  -- that is not the client's. It returns the sigmoid of the weighted sum with the model's version
  -- and the time, for features that are exactly the expected ones, each a finite number; that they
  -- are too large, for such features whose weighted sum is not finite; or the error of the first
  -- feature that is wrong or, if none is, of the least unknown one.
  pub score_features_lem : (fs : Features fl.F) → Served fs (score_features fl sort s fs)
  unfolding score_features
  score_features_lem fs =
      score_vector_lem fs (vector_for fl sort s.model fs) (vector_for_lem fl Le sort law s.model fs)
