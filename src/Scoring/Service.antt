-- ===== src/Scoring/Service.antt =====
-- `New`, `Score` and `Ready` of internal/scoring.
pub mod Total
use fraud_scoring_platform.Scoring.Float.{Float64}
use fraud_scoring_platform.Scoring.Model.{
  Model, Result, done, fail, panic, score, ScoreError, non_finite_logit, feature_count,
  non_finite_feature,
}
use fraud_scoring_platform.Scoring.Vector.{Features, FeatureError, vector_for}
use fraud_scoring_platform.Prelude.{
  String, Bool, true, false, Option, none, some, List, ◌⊎◌, inl, inr,
}

-- `Time` is what `now` returns.
pub record Service (F Time : Type 0) : Type 0 where
  pub model : Model F
  pub now : Time

pub record ScoreResult (F Time : Type 0) : Type 0 where
  pub score : F
  pub model_version : String
  pub scored_at : Time

-- A `ClientError` with its cause, or an error of the model that is passed on.
pub data ServiceError : Type 0 where
  bad_feature : FeatureError → ServiceError
  too_large : ServiceError
  internal : ScoreError → ServiceError

-- Whether errors.As finds a `ClientError`.
abbrev pub is_client_error : ServiceError → Bool
is_client_error (internal _) = false
is_client_error _ = true

-- none is a nil model or service.
unfoldable pub new_service : {F Time : Type 0} → Option (Model F) → Time → Option (Service F Time)
new_service none now = none
new_service (some m) now = some (record { model = m; now = now })

-- `Ready`, of the pointer `s.model`; `new_service` leaves none that is nil.
abbrev pub is_ready : {F : Type 0} → Option (Model F) → Bool
is_ready none = false
is_ready (some m) = true

abbrev pub classify : ScoreError → ServiceError
classify non_finite_logit = too_large
classify e = internal e

module _ (fl : Float64) {Time : Type 0} where
  abbrev pub with_time :
      Service fl.F Time → Result ScoreError fl.F → Result ServiceError (ScoreResult fl.F Time)
  with_time s (done p) =
      done (record { score = p; model_version = s.model.version; scored_at = s.now })
  with_time s (fail e) = fail (classify e)
  with_time s panic = panic

  abbrev score_vector :
      Service fl.F Time → FeatureError ⊎ List fl.F → Result ServiceError (ScoreResult fl.F Time)
  score_vector s (inl e) = fail (bad_feature e)
  score_vector s (inr xs) = with_time s (score fl s.model xs)

  unfoldable pub score_features :
      (List String → List String)
      → Service fl.F Time
      → Features fl.F
      → Result ServiceError (ScoreResult fl.F Time)
  score_features sort s features = score_vector s (vector_for fl sort s.model features)
