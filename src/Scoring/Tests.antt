-- ===== src/Scoring/Tests.antt =====
-- The scoring service at concrete inputs.
use fraud_scoring_platform.Scoring.Vector.Fault.{SameMap}
use fraud_scoring_platform.Scoring.Model.Sigmoid.{score-IsProbability, IsProbability}
use fraud_scoring_platform.Scoring.Vector.Order.{vector_for-SameMap, vector_for_lem, Vectored}
use fraud_scoring_platform.Scoring.Model.Kernel.{score_lem, validate_model_lem, Validated, Scored}
use fraud_scoring_platform.Scoring.Model.{
  done, sigmoid, check_weights, accumulate, validate_model, score,
}
use fraud_scoring_platform.Scoring.Vector.{
  feature_unknown, feature_error, unknown_names, number_of, nil, numbers, number, vector_for,
  Features,
}
use fraud_scoring_platform.Scoring.Service.{score_features}
use fraud_scoring_platform.Scoring.Service.Total.{score_features_lem, Served}
use fraud_scoring_platform.Scoring.Strings.{sort_strings, sort_strings-IsSort, LeStr}
use fraud_scoring_platform.Prelude.{inl, [], ◌≡◌, eq_iff, ◌∷◌, ℕ, arith, refl}
use fraud_scoring_platform.Scoring.Samples.{
  small, small-IsFloat64, artifact, artifact-IsModel, service, given,
}

artifact_valid : validate_model small artifact ≡ done tt
unfolding validate_model check_weights
artifact_valid = refl

abbrev shuffled : Features ℕ
shuffled = ("amount", number 100) ∷ ("age", number 40) ∷ []

abbrev strange : Features ℕ
strange = ("b", nil) ∷ ("age", number 40) ∷ ("a", nil) ∷ ("amount", number 100) ∷ []

scored :
    score_features small sort_strings service given
    ≡ done (record { score = 0; model_version = "v1"; scored_at = 7 })
unfolding score_features vector_for numbers number_of unknown_names score accumulate sigmoid
scored = refl

least_unknown :
    vector_for small sort_strings artifact strange ≡ inl (feature_error feature_unknown "a")
unfolding vector_for numbers number_of unknown_names
least_unknown = refl

validate_model_example : Validated small artifact (validate_model small artifact)
validate_model_example = validate_model_lem small artifact

score_example : Scored small artifact (100 ∷ 40 ∷ []) (score small artifact (100 ∷ 40 ∷ []))
score_example = score_lem small artifact (100 ∷ 40 ∷ [])

score-IsProbability_example : IsProbability small small-IsFloat64 0
unfolding score accumulate sigmoid
score-IsProbability_example =
    score-IsProbability small small-IsFloat64 artifact (100 ∷ 40 ∷ []) 0 refl

vector_for_example :
    Vectored small LeStr sort_strings sort_strings-IsSort artifact strange
      (vector_for small sort_strings artifact strange)
vector_for_example = vector_for_lem small LeStr sort_strings sort_strings-IsSort artifact strange

shuffled_same : SameMap given shuffled
shuffled_same k = ground (arith, eq_iff "age" k, eq_iff "amount" k, eq_iff "age" "amount")

vector_for-SameMap_example :
    vector_for small sort_strings artifact given ≡ vector_for small sort_strings artifact shuffled
vector_for-SameMap_example =
    vector_for-SameMap small LeStr sort_strings sort_strings-IsSort artifact given shuffled
      shuffled_same

score_features_example :
    Served small LeStr sort_strings sort_strings-IsSort service artifact-IsModel given
      (score_features small sort_strings service given)
score_features_example =
    score_features_lem small LeStr sort_strings sort_strings-IsSort service artifact-IsModel given
