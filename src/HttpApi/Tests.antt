-- ===== src/HttpApi/Tests.antt =====
-- The handlers of internal/httpapi at concrete inputs.
use fraud_scoring_platform.HttpApi.Body.Faults.{validate_json_lem, AcceptsOrBlames}
use fraud_scoring_platform.HttpApi.Json.Tree.{tokens, object, field, end, plain}
use fraud_scoring_platform.Scoring.Model.{sigmoid, accumulate, score}
use fraud_scoring_platform.Scoring.Vector.{unknown_names, number_of, numbers, vector_for}
use fraud_scoring_platform.Scoring.Service.{score_features}
use fraud_scoring_platform.HttpApi.Body.Accepts.{
  validate_json-ends, validate_json_iff, Holds, IsBlank,
}
use fraud_scoring_platform.Scoring.Strings.{sort_strings-IsSort, sort_strings, LeStr}
use fraud_scoring_platform.Scoring.Samples.{artifact-IsModel, service, small-IsFloat64, small}
use fraud_scoring_platform.HttpApi.Body.{
  no_fuel, invalid_json, trim_right, trim_left, validate_json,
}
use fraud_scoring_platform.HttpApi.Handler.Answer.{score_handler_lem, Answered}
use fraud_scoring_platform.HttpApi.Handler.{write_json, score_handler}
use fraud_scoring_platform.HttpApi.Json.{duplicate_field, consume_value}
use fraud_scoring_platform.HttpApi.Json.Tree.{IsRequest, IsClean, Value}
use fraud_scoring_platform.Prelude.{
  ◌≢◌, ◌↔◌, [], none, ◌≤◌, ◌≡◌, ◌∷◌, length, some, ℕ, List, arith, refl,
}
use fraud_scoring_platform.HttpApi.Samples.{
  bytewise, bytewise-IsDecoder, good_body, libraries, libraries-IsMarshal, request,
}

-- The same with "age" twice.
abbrev repeated_body : List ℕ
repeated_body = 123 ∷ 102 ∷ 123 ∷ 97 ∷ 49 ∷ 97 ∷ 49 ∷ 125 ∷ 125 ∷ []

good_accepted : validate_json bytewise (λ b. b) good_body ≡ none
unfolding validate_json consume_value trim_left trim_right
good_accepted = refl

repeated_refused :
    validate_json bytewise (λ b. b) repeated_body ≡ some (invalid_json (duplicate_field "age"))
unfolding validate_json consume_value trim_left trim_right
repeated_refused = refl

size_new : (b : List ℕ) → length b ≤ length b
size_new b = omega arith

validate_json_iff_example : (validate_json bytewise (λ b. b) good_body ≡ none) ↔ (
    (¬ IsBlank good_body)
    × (v : Value) × Holds bytewise bytewise-IsDecoder (λ b. b) size_new good_body v
    × IsClean v
    × IsRequest v)
validate_json_iff_example =
    validate_json_iff bytewise bytewise-IsDecoder (λ b. b) size_new good_body

handled :
    score_handler small libraries bytewise (λ b. b) sort_strings service request
    ≡ some (record { status = 200; content_type = "application/json"; body = 1 ∷ [] })
unfolding score_handler write_json validate_json consume_value trim_left trim_right score_features
    vector_for numbers number_of unknown_names score accumulate sigmoid
handled = refl

score_handler_example :
    Answered small small-IsFloat64 libraries libraries-IsMarshal bytewise
      (λ b. b)
      LeStr
      sort_strings
      sort_strings-IsSort
      service
      artifact-IsModel
      request
      (score_handler small libraries bytewise (λ b. b) sort_strings service request)
score_handler_example =
    score_handler_lem small small-IsFloat64 libraries libraries-IsMarshal bytewise (λ b. b) LeStr
      sort_strings sort_strings-IsSort service artifact-IsModel request

validate_json-ends_example : validate_json bytewise (λ b. b) repeated_body ≢ some no_fuel
validate_json-ends_example =
    validate_json-ends bytewise bytewise-IsDecoder (λ b. b) size_new repeated_body

abbrev repeated : Value
repeated = object (field "features" (object (field "age" plain (field "age" plain end))) end)

repeated-Holds : Holds bytewise bytewise-IsDecoder (λ b. b) size_new repeated_body repeated
unfolding tokens
repeated-Holds =
    ([], (refl, (refl, (refl, (refl, (refl, (refl, (refl, (refl, (refl, refl))))))))), refl)

repeated-not_IsBlank : ¬ IsBlank repeated_body
repeated-not_IsBlank h = cc (h.0)

validate_json_example :
    AcceptsOrBlames bytewise bytewise-IsDecoder
      (λ b. b)
      size_new
      repeated
      (validate_json bytewise (λ b. b) repeated_body)
validate_json_example =
    validate_json_lem bytewise bytewise-IsDecoder (λ b. b) size_new repeated_body repeated
      repeated-not_IsBlank repeated-Holds
