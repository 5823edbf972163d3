-- ===== src/Scoring/Model.antt =====
-- internal/model/model.go. json.Unmarshal and os.ReadFile are parameters.
pub mod Kernel
pub mod Sigmoid
use fraud_scoring_platform.Scoring.Float.{Float64}
use fraud_scoring_platform.Prelude.{
  ℕ, Bool, true, false, not, ◌&&◌, Option, none, some, List, [], ◌∷◌, length, get_elem?, ◌==◌,
  str_eq, if◌then◌else◌, String, ◌⊎◌, inl, inr, suc,
}

-- `Weights` is aligned with `FeatureOrder` by position.
pub record Model (F : Type 0) : Type 0 where
  pub version : String
  pub created_at : String
  pub feature_order : List String
  pub weights : List F
  pub intercept : F

-- A panic is an index out of range.
pub data Result {ℓ κ} (E : Type ℓ) (A : Type κ) : Type (ℓ ⊔ κ) where
  done : A → Result E A
  fail : E → Result E A
  panic : Result E A

pub data ModelError : Type 0 where
  empty_version empty_feature_order : ModelError
  length_mismatch : (weights features : ℕ) → ModelError
  non_finite_weight : (index : ℕ) (name : String) → ModelError
  non_finite_intercept : ModelError

pub data ScoreError : Type 0 where
  feature_count : (got want : ℕ) → ScoreError
  non_finite_feature : (index : ℕ) → ScoreError
  non_finite_logit : ScoreError

pub data ParseError : Type 0 where
  unreadable malformed : ParseError
  invalid : ModelError → ParseError

module _ (fl : Float64) where
  open fl use {F, zero, one, add, mul, div, neg, exp, leq, is_nan, is_inf}

  abbrev pub is_finite : F → Bool
  is_finite f = not (is_nan f) && not (is_inf f)

  -- The error for the weight at `i`, whose text has the feature's name.
  abbrev pub bad_weight : ℕ → Option String → Result ModelError (Unit {0})
  bad_weight i none = panic
  bad_weight i (some name) = fail (non_finite_weight i name)

  -- The loop over the weights; `i` is the index of the first.
  unfoldable pub check_weights : List String → ℕ → List F → Result ModelError (Unit {0})
  check_weights order i [] = done tt
  check_weights order i (w ∷ ws) =
      if not (is_finite w) then bad_weight i (get_elem? order i) else check_weights order (suc i) ws

  abbrev check_intercept : F → Result ModelError (Unit {0})
  check_intercept f = if not (is_finite f) then fail non_finite_intercept else done tt

  -- `validate`; `done` is the nil error.
  unfoldable pub validate_model : Model F → Result ModelError (Unit {0})
  validate_model m =
      if str_eq m.version ""
      then fail empty_version
      else if length m.feature_order == 0
      then fail empty_feature_order
      else if not (length m.weights == length m.feature_order)
      then fail (length_mismatch (length m.weights) (length m.feature_order))
      else elim (check_weights m.feature_order 0 m.weights) [
        | done _ ↦ check_intercept m.intercept
        | fail e ↦ fail e
        | panic ↦ panic
      ]

  -- `Parse` of what json.Unmarshal made of the bytes; none is its error.
  unfoldable pub parse : Option (Model F) → Result ParseError (Model F)
  parse none = fail malformed
  parse (some m) = elim (validate_model m) [
    | done _ ↦ done m
    | fail e ↦ fail (invalid e)
    | panic ↦ panic
  ]

  -- `Load`; none is the error of os.ReadFile.
  unfoldable pub load_model :
      {B : Type 0} → (B → Option (Model F)) → Option B → Result ParseError (Model F)
  load_model unmarshal none = fail unreadable
  load_model unmarshal (some b) = parse (unmarshal b)

  unfoldable pub sigmoid : F → F
  sigmoid z =
      if leq zero z then div one (add one (exp (neg z))) else let ez = exp z in div ez (add one ez)

  -- The loop of `Score`; `i` is the index of the first feature, `z` the sum so far.
  unfoldable pub accumulate : List F → ℕ → F → List F → Result ScoreError F
  accumulate weights i z [] = done z
  accumulate weights i z (x ∷ xs) =
      if not (is_finite x) then fail (non_finite_feature i) else elim (get_elem? weights i) [
        | none ↦ panic
        | some w ↦ accumulate weights (suc i) (add z (mul x w)) xs
      ]

  abbrev pub finish : Result ScoreError F → Result ScoreError F
  finish (done z) = if not (is_finite z) then fail non_finite_logit else done (sigmoid z)
  finish (fail e) = fail e
  finish panic = panic

  unfoldable pub score : Model F → List F → Result ScoreError F
  score m features =
      if not (length features == length m.weights)
      then fail (feature_count (length features) (length m.weights))
      else finish (accumulate m.weights 0 m.intercept features)

  abbrev pub count_features : Model F → ℕ
  count_features m = length m.weights
