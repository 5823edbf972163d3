-- ===== src/Scoring/Vector.antt =====
-- `vectorFor` of internal/scoring/scoring.go with the errors of internal/scoring/errors.go.
pub mod Fault
pub mod Order
use fraud_scoring_platform.Scoring.Float.{Float64}
use fraud_scoring_platform.Scoring.Model.{Model, is_finite}
use fraud_scoring_platform.Prelude.{
  String, Bool, true, false, not, ◌||◌, Option, none, some, List, [], ◌∷◌, ◌⊎◌, inl, inr, str_eq,
  if◌then◌else◌,
}

-- What json.Unmarshal puts into an `any`. Of a value that is no number only the name of its Go type
-- is kept, which `%T` prints.
pub data Any (F : Type 0) : Type 0 where
  nil : Any F
  number : F → Any F
  other : (go_type : String) → Any F

-- `Features`, a map, in the order in which a range loop over it happens to go.
abbrev pub Features : Type 0 → Type 0
Features F = List (String × Any F)

pub data FeatureErrorKind : Type 0 where
  feature_missing feature_unknown feature_null feature_invalid_type feature_non_finite :
      FeatureErrorKind

pub record FeatureError : Type 0 where
  pub kind : FeatureErrorKind
  pub feature : String
  pub got : String

abbrev pub feature_error : FeatureErrorKind → String → FeatureError
feature_error k name = record { kind = k; feature = name; got = "" }

abbrev pub lookup : {F : Type 0} → Features F → String → Option (Any F)
lookup [] k = none
lookup ((j, v) ∷ fs) k = if str_eq j k then some v else lookup fs k

-- `_, ok := expected[name]`
abbrev pub is_expected : List String → String → Bool
is_expected [] k = false
is_expected (x ∷ xs) k = str_eq x k || is_expected xs k

-- The loop that collects the unknown names, in the order of the map.
unfoldable pub unknown_names : {F : Type 0} → List String → Features F → List String
unknown_names order [] = []
unknown_names order ((k, v) ∷ fs) =
    let rest = unknown_names order fs in if is_expected order k then rest else k ∷ rest

module _ (fl : Float64) where
  -- One feature of the loop over `m.FeatureOrder`.
  unfoldable pub number_of : String → Option (Any fl.F) → FeatureError ⊎ fl.F
  number_of name none = inl (feature_error feature_missing name)
  number_of name (some nil) = inl (feature_error feature_null name)
  number_of name (some (other t)) =
      inl (record { kind = feature_invalid_type; feature = name; got = t })
  number_of name (some (number x)) =
      if fl.is_nan x || fl.is_inf x then inl (feature_error feature_non_finite name) else inr x

  abbrev pub add_number : FeatureError ⊎ fl.F → FeatureError ⊎ List fl.F → FeatureError ⊎ List fl.F
  add_number (inl e) rest = inl e
  add_number (inr x) (inl e) = inl e
  add_number (inr x) (inr xs) = inr (x ∷ xs)

  -- The loop over the names that are left.
  unfoldable pub numbers : Features fl.F → List String → FeatureError ⊎ List fl.F
  numbers features [] = inr []
  numbers features (name ∷ order) =
      add_number (number_of name (lookup features name)) (numbers features order)

  -- `unknown[0]` of the sorted names.
  abbrev pub refuse_unknown : List String → List fl.F → FeatureError ⊎ List fl.F
  refuse_unknown [] xs = inr xs
  refuse_unknown (k ∷ ks) xs = inl (feature_error feature_unknown k)

  -- `sort` is sort.Strings.
  unfoldable pub vector_for :
      (List String → List String) → Model fl.F → Features fl.F → FeatureError ⊎ List fl.F
  vector_for sort m features = elim (numbers features m.feature_order) [
    | inl e ↦ inl e
    | inr xs ↦ refuse_unknown (sort (unknown_names m.feature_order features)) xs
  ]
