-- ===== src/Scoring/Vector/Fault.antt =====
-- The loop of `vectorFor` over the expected features: what is wrong with the first that is faulty.
use fraud_scoring_platform.Scoring.Model.{is_finite}
use fraud_scoring_platform.Scoring.Float.{Float64}
use fraud_scoring_platform.Scoring.Vector.{
  nil, feature_non_finite, feature_invalid_type, other, feature_null, feature_missing,
  feature_error, number, Any, FeatureError, number_of, numbers, Features, lookup,
}
use fraud_scoring_platform.Prelude.{
  ◌||◌, false, Bool-cases, inl, inr, ◌⊎◌, Option, some, [], true, none, ◌∷◌, ◌≡◌, String, List,
  arith, refl,
}

-- Two maps that hold the same.
abbrev pub SameMap : {F : Type 0} → Features F → Features F → Type 0
SameMap fs gs = (k : String) → lookup fs k ≡ lookup gs k

module _ (fl : Float64) where
  pub numbers-SameMap :
      (fs gs : Features fl.F) (order : List String)
      → SameMap fs gs
      → numbers fl fs order ≡ numbers fl gs order
  unfolding numbers
  numbers-SameMap fs gs [] h = refl
  numbers-SameMap fs gs (n ∷ order) h = cc (h n, numbers-SameMap fs gs order h)

  -- The feature is given as a finite number.
  abbrev pub Reads : Features fl.F → String → fl.F → Type 0
  Reads fs name x = (lookup fs name ≡ some (number x)) × (is_finite fl x ≡ true)

  abbrev pub ReadsAll : Features fl.F → List String → List fl.F → Type 0
  ReadsAll fs [] [] = Unit
  ReadsAll fs (n ∷ ns) (x ∷ xs) = Reads fs n x × ReadsAll fs ns xs
  ReadsAll fs _ _ = ⊥

  -- What is wrong with a feature that is expected.
  abbrev pub Fault : String → Option (Any fl.F) → FeatureError → Type 0
  Fault name none e = e ≡ feature_error feature_missing name
  Fault name (some nil) e = e ≡ feature_error feature_null name
  Fault name (some (other t)) e =
      e ≡ record { kind = feature_invalid_type; feature = name; got = t }
  Fault name (some (number x)) e =
      (is_finite fl x ≡ false) × (e ≡ feature_error feature_non_finite name)

  -- The error is of the first name that is not given as a finite number.
  abbrev pub FirstFault : Features fl.F → List String → FeatureError → Type 0
  FirstFault fs [] e = ⊥
  FirstFault fs (n ∷ ns) e =
      Fault n (lookup fs n) e ⊎ ((x : fl.F) × Reads fs n x × FirstFault fs ns e)

  number_of_lem :
      (name : String) (v : Option (Any fl.F))
      → ((e : FeatureError) × (number_of fl name v ≡ inl e) × Fault name v e)
        ⊎ ((x : fl.F) × (number_of fl name v ≡ inr x)
            × (v ≡ some (number x))
            × (is_finite fl x ≡ true))
  unfolding number_of
  number_of_lem name none = inl (feature_error feature_missing name, refl, refl)
  number_of_lem name (some nil) = inl (feature_error feature_null name, refl, refl)
  number_of_lem name (some (other t)) =
      inl (record { kind = feature_invalid_type; feature = name; got = t }, refl, refl)
  number_of_lem name (some (number x)) = elim (Bool-cases (fl.is_nan x || fl.is_inf x)) [
    | inl bad ↦ inl (feature_error feature_non_finite name, rw bad, (ground (arith, bad), refl))
    | inr good ↦ inr (x, rw good, refl, ground (arith, good))
  ]

  pub numbers_lem :
      (fs : Features fl.F) (order : List String)
      → ((xs : List fl.F) × (numbers fl fs order ≡ inr xs) × ReadsAll fs order xs)
        ⊎ ((e : FeatureError) × (numbers fl fs order ≡ inl e) × FirstFault fs order e)
  unfolding numbers
  numbers_lem fs [] = inl ([], refl, tt)
  numbers_lem fs (n ∷ order) = elim (number_of_lem n (lookup fs n)) [
    | inl (e, at, fault) ↦ inr (e, rw at, inl fault)
    | inr (x, at, given, finite) ↦ elim (numbers_lem fs order) [
      | inl (xs, rest, reads) ↦ inl (x ∷ xs, rw (at, rest), ((given, finite), reads))
      | inr (e, rest, first) ↦ inr (e, rw (at, rest), inr (x, (given, finite), first))
    ]
  ]
