-- ===== src/Scoring/Model/Kernel.antt =====
-- What `validate` and `Score` of internal/model/model.go return.
use fraud_scoring_platform.Scoring.Float.{Float64}
use fraud_scoring_platform.Scoring.Model.{
  Model, Result, ModelError, ScoreError, done, fail, panic, score, accumulate, sigmoid, is_finite,
  validate_model, check_weights, empty_version, empty_feature_order, length_mismatch,
  non_finite_weight, non_finite_intercept, feature_count, non_finite_feature, non_finite_logit,
}
use fraud_scoring_platform.Prelude.{
  subst, ==_iff, eq_iff, ◌==◌, str_eq, false, drop-eq-cons, some, get_elem?-inside, get_elem?, ◌⊎◌,
  suc, take, inr, drop, inl, Bool-cases, true, ◌≤◌, All, [], ◌+◌, ◌≡◌, ◌∷◌, length, String, ℕ, List,
  ◌≢◌, arith, refl,
}

module _ (fl : Float64) where
  -- Weights are aligned with features, and everything is finite.
  pub record IsModel (m : Model fl.F) : Type 0 where
    pub version : m.version ≢ ""
    pub some_feature : length m.feature_order ≢ 0
    pub aligned : length m.weights ≡ length m.feature_order
    pub finite_weights : All (λ w. is_finite fl w ≡ true) m.weights
    pub finite_intercept : is_finite fl m.intercept ≡ true

  abbrev pub AllFinite : List fl.F → Type 0
  AllFinite xs = All (λ x. is_finite fl x ≡ true) xs

  -- The number at index `k` is the first that is not finite.
  pub record FirstBad (xs : List fl.F) (k : ℕ) : Type 0 where
    pub before : AllFinite (take k xs)
    pub value : fl.F
    pub here : get_elem? xs k ≡ some value
    pub bad : is_finite fl value ≡ false

  FirstBad-suc :
      (x : fl.F) (xs : List fl.F) (k : ℕ)
      → is_finite fl x ≡ true
      → FirstBad xs k
      → FirstBad (x ∷ xs) (suc k)
  FirstBad-suc x xs k good b = record {
    before = (good, b.before);
    value = b.value;
    here = b.here;
    bad = b.bad;
  }

  check_weights_lem :
      (order : List String) (i : ℕ) (ws : List fl.F)
      → i + length ws ≤ length order
      → ((check_weights fl order i ws ≡ done tt) × AllFinite ws)
        ⊎ ((k : ℕ) × (name : String) × (check_weights fl order i ws
              ≡ fail (non_finite_weight (i + k) name))
            × (get_elem? order (i + k) ≡ some name)
            × FirstBad ws k)
  unfolding check_weights
  check_weights_lem order i [] h = inl (refl, tt)
  check_weights_lem order i (w ∷ ws) h = elim (Bool-cases (is_finite fl w)) [
    | inr bad ↦
        let (name, found) = get_elem?-inside i order (omega arith) in
        inr (
          0,
          name,
          ground (arith, bad, found),
          ground (arith, found),
          record { before = tt; value = w; here = refl; bad = bad },
        )
    | inl good ↦ elim (check_weights_lem order (suc i) ws (omega arith)) [
      | inl (e, all) ↦ inl (ground (arith, good, e), (good, all))
      | inr (k, name, e, found, first) ↦ inr (
        suc k,
        name,
        ground (arith, good, e),
        ground (arith, found),
        FirstBad-suc w ws k good first,
      )
    ]
  ]

  length-eq-zero : (xs : List String) → length xs ≡ 0 → xs ≡ []
  length-eq-zero [] h = refl
  length-eq-zero (x ∷ xs) h = absurd (omega arith)

  -- The weighted sum of a zip of features and weights, from the left.
  abbrev pub logit : fl.F → List fl.F → List fl.F → fl.F
  logit z [] ws = z
  logit z (x ∷ xs) [] = z
  logit z (x ∷ xs) (w ∷ ws) = logit (fl.add z (fl.mul x w)) xs ws

  accumulate_lem :
      (weights : List fl.F) (i : ℕ) (z : fl.F) (xs : List fl.F)
      → i + length xs ≡ length weights
      → (AllFinite xs × (accumulate fl weights i z xs ≡ done (logit z xs (drop i weights))))
        ⊎ ((k : ℕ) × (accumulate fl weights i z xs ≡ fail (non_finite_feature (i + k)))
            × FirstBad xs k)
  unfolding accumulate
  accumulate_lem weights i z [] h = inl (tt, refl)
  accumulate_lem weights i z (x ∷ xs) h =
      let (w, found) = get_elem?-inside i weights (omega arith) in
      elim (Bool-cases (is_finite fl x)) [
        | inr bad ↦
            inr (0, ground (arith, bad), record { before = tt; value = x; here = refl; bad = bad })
        | inl good ↦
            elim (accumulate_lem weights (suc i) (fl.add z (fl.mul x w)) xs (omega arith)) [
              | inl (all, e) ↦ inl ((good, all), rw (good, found, drop-eq-cons i weights w found) e)
              | inr (k, e, first) ↦
                  inr (suc k, ground (arith, good, found, e), FirstBad-suc x xs k good first)
            ]
      ]

  -- What `validate` says of an artifact, by the branch that it takes.
  abbrev pub Validated : Model fl.F → Result ModelError (Unit {0}) → Type 0
  Validated m (done _) = IsModel m
  Validated m (fail empty_version) = m.version ≡ ""
  Validated m (fail empty_feature_order) = m.feature_order ≡ []
  Validated m (fail (length_mismatch w f)) =
      (w ≡ length m.weights) × (f ≡ length m.feature_order) × (w ≢ f)
  Validated m (fail (non_finite_weight k name)) =
      (get_elem? m.feature_order k ≡ some name) × FirstBad m.weights k
  Validated m (fail non_finite_intercept) = AllFinite m.weights × (is_finite fl m.intercept ≡ false)
  Validated m panic = ⊥

  -- `validate` never indexes out of range. It accepts an artifact only if it has a version, at
  -- least one feature, as many weights as features and nothing that is not finite; otherwise the
  -- error is true of it, and the weight it names, with its feature, is the first that is not
  -- finite.
  pub validate_model_lem : (m : Model fl.F) → Validated m (validate_model fl m)
  unfolding validate_model
  validate_model_lem m = elim (Bool-cases (str_eq m.version "")) [
    | inl unnamed ↦ rw unnamed ((eq_iff m.version "").0 unnamed)
    | inr named ↦ elim (Bool-cases (length m.feature_order == 0)) [
      | inl none_given ↦
          rw (named, none_given)
            (length-eq-zero m.feature_order ((==_iff (length m.feature_order) 0).0 none_given))
      | inr given ↦ elim (Bool-cases (length m.weights == length m.feature_order)) [
        | inr off ↦
            rw (named, given, off)
              (refl, refl, λ h. cc (off, (==_iff (length m.weights) (length m.feature_order)).1 h))
        | inl aligned ↦
            let len = (==_iff (length m.weights) (length m.feature_order)).0 aligned in
            elim (check_weights_lem m.feature_order 0 m.weights (omega (arith, len))) [
              | inr (k, name, e, found, first) ↦
                  rw (named, given, aligned, e)
                    (found, subst (FirstBad m.weights) (omega arith) first)
              | inl (e, all) ↦ elim (Bool-cases (is_finite fl m.intercept)) [
                | inr bad ↦ rw (named, given, aligned, e, bad) (all, bad)
                | inl good ↦
                    rw (named, given, aligned, e, good)
                      (record {
                        version = λ h. cc (named, (eq_iff m.version "").1 h);
                        some_feature = λ h. cc (given, (==_iff (length m.feature_order) 0).1 h);
                        aligned = len;
                        finite_weights = all;
                        finite_intercept = good;
                      })
              ]
            ]
      ]
    ]
  ]

  -- What `Score` returns, by the branch that it takes.
  abbrev pub Scored : Model fl.F → List fl.F → Result ScoreError fl.F → Type 0
  Scored m xs (done p) =
      (length xs ≡ length m.weights)
      × AllFinite xs
      × (is_finite fl (logit m.intercept xs m.weights) ≡ true)
      × (p ≡ sigmoid fl (logit m.intercept xs m.weights))
  Scored m xs (fail (feature_count got want)) =
      (got ≡ length xs) × (want ≡ length m.weights) × (got ≢ want)
  Scored m xs (fail (non_finite_feature k)) = (length xs ≡ length m.weights) × FirstBad xs k
  Scored m xs (fail non_finite_logit) =
      (length xs ≡ length m.weights)
      × AllFinite xs
      × (is_finite fl (logit m.intercept xs m.weights) ≡ false)
  Scored m xs panic = ⊥

  -- `Score` never indexes out of range. It returns the sigmoid of the weighted sum if there are as
  -- many features as weights and all of them and the sum are finite; otherwise the error says which
  -- of these fails, with both counts or with the index of the first feature that is not finite.
  pub score_lem : (m : Model fl.F) (xs : List fl.F) → Scored m xs (score fl m xs)
  unfolding score
  score_lem m xs = elim (Bool-cases (length xs == length m.weights)) [
    | inr off ↦ rw off (refl, refl, λ h. cc (off, (==_iff (length xs) (length m.weights)).1 h))
    | inl aligned ↦
        let len = (==_iff (length xs) (length m.weights)).0 aligned in
        elim (accumulate_lem m.weights 0 m.intercept xs (omega (arith, len))) [
          | inl (all, e) ↦ elim (Bool-cases (is_finite fl (logit m.intercept xs m.weights))) [
            | inl good ↦ rw (aligned, e, good) (len, all, good, refl)
            | inr bad ↦ rw (aligned, e, bad) (len, all, bad)
          ]
          | inr (k, e, first) ↦ rw (aligned, e) (len, subst (FirstBad xs) (omega arith) first)
        ]
  ]
