-- ===== src/Scoring/Vector/Order.antt =====
-- What `vectorFor` of internal/scoring/scoring.go returns, whatever order the map's loop takes.
use fraud_scoring_platform.Scoring.Vector.Fault.{
  numbers-SameMap, FirstFault, ReadsAll, SameMap, numbers_lem,
}
use fraud_scoring_platform.Scoring.Model.{Model}
use fraud_scoring_platform.Scoring.Float.{Float64}
use fraud_scoring_platform.Scoring.Vector.{
  refuse_unknown, feature_unknown, feature_error, FeatureError, vector_for, numbers, Features,
  lookup, is_expected, unknown_names,
}
use fraud_scoring_platform.Prelude.{
  ap, ◌∙◌, sym, subst, Bool-cases, inl, inr, ◌⊎◌, [], eq_iff, true, none, ◌∷◌, ◌↔◌, ◌≢◌, ◌≡◌,
  String, List, arith, refl, Elem,
}

is_expected_iff : (xs : List String) (k : String) → (is_expected xs k ≡ true) ↔ Elem k xs
is_expected_iff [] k = ((λ e. cc e), (λ h. elim h [ ]))
is_expected_iff (x ∷ xs) k = ground (arith, eq_iff x k, is_expected_iff xs k)

-- A feature that is given and not expected.
abbrev pub IsUnknown : {F : Type 0} → List String → Features F → String → Type 0
IsUnknown order fs k = (lookup fs k ≢ none) × (¬ Elem k order)

unknown_names_iff :
    {F : Type 0} (order : List String) (fs : Features F) (k : String)
    → Elem k (unknown_names order fs) ↔ IsUnknown order fs k
unfolding unknown_names
unknown_names_iff order [] k = ((λ h. elim h [ ]), (λ h. absurd (h.0 refl)))
unknown_names_iff order ((j, v) ∷ fs) k = ground (
  arith,
  eq_iff j k,
  unknown_names_iff order fs k,
  is_expected_iff order j,
  is_expected_iff order k,
)

-- sort.Strings puts a least name in front and keeps the names.
pub record IsSort (Le : String → String → Type 0) (sort : List String → List String) : Type 0 where
  pub kept : (xs : List String) (k : String) → Elem k (sort xs) ↔ Elem k xs
  pub least : (xs ks : List String) (k j : String) → sort xs ≡ k ∷ ks → Elem j xs → Le k j
  pub antisym : (j k : String) → Le j k → Le k j → j ≡ k

module _ (fl : Float64) (Le : String → String → Type 0) (sort : List String → List String)
    (law : IsSort Le sort) where
  -- Which error it is, or which vector.
  abbrev pub Vectored : Model fl.F → Features fl.F → FeatureError ⊎ List fl.F → Type 0
  Vectored m fs (inr xs) =
      ReadsAll fl fs m.feature_order xs
      × ((k : String) → lookup fs k ≢ none → Elem k m.feature_order)
  Vectored m fs (inl e) =
      FirstFault fl fs m.feature_order e
      ⊎ ((xs : List fl.F) × (k : String) × ReadsAll fl fs m.feature_order xs
          × (e ≡ feature_error feature_unknown k)
          × IsUnknown m.feature_order fs k
          × ((j : String) → IsUnknown m.feature_order fs j → Le k j))

  refuse_unknown_lem :
      (m : Model fl.F) (fs : Features fl.F) (xs : List fl.F) (ks : List String)
      → ReadsAll fl fs m.feature_order xs
      → sort (unknown_names m.feature_order fs) ≡ ks
      → Vectored m fs (refuse_unknown fl ks xs)
  refuse_unknown_lem m fs xs [] reads e = (
    reads,
    λ k given. elim (Bool-cases (is_expected m.feature_order k)) [
      | inl known ↦ (is_expected_iff m.feature_order k).0 known
      | inr new ↦
          let unknown =
            (unknown_names_iff m.feature_order fs k).1
              (given, λ h. cc (new, (is_expected_iff m.feature_order k).1 h)) in
          absurd (subst (Elem k) e ((law.kept (unknown_names m.feature_order fs) k).1 unknown))
    ],
  )
  refuse_unknown_lem m fs xs (k ∷ ks) reads e =
      let names = unknown_names m.feature_order fs in
      inr (
        xs,
        k,
        reads,
        refl,
        (unknown_names_iff m.feature_order fs k).0
            ((law.kept names k).0 (subst (Elem k) (sym e) (inl refl))),
        λ j u. law.least names ks k j e ((unknown_names_iff m.feature_order fs j).1 u),
      )

  vector_for-eq-inl :
      (m : Model fl.F) (fs : Features fl.F) (e : FeatureError)
      → numbers fl fs m.feature_order ≡ inl e
      → vector_for fl sort m fs ≡ inl e
  unfolding vector_for
  vector_for-eq-inl m fs e at = rw (at, vector_for)

  vector_for-eq-refuse :
      (m : Model fl.F) (fs : Features fl.F) (xs : List fl.F)
      → numbers fl fs m.feature_order ≡ inr xs
      → vector_for fl sort m fs ≡ refuse_unknown fl (sort (unknown_names m.feature_order fs)) xs
  unfolding vector_for
  vector_for-eq-refuse m fs xs at = rw (at, vector_for)

  -- With a sort that keeps the names and puts a least one, by an antisymmetric order, in front:
  -- `vectorFor` returns the expected features in the model's order if all are finite numbers and no
  -- other is given. Otherwise the error is that of the first expected feature that is missing,
  -- null, no number or not finite; or, if all of them are fine, that of the least name that is
  -- unknown.
  pub vector_for_lem :
      (m : Model fl.F) (fs : Features fl.F) → Vectored m fs (vector_for fl sort m fs)
  vector_for_lem m fs = elim (numbers_lem fl fs m.feature_order) [
    | inr (e, at, first) ↦ subst (Vectored m fs) (sym (vector_for-eq-inl m fs e at)) (inl first)
    | inl (xs, at, reads) ↦
        subst (Vectored m fs) (sym (vector_for-eq-refuse m fs xs at))
          (refuse_unknown_lem m fs xs (sort (unknown_names m.feature_order fs)) reads refl)
  ]

  -- A name in front of the sorted unknown names is unknown in the other map too.
  front-SameMap :
      (order : List String) (fs gs : Features fl.F) (k : String) (ks : List String)
      → SameMap fs gs
      → sort (unknown_names order fs) ≡ k ∷ ks
      → Elem k (unknown_names order gs)
  front-SameMap order fs gs k ks same e =
      let front = (law.kept (unknown_names order fs) k).0 (subst (Elem k) (sym e) (inl refl)) in
      let (given, out) = (unknown_names_iff order fs k).0 front in
      (unknown_names_iff order gs k).1 ((λ h. given (same k ∙ h)), out)

  refuse-SameMap :
      (order : List String) (fs gs : Features fl.F) (xs : List fl.F) (ks js : List String)
      → SameMap fs gs
      → sort (unknown_names order fs) ≡ ks
      → sort (unknown_names order gs) ≡ js
      → refuse_unknown fl ks xs ≡ refuse_unknown fl js xs
  refuse-SameMap order fs gs xs [] [] same e f = refl
  refuse-SameMap order fs gs xs [] (j ∷ js) same e f =
      let there = front-SameMap order gs fs j js (λ k. sym (same k)) f in
      absurd (subst (Elem j) e ((law.kept (unknown_names order fs) j).1 there))
  refuse-SameMap order fs gs xs (k ∷ ks) [] same e f =
      let there = front-SameMap order fs gs k ks same e in
      absurd (subst (Elem k) f ((law.kept (unknown_names order gs) k).1 there))
  refuse-SameMap order fs gs xs (k ∷ ks) (j ∷ js) same e f =
      let here = front-SameMap order fs gs k ks same e in
      let there = front-SameMap order gs fs j js (λ k. sym (same k)) f in
      let one =
        law.antisym k j (law.least (unknown_names order fs) ks k j e there)
          (law.least (unknown_names order gs) js j k f here) in
      ap (λ n. inl (feature_error feature_unknown n)) one

  -- With a sort that keeps the names and puts a least one, by an antisymmetric order, in front: for
  -- two maps with the same features `vectorFor` returns the same vector or the same error, in
  -- whatever order the loop over each map goes.
  pub vector_for-SameMap :
      (m : Model fl.F) (fs gs : Features fl.F)
      → SameMap fs gs
      → vector_for fl sort m fs ≡ vector_for fl sort m gs
  vector_for-SameMap m fs gs same =
      let over = numbers-SameMap fl fs gs m.feature_order same in
      elim (numbers_lem fl fs m.feature_order) [
        | inr (e, at, first) ↦
            vector_for-eq-inl m fs e at ∙ sym (vector_for-eq-inl m gs e (sym over ∙ at))
        | inl (xs, at, reads) ↦
            vector_for-eq-refuse m fs xs at
            ∙ refuse-SameMap m.feature_order fs gs xs (sort (unknown_names m.feature_order fs))
                (sort (unknown_names m.feature_order gs)) same refl refl
            ∙ sym (vector_for-eq-refuse m gs xs (sym over ∙ at))
      ]
