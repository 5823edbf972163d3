-- ===== src/Raft/Cluster/Majority.antt =====
-- Two majorities of one cluster have a member in common.
use fraud_scoring_platform.Raft.Create.{others}
use fraud_scoring_platform.Raft.Types.{NodeId}
use fraud_scoring_platform.Prelude.{
  Elem, refl, eq_iff, length-append, str_eq, arith, Bool-cases, ap, ◌+◌, ◌∙◌, inr, sym, ◌≤◌, ◌/◌,
  subst, ◌++◌, All, ◌≢◌, ◌≡◌, length, inl, suc, ◌⊎◌, List, [], ◌∷◌,
}

abbrev pub Distinct : List NodeId → Type 0
Distinct [] = Unit
Distinct (x ∷ xs) = (¬ Elem x xs) × Distinct xs

-- The list without one occurrence of an element.
without : (a : NodeId) (ms : List NodeId) → Elem a ms → List NodeId
without a [] h = elim h [ ]
without a (m ∷ ms) (inl e) = ms
without a (m ∷ ms) (inr h) = m ∷ without a ms h

length-without :
    (a : NodeId) (ms : List NodeId) (h : Elem a ms) → suc (length (without a ms h)) ≡ length ms
unfolding without
length-without a [] h = elim h [ ]
length-without a (m ∷ ms) (inl e) = refl
length-without a (m ∷ ms) (inr h) = ap suc (length-without a ms h)

Elem-without :
    (a b : NodeId) (ms : List NodeId) (h : Elem a ms) → a ≢ b → Elem b ms → Elem b (without a ms h)
unfolding without
Elem-without a b [] h ne k = elim h [ ]
Elem-without a b (m ∷ ms) (inl e) ne (inl k) = absurd (ne (sym e ∙ k))
Elem-without a b (m ∷ ms) (inl e) ne (inr k) = k
Elem-without a b (m ∷ ms) (inr h) ne (inl k) = inl k
Elem-without a b (m ∷ ms) (inr h) ne (inr k) = inr (Elem-without a b ms h ne k)

-- Distinct members are no more than there are.
length-le-of_subset :
    (xs ms : List NodeId) → Distinct xs → All (λ x. Elem x ms) xs → length xs ≤ length ms
length-le-of_subset [] ms d h = omega arith
length-le-of_subset (x ∷ xs) ms d h = omega (
  arith,
  length-without x ms h.0,
  length-le-of_subset xs (without x ms h.0) d.1 (rest xs d.0 h.1),
)
  where
    rest :
        (ys : List NodeId)
        → ¬ Elem x ys
        → All (λ y. Elem y ms) ys
        → All (λ y. Elem y (without x ms h.0)) ys
    rest [] out k = tt
    rest (y ∷ ys) out k =
        (Elem-without x y ms h.0 (λ e. out (inl (sym e))) k.0, rest ys (λ e. out (inr e)) k.1)

-- Whether a name is in a list.
pub Elem-cases : (a : NodeId) (xs : List NodeId) → Elem a xs ⊎ (¬ Elem a xs)
Elem-cases a [] = inr (λ h. h)
Elem-cases a (x ∷ xs) = elim (Bool-cases (str_eq x a)) [
  | inl same ↦ inl (inl ((eq_iff x a).0 same))
  | inr other ↦ elim (Elem-cases a xs) [
    | inl h ↦ inl (inr h)
    | inr h ↦ inr (elim [ inl e ↦ cc (other, (eq_iff x a).1 e) | inr k ↦ h k ])
  ]
]

-- Distinct members of which none stands in `ws` leave room for `ws`.
join-Distinct :
    (vs ws : List NodeId)
    → Distinct vs
    → Distinct ws
    → All (λ v. ¬ Elem v ws) vs
    → Distinct (vs ++ ws)
join-Distinct [] ws dv dw h = dw
join-Distinct (v ∷ vs) ws dv dw h = (out vs dv.0, join-Distinct vs ws dv.1 dw h.1)
  where
    out : (us : List NodeId) → ¬ Elem v us → ¬ Elem v (us ++ ws)
    out [] k e = h.0 e
    out (u ∷ us) k (inl e) = k (inl e)
    out (u ∷ us) k (inr e) = out us (λ x. k (inr x)) e

All-append : (P : NodeId → Type 0) (vs ws : List NodeId) → All P vs → All P ws → All P (vs ++ ws)
All-append P [] ws hv hw = hw
All-append P (v ∷ vs) ws hv hw = (hv.0, All-append P vs ws hv.1 hw)

common-or-apart :
    (vs ws : List NodeId) → ((a : NodeId) × Elem a vs × Elem a ws) ⊎ All (λ v. ¬ Elem v ws) vs
common-or-apart [] ws = inr tt
common-or-apart (v ∷ vs) ws = elim (Elem-cases v ws) [
  | inl h ↦ inl (v, inl refl, h)
  | inr out ↦ elim (common-or-apart vs ws) [
    | inl (a, hv, hw) ↦ inl (a, inr hv, hw)
    | inr apart ↦ inr (out, apart)
  ]
]

-- A majority of the members, each counted once.
pub record IsMajority (members voters : List NodeId) : Type 0 where
  pub distinct : Distinct voters
  pub inside : All (λ v. Elem v members) voters
  pub most : length members / 2 + 1 ≤ length voters

pub majorities_meet :
    (members vs ws : List NodeId)
    → IsMajority members vs
    → IsMajority members ws
    → (a : NodeId) × Elem a vs × Elem a ws
majorities_meet members vs ws hv hw = elim (common-or-apart vs ws) [
  | inl found ↦ found
  | inr apart ↦ absurd (
      omega (
        arith,
        hv.most,
        hw.most,
        length-append {0} vs ws,
        length-le-of_subset (vs ++ ws) members (join-Distinct vs ws hv.distinct hw.distinct apart)
            (All-append (λ v. Elem v members) vs ws hv.inside hw.inside),
      ))
]

others-absent : (i : NodeId) (ms : List NodeId) → ¬ Elem i ms → length (others i ms) ≡ length ms
others-absent i [] out = refl
others-absent i (m ∷ ms) out =
    ground (arith, eq_iff m i, out_head, others-absent i ms (λ k. out (inr k)))
  where
    out_head : m ≢ i
    out_head e = out (inl e)

-- A node and its peers are all the members.
pub length-others :
    (i : NodeId) (members : List NodeId)
    → Distinct members
    → Elem i members
    → length (others i members) + 1 ≡ length members
length-others i [] d h = elim h [ ]
length-others i (m ∷ ms) d (inl e) =
    ground (arith, eq_iff m i, others-absent i ms (subst (λ x. ¬ Elem x ms) e d.0))
length-others i (m ∷ ms) d (inr k) = ground (arith, eq_iff m i, apart, length-others i ms d.1 k)
  where
    apart : m ≢ i
    apart e = d.0 (subst (λ x. Elem x ms) (sym e) k)

-- The peers of a node are the members other than itself.
pub Elem-others : (i p : NodeId) (ms : List NodeId) → Elem p (others i ms) → Elem p ms × (p ≢ i)
Elem-others i p [] h = elim h [ ]
Elem-others i p (m ∷ ms) h = elim (Bool-cases (str_eq m i)) [
  | inl same ↦ let (inside, ne) = Elem-others i p ms (rw same at h) in (inr inside, ne)
  | inr other ↦ elim (rw other at h) [
    | inl e ↦ (inl e, λ k. cc (other, (eq_iff m i).1 (e ∙ k)))
    | inr k ↦ let (inside, ne) = Elem-others i p ms k in (inr inside, ne)
  ]
]

pub others-Distinct : (i : NodeId) (ms : List NodeId) → Distinct ms → Distinct (others i ms)
others-Distinct i [] d = tt
others-Distinct i (m ∷ ms) d = elim (Bool-cases (str_eq m i)) [
  | inl same ↦ rw same (others-Distinct i ms d.1)
  | inr other ↦ rw other ((λ k. d.0 (Elem-others i m ms k).0), others-Distinct i ms d.1)
]
