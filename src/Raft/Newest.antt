-- ===== src/Raft/Newest.antt =====
-- `lastIndexOfTerm` of raft/log.go, which searches from the end and stops early.
use fraud_scoring_platform.Raft.Types.{Entry}
use fraud_scoring_platform.Raft.Log.{scan_down, last_index_of_term, RaftLog}
use fraud_scoring_platform.Raft.Log.Shape.{IsLog, Follows}
use mathlib.Core.List.{reverse_aux}
use fraud_scoring_platform.Prelude.{
  Elem, reverse, ltb, ◌∙◌, none, ◌==◌, ap, ◌≡◌, ◌<◌, inr, Bool-cases, some, inl, [], ◌≢◌, ◌⊎◌, ◌∷◌,
  Option, ◌≤◌, ℕ, List, arith, refl,
}

-- The entries of a list are below `d`.
abbrev Below : Entry → List Entry → Type 0
Below d es = (x : Entry) → Elem x es → (x.term ≤ d.term) × (x.index < d.index)

-- A list of entries from the newest down.
abbrev Down : List Entry → Type 0
Down [] = Unit
Down (d ∷ ds) = Below d ds × Down ds

-- The answer is the highest index of an entry of the term, or no entry is of the term.
abbrev pub IsHighest : ℕ → List Entry → Option ℕ → Type 0
IsHighest t es none = (x : Entry) → Elem x es → x.term ≢ t
IsHighest t es (some i) =
    ((x : Entry) × Elem x es × (x.term ≡ t) × (x.index ≡ i))
    × ((x : Entry) → Elem x es → x.term ≡ t → x.index ≤ i)

scan_down-none :
    (t : ℕ) (d : Entry) (ds : List Entry)
    → d.term ≢ t
    → IsHighest t ds (scan_down t ds)
    → IsHighest t (d ∷ ds) (scan_down t ds)
scan_down-none t d ds ne h = go (scan_down t ds) h
  where
    go : (o : Option ℕ) → IsHighest t ds o → IsHighest t (d ∷ ds) o
    go none h = λ x. elim [ inl e ↦ (λ k. ne (ap (λ y. y.term) e ∙ k)) | inr e ↦ h x e ]
    go (some i) ((x, e, at, k), h) = (
      (x, inr e, at, k),
      λ y. elim [ inl e ↦ (λ k. absurd (ne (ap (λ y. y.term) e ∙ k))) | inr e ↦ h y e ],
    )

scan_down_lem : (t : ℕ) (ds : List Entry) → Down ds → IsHighest t ds (scan_down t ds)
unfolding scan_down
scan_down_lem t [] h = λ x e. absurd e
scan_down_lem t (d ∷ ds) h = elim (Bool-cases (d.term == t)) [
  | inl same ↦ rw same (
    (d, inl refl, ground (arith, same), refl),
    λ x. elim [
      | inl e ↦ (λ k. ground (arith, ap (λ y. y.index) e))
      | inr e ↦ (λ k. ground (arith, (h.0 x e).1))
    ],
  )
  | inr other ↦ rw other (elim (Bool-cases (ltb d.term t)) [
    | inl past ↦ rw past (λ x. elim [
      | inl e ↦ (λ k. ground (arith, past, ap (λ y. y.term) e, k))
      | inr e ↦ (λ k. ground (arith, past, (h.0 x e).0, k))
    ])
    | inr more ↦
        rw more (scan_down-none t d ds (λ e. ground (arith, other, e)) (scan_down_lem t ds h.1))
  ])
]

Elem-reverse_aux :
    (x : Entry) (xs acc : List Entry)
    → (Elem x (reverse_aux xs acc) → Elem x xs ⊎ Elem x acc)
      × (Elem x xs ⊎ Elem x acc → Elem x (reverse_aux xs acc))
Elem-reverse_aux x [] acc = (inr, elim [ inl e ↦ absurd e | inr e ↦ e ])
Elem-reverse_aux x (y ∷ xs) acc =
    let (to, from) = Elem-reverse_aux x xs (y ∷ acc) in
    (
      λ e. elim (to e) [ inl a ↦ inl (inr a) | inr (inl a) ↦ inl (inl a) | inr (inr a) ↦ inr a ],
      elim [
        | inl (inl a) ↦ from (inr (inl a))
        | inl (inr a) ↦ from (inl a)
        | inr a ↦ from (inr (inr a))
      ],
    )

Down-reverse_aux :
    (e : Entry) (xs acc : List Entry)
    → Follows e xs
    → Down (e ∷ acc)
    → Down (reverse_aux xs (e ∷ acc))
Down-reverse_aux e [] acc h d = d
Down-reverse_aux e (x ∷ xs) acc h d = Down-reverse_aux x xs (e ∷ acc) h.2 (under, d)
  where
    under : Below x (e ∷ acc)
    under y (inl k) = omega (arith, h.0, h.1, ap (λ z. z.term) k, ap (λ z. z.index) k)
    under y (inr k) = omega (arith, h.0, h.1, d.0 y k)

-- Reversing keeps the entries.
IsHighest-reverse :
    (t : ℕ) (es : List Entry) (o : Option ℕ) → IsHighest t (reverse es) o → IsHighest t es o
IsHighest-reverse t es none h = λ x e. h x ((Elem-reverse_aux x es []).1 (inl e))
IsHighest-reverse t es (some i) ((x, e, at, k), h) = (
  (x, elim ((Elem-reverse_aux x es []).0 e) [ inl a ↦ a | inr a ↦ absurd a ], at, k),
  λ y a. h y ((Elem-reverse_aux y es []).1 (inl a)),
)

reverse-Down : (e : Entry) (es : List Entry) → Follows e es → Down (reverse es)
reverse-Down e [] h = tt
reverse-Down e (x ∷ es) h = Down-reverse_aux x es [] h.2 ((λ y a. absurd a), tt)

-- In a well-formed log, `last_index_of_term` returns the highest index behind the sentinel whose
-- entry has the term, and nothing only if no entry there has it: stopping at the first older term
-- misses none.
pub last_index_of_term_lem :
    (l : RaftLog) (t : ℕ) → IsLog l → IsHighest t l.rest (last_index_of_term l t)
unfolding last_index_of_term
last_index_of_term_lem l t good =
    IsHighest-reverse t l.rest (scan_down t (reverse l.rest))
      (scan_down_lem t (reverse l.rest) (reverse-Down l.first l.rest good))
