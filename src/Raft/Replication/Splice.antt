-- ===== src/Raft/Replication/Splice.antt =====
-- The log after the loop of `HandleAppendEntries` (raft/replication.go), index by index, when the
-- entries that the log has already are those of the request.
use fraud_scoring_platform.Raft.Log
use fraud_scoring_platform.Raft.Log.Edit.{cut-first}
use fraud_scoring_platform.Raft.Types.{Entry}
use fraud_scoring_platform.Raft.Log.{last_index, RaftLog}
use fraud_scoring_platform.Raft.Replication.Merge.{
  skip-Continues, view-new, has_at, merged_lem, IsMerged, Conflict, Continues, HasAt, kept, merged,
}
use fraud_scoring_platform.Raft.Log.Shape.{view, HasRoom, IsLog, Follows, view_in}
use fraud_scoring_platform.Prelude.{
  sym, Bool-cases, ap, ◌∙◌, dec_lt, true, [], inl, ◌⊎◌, ◌∷◌, some, none, inr, length, ◌≤◌, ◌<◌, ◌+◌,
  ◌≡◌, ℕ, All, List, arith, refl,
}

-- An entry of the request that the log seems to have, by its term, is the entry of the log.
abbrev pub AreSame : RaftLog → List Entry → Type 0
AreSame l es = All (λ (e : Entry). HasAt l e.index e.term → view l e.index ≡ some e) es

-- `l'` has the entries `es` behind `p`, and behind them what `l` had or nothing.
pub record IsSpliced (l : RaftLog) (p : Entry) (es : List Entry) (l' : RaftLog) : Type 0 where
  pub first : l'.first ≡ l.first
  pub stored : (j : ℕ) → p.index < j → j ≤ p.index + length es → view l' j ≡ view_in j es
  pub beyond :
      (j : ℕ)
      → p.index + length es < j
      → (view l' j ≡ none) ⊎ ((i : ℕ) → i ≤ j → view l' i ≡ view l i)

view_in-past :
    (e : Entry) (es : List Entry) (j : ℕ)
    → Follows e es
    → e.index + length es < j
    → view_in j es ≡ none
unfolding view_in
view_in-past e [] j h lt = refl
view_in-past e (x ∷ xs) j h lt = ground (arith, view_in-past x xs j h.2)

kept-first : (l : RaftLog) (i : ℕ) → (kept l i).first ≡ l.first
unfolding kept
kept-first l i = ground (arith, cut-first l i)

pub merged-IsSpliced :
    (es : List Entry) (l : RaftLog) (p : Entry)
    → IsLog l
    → HasRoom l
    → Continues l p es
    → AreSame l es
    → IsSpliced l p es (merged l es)
unfolding merged view_in Log.append
merged-IsSpliced [] l p good room c same = record {
  first = refl;
  stored = λ j lo hi. absurd (omega arith);
  beyond = λ j lo. inr (λ i le. refl);
}
merged-IsSpliced (e ∷ es) l p good room c same = elim (Bool-cases (has_at l e.index e.term)) [
  | inr new ↦ rw new (record {
    first = kept-first l e.index;
    stored = λ j lo hi. view-new l good room p e es c j ∙ ground arith;
    beyond = λ j lo.
        inl (ground (arith, view-new l good room p e es c j, view_in-past p (e ∷ es) j c.follow));
  })
  | inl old ↦
      let next = skip-Continues l good room p e es c old in
      rw old (
        skipped old (merged_lem es l e good room next)
          (merged-IsSpliced es l e good room next same.1))
]
  where
    skipped :
        has_at l e.index e.term ≡ true
        → IsMerged l e es (merged l es)
        → IsSpliced l e es (merged l es)
        → IsSpliced l p (e ∷ es) (merged l es)
    skipped old m k = record {
      first = k.first;
      stored = at;
      beyond = λ j lo. k.beyond j (omega (arith, c.follow));
    }
      where
        at :
            (j : ℕ)
            → p.index < j
            → j ≤ p.index + length (e ∷ es)
            → view (merged l es) j ≡ view_in j (e ∷ es)
        at j lo hi = elim (dec_lt e.index j) [
          | yes lt ↦ ground (arith, k.stored j lt, c.follow)
          | no ge ↦
              ground (arith, m.before j, same.0, c.follow, old, ap (view l) {x = j} {y = e.index})
        ]

-- The entries of the request that stand in the log by their indexes are no conflict.
Agrees-not_Conflict :
    (l : RaftLog) (p : Entry) (es : List Entry)
    → Follows p es
    → ((j : ℕ) → p.index < j → j ≤ p.index + length es → view l j ≡ view_in j es)
    → ¬ Conflict l es
unfolding view_in
Agrees-not_Conflict l p [] h same k = k
Agrees-not_Conflict l p (e ∷ es) h same (inl (there, other)) =
    ground (arith, same e.index, h.0, other)
Agrees-not_Conflict l p (e ∷ es) h same (inr k) =
    Agrees-not_Conflict l e es h.2 (λ j lo hi. ground (arith, same j, h.0)) k

-- As far as the log is that of the request, merging changes nothing.
pub merged-same :
    (l : RaftLog) (p : Entry) (es : List Entry) (k : ℕ)
    → IsLog l
    → HasRoom l
    → Continues l p es
    → AreSame l es
    → k ≤ last_index l
    → ((j : ℕ) → p.index < j → j ≤ p.index + length es → j ≤ k → view l j ≡ view_in j es)
    → (j : ℕ) → j ≤ k
    → view (merged l es) j ≡ view l j
merged-same l p es k good room c alike inside same j le = elim (dec_lt (p.index + length es) j) [
  | yes past ↦ elim m.cuts [
    | inl hit ↦
        absurd (Agrees-not_Conflict l p es c.follow (λ i lo hi. same i lo hi (omega arith)) hit)
    | inr all ↦ all j (omega arith)
  ]
  | no within ↦ elim (dec_lt p.index j) [
    | yes lo ↦ x.stored j lo (omega arith) ∙ sym (same j lo (omega arith) le)
    | no hi ↦ m.before j (omega arith)
  ]
]
  where
    m : IsMerged l p es (merged l es)
    m = merged_lem es l p good room c

    x : IsSpliced l p es (merged l es)
    x = merged-IsSpliced es l p good room c alike
