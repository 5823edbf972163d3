-- ===== src/Raft/Replication/Merge.antt =====
-- What the loop of `HandleAppendEntries` (raft/replication.go) makes of the log.
use fraud_scoring_platform.Raft.Log.Shape.{
  Follows-same, view_in, Follows, get_elem?-last_entry, index-last_entry, view_in-eq-get_elem?,
  view, HasRoom, IsLog,
}
use fraud_scoring_platform.Raft.Types.{Entry}
use fraud_scoring_platform.Raft.Log.Lookup.{view-eq-none, view-eq-some, term_of}
use fraud_scoring_platform.Prelude.{
  leb, All-map2, ◌≢◌, le→ltb, lt→ltb, ℕ, ◌+◌, ◌≤◌, ◌<◌, ◌≡◌, refl, ap, sym, ◌∙◌, ◌⊎◌, inl, inr,
  Bool, true, false, ◌&&◌, List, [], ◌∷◌, All, arith, dec_lt, ltb, ◌==◌, if◌then◌else◌, Bool-cases,
  some, length,
}
use fraud_scoring_platform.Raft.Log
use fraud_scoring_platform.Raft.Log.{RaftLog, last_index, last_entry, snapshot_index}
use fraud_scoring_platform.Raft.Log.Edit.{
  view-append, last_index-append, append-IsLog, view-cut, last_index-cut, cut-IsLog, cut,
}

-- The log has an entry of the term at the index.
abbrev pub HasAt : RaftLog → ℕ → ℕ → Type 0
HasAt l i t = term_of (view l i) ≡ (t, true)

abbrev pub has_at : RaftLog → ℕ → ℕ → Bool
has_at l i t = (term_of (view l i)).1 && (term_of (view l i)).0 == t

-- The log without what stands at index `i` and behind.
unfoldable pub kept : RaftLog → ℕ → RaftLog
kept l i = if ltb (last_index l) i then l else cut l i

-- Entries that the log has are skipped; from the first that it does not have on, the new ones
-- replace what stands there.
unfoldable pub merged : RaftLog → List Entry → RaftLog
merged l [] = l
merged l (e ∷ es) =
    if has_at l e.index e.term then merged l es else Log.append (kept l e.index) (e ∷ es)

pub last-view : (l : RaftLog) → IsLog l → view l (last_index l) ≡ some (last_entry l.first l.rest)
last-view l good =
    view_in-eq-get_elem? (length l.rest) (last_index l) l.first l.rest good
      (sym (index-last_entry l.first l.rest good))
    ∙ get_elem?-last_entry l.first l.rest

module _ (l : RaftLog) (good : IsLog l) (room : HasRoom l) where
  kept_lem :
      (i : ℕ)
      → snapshot_index l < i
      → i ≤ last_index l + 1
      → IsLog (kept l i)
        × (last_index (kept l i) + 1 ≡ i)
        × ((j : ℕ) → j < i → view (kept l i) j ≡ view l j)
  unfolding kept
  kept_lem i lo hi = elim (dec_lt (last_index l) i) [
    | yes past ↦ rw (lt→ltb _ _ past) (good, omega arith, λ j h. refl)
    | no inside ↦ rw (le→ltb (last_index l) i (omega arith)) (
      cut-IsLog l good room i,
      last_index-cut l good room i lo (omega arith),
      λ j h. view-cut l good room i j lo ∙ ground arith,
    )
  ]

-- The terms of the entries stand at their indexes.
abbrev pub HasAll : RaftLog → List Entry → Type 0
HasAll l es = All (λ (e : Entry). HasAt l e.index e.term) es

-- `p` stands before the entries, and in the log.
pub record Continues (l : RaftLog) (p : Entry) (es : List Entry) : Type 0 where
  pub above : snapshot_index l ≤ p.index
  pub inside : p.index ≤ last_index l
  pub known : HasAt l p.index p.term
  pub follow : Follows p es

pub Follows-above :
    (p : Entry) (es : List Entry) → Follows p es → All (λ (e : Entry). p.index < e.index) es
Follows-above p [] h = tt
Follows-above p (e ∷ es) h = (
  omega arith,
  All-map2 (λ x (a b : e.index < x.index). omega arith) es (Follows-above e es h.2)
      (Follows-above e es h.2),
)

-- Entries without a gap are found at their indexes.
abbrev InList : List Entry → Entry → Type 0
InList es e = term_of (view_in e.index es) ≡ (e.term, true)

InList-cons : (e x : Entry) (es : List Entry) → e.index < x.index → InList es x → InList (e ∷ es) x
unfolding view_in
InList-cons e x es a b = cc (b, skip)
  where
    skip : view_in x.index (e ∷ es) ≡ view_in x.index es
    skip = ground arith

view_in-InList : (p : Entry) (es : List Entry) → Follows p es → All (InList es) es
view_in-InList p [] h = tt
view_in-InList p (e ∷ es) h = (
  unfold view_in in ground arith,
  All-map2 {R = InList (e ∷ es)} (λ x a b. InList-cons e x es a b) es (Follows-above e es h.2)
      (view_in-InList e es h.2),
)

-- Some entry of the request stands against one of the log: same index, another term.
abbrev pub Conflict : RaftLog → List Entry → Type 0
Conflict l [] = ⊥
Conflict l (e ∷ es) =
    (((term_of (view l e.index)).1 ≡ true) × ((term_of (view l e.index)).0 ≢ e.term))
    ⊎ Conflict l es

-- `l'` is `l` with the entries `es` behind `p` merged into it.
pub record IsMerged (l : RaftLog) (p : Entry) (es : List Entry) (l' : RaftLog) : Type 0 where
  pub good : IsLog l'
  pub all : HasAll l' es
  pub before : (j : ℕ) → j ≤ p.index → view l' j ≡ view l j
  pub reach : p.index + length es ≤ last_index l'
  pub cuts : Conflict l es ⊎ ((j : ℕ) → j ≤ last_index l → view l' j ≡ view l j)

module _ (l : RaftLog) (good : IsLog l) (room : HasRoom l) (p e : Entry) (es : List Entry)
    (c : Continues l p (e ∷ es)) where
  abbrev base : RaftLog
  base = kept l e.index

  pub base_lem :
      IsLog base
      × (last_index base + 1 ≡ e.index)
      × ((j : ℕ) → j < e.index → view base j ≡ view l j)
  base_lem = kept_lem l good room e.index (omega (arith, c.above)) (omega (arith, c.inside))

  -- What is left of the log ends in an entry of the index and the term of `p`.
  pub base-last :
      ((last_entry base.first base.rest).index ≡ p.index)
      × ((last_entry base.first base.rest).term ≡ p.term)
  base-last =
      let (base_good, at, same) = base_lem in
      let last = last_entry base.first base.rest in
      let i : last.index ≡ p.index = omega (arith, c.follow) in
      let seen : view l p.index ≡ some last =
        sym (same p.index (omega (arith, c.follow)))
        ∙ ap (view base) (sym i)
        ∙ last-view base base_good in
      (i, cc (c.known, seen))

  base-follow : Follows (last_entry base.first base.rest) (e ∷ es)
  base-follow =
      Follows-same p (last_entry base.first base.rest) (e ∷ es) (sym base-last.0) (sym base-last.1)
        c.follow

  pub view-new :
      (j : ℕ)
      → view (Log.append base (e ∷ es)) j ≡ (if leb j p.index then view l j else view_in j (e ∷ es))
  view-new j =
      let (base_good, at, same) = base_lem in
      let seen =
        view-append base base_good (omega (arith, c.inside, c.follow)) (e ∷ es) base-follow j in
      ground (arith, seen, at, same j, c.follow)

  -- The log has an entry there exactly when the index is not behind its end.
  found-lem : e.index ≤ last_index l → (term_of (view l e.index)).1 ≡ true
  found-lem le =
      let (x, seen, _, _, _) = view-eq-some l good e.index (omega (arith, c.above, c.follow)) le in
      ap (λ o. (term_of o).1) seen

  append-IsMerged :
      has_at l e.index e.term ≡ false → IsMerged l p (e ∷ es) (Log.append base (e ∷ es))
  append-IsMerged h = record {
    good = append-IsLog base base_lem.0 (e ∷ es) base-follow;
    all =
        All-map2 {R = λ (x : Entry). HasAt (Log.append base (e ∷ es)) x.index x.term}
          (λ x a b. ground (arith, view-new x.index)) (e ∷ es) (Follows-above p (e ∷ es) c.follow)
          (view_in-InList p (e ∷ es) c.follow);
    before = λ j le. ground (arith, view-new j);
    reach =
        omega (arith, last_index-append base base_lem.0 (e ∷ es) base-follow, base_lem.1, c.follow);
    cuts = elim (dec_lt (last_index l) e.index) [
      | yes past ↦ inr (λ j le. ground (arith, view-new j, c.follow))
      | no inside ↦ inl (inl (found-lem (omega arith), ground (arith, found-lem (omega arith))))
    ];
  }

pub skip-Continues :
    (l : RaftLog) (good : IsLog l) (room : HasRoom l) (p e : Entry) (es : List Entry)
    → Continues l p (e ∷ es)
    → has_at l e.index e.term ≡ true
    → Continues l e es
skip-Continues l good room p e es c h = record {
  above = omega (arith, c.above, c.follow);
  inside = elim (dec_lt (last_index l) e.index) [
    | yes past ↦ absurd (ground (arith, view-eq-none l good e.index past))
    | no le ↦ omega arith
  ];
  known = ground arith;
  follow = c.follow.2;
}

-- Merging entries that continue a known one: the log stays well formed and then has all of them;
-- nothing up to the known entry changes, and nothing at all that the log had, unless a new entry
-- stands against an old one.
pub merged_lem :
    (es : List Entry) (l : RaftLog) (p : Entry)
    → IsLog l
    → HasRoom l
    → Continues l p es
    → IsMerged l p es (merged l es)
unfolding merged
merged_lem [] l p good room c = record {
  good = good;
  all = tt;
  before = λ j le. refl;
  reach = omega (arith, c.inside);
  cuts = inr (λ j le. refl);
}
merged_lem (e ∷ es) l p good room c = elim (Bool-cases (has_at l e.index e.term)) [
  | inr new ↦ rw new (append-IsMerged l good room p e es c new)
  | inl old ↦
      rw old (skipped old (merged_lem es l e good room (skip-Continues l good room p e es c old)))
]
  where
    skipped :
        has_at l e.index e.term ≡ true
        → IsMerged l e es (merged l es)
        → IsMerged l p (e ∷ es) (merged l es)
    skipped old m = record {
      good = m.good;
      all = (ground (arith, m.before e.index), m.all);
      before = λ j le. m.before j (omega (arith, c.follow));
      reach = omega (arith, m.reach, c.follow);
      cuts = elim m.cuts [ inl hit ↦ inl (inr hit) | inr same ↦ inr same ];
    }
