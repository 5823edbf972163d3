-- ===== src/Raft/Log/Lookup.antt =====
-- Reading the log: `term`, `matches` and `entriesFrom` of raft/log.go against the log's view.
use fraud_scoring_platform.Prelude.{
  subst, dec_lt, ◌∙◌, ℕ, ◌+◌, ◌-◌, ◌≤◌, ◌<◌, ◌≡◌, ap, sym, Bool, true, false, ◌&&◌, Option, none,
  some, List, [], arith, length, get_elem?, get_elem?-eq-none, get_elem?-drop, get_elem?-take,
  length-take, take, drop, ◌≢◌, ◌⊎◌, ltb, ◌==◌, if◌then◌else◌, sub64-eq-sub,
}
use fraud_scoring_platform.Raft.Types.{Entry, ok}
use fraud_scoring_platform.Raft.Log.{
  RaftLog, entries, last_index, last_term, snapshot_index, log_pos, log_term, term_at, matches,
  entries_from,
}
use fraud_scoring_platform.Raft.Log.Shape.{
  term_mono, IsLog, HasRoom, view, index-last_entry, view_in-eq-none, view_in-eq-get_elem?,
  get_elem?-eq-some,
}

-- What `term` reports of an entry that may be missing.
abbrev pub term_of : Option Entry → ℕ × Bool
term_of none = (0, false)
term_of (some e) = (e.term, true)

module _ (l : RaftLog) (good : IsLog l) where
  -- Within its bounds the log has an entry at each index.
  pub view-eq-some :
      (i : ℕ)
      → snapshot_index l ≤ i
      → i ≤ last_index l
      → (x : Entry) × (view l i ≡ some x)
        × (get_elem? (entries l) (i - snapshot_index l) ≡ some x)
        × (x.index ≡ i)
        × (x.term ≤ last_term l)
  view-eq-some i lo hi =
      let (x, found, at, _, le) =
        get_elem?-eq-some (i - l.first.index) l.first l.rest good
          (omega (arith, index-last_entry l.first l.rest good)) in
      (
        x,
        view_in-eq-get_elem? (i - l.first.index) i l.first l.rest good (omega arith) ∙ found,
        found,
        omega arith,
        le,
      )

  pub view-eq-none : (i : ℕ) → last_index l < i → view l i ≡ none
  view-eq-none i lt =
      view_in-eq-get_elem? (i - l.first.index) i l.first l.rest good
        (omega (arith, index-last_entry l.first l.rest good))
      ∙ get_elem?-eq-none (i - l.first.index) (entries l)
          (omega (arith, index-last_entry l.first l.rest good))

  -- What the log has at an index is an entry of that index, within its bounds.
  pub view-inv :
      (i : ℕ) (x : Entry)
      → view l i ≡ some x
      → (snapshot_index l ≤ i)
        × (i ≤ last_index l)
        × (get_elem? (entries l) (i - snapshot_index l) ≡ some x)
        × (x.index ≡ i)
        × (x.term ≤ last_term l)
  view-inv i x seen = elim (dec_lt i (snapshot_index l)) [
    | yes lt ↦ absurd (cc (view_in-eq-none i l.first l.rest good lt, seen))
    | no ge ↦ elim (dec_lt (last_index l) i) [
      | yes lt ↦ absurd (cc (view-eq-none i lt, seen))
      | no le ↦
          let (y, found, at, index, term) = view-eq-some i (omega arith) (omega arith) in
          let same : y ≡ x = cc (found, seen) in
          (
            omega arith,
            omega arith,
            at ∙ ap some same,
            cc (index, same),
            subst (λ z. z.term ≤ last_term l) same term,
          )
    ]
  ]

  -- Terms never go down from one index to a later one.
  pub view_mono :
      (i j : ℕ) (x y : Entry) → i ≤ j → view l i ≡ some x → view l j ≡ some y → x.term ≤ y.term
  view_mono i j x y le a b =
      let (lo, _, at_x, _, _) = view-inv i x a in
      let (_, _, at_y, _, _) = view-inv j y b in
      term_mono (i - snapshot_index l) (j - snapshot_index l) l.first x y l.rest good (omega arith)
        at_x at_y

module _ (l : RaftLog) (good : IsLog l) (room : HasRoom l) where
  pub log_pos-eq-sub :
      (i : ℕ) → snapshot_index l ≤ i → i ≤ last_index l → log_pos l i ≡ i - snapshot_index l
  unfolding log_pos
  log_pos-eq-sub i lo hi = sub64-eq-sub i (snapshot_index l) lo (omega arith)

  term_inside :
      (i : ℕ) → snapshot_index l ≤ i → i ≤ last_index l → log_term l i ≡ ok (term_of (view l i))
  unfolding log_term
  term_inside i lo hi =
      let (x, seen, found, _, _) = view-eq-some l good i lo hi in
      ground (
        arith,
        log_pos-eq-sub i lo hi,
        ap term_at (ap (get_elem? (entries l)) (log_pos-eq-sub i lo hi) ∙ found),
        seen,
      )

  -- `term` never panics, and reports the entry that the log has at the index, if any.
  pub log_term_lem : (i : ℕ) → log_term l i ≡ ok (term_of (view l i))
  unfolding log_term
  log_term_lem i = elim (dec_lt i (snapshot_index l)) [
    | yes lt ↦ ground (arith, view_in-eq-none i l.first l.rest good lt)
    | no ge ↦ elim (dec_lt (last_index l) i) [
      | yes lt ↦ ground (arith, view-eq-none l good i lt)
      | no le ↦ term_inside i (omega arith) (omega arith)
    ]
  ]

  -- `matches` never panics, and holds exactly of an index and the term of the entry there.
  pub matches_lem :
      (i t : ℕ) → matches l i t ≡ ok ((term_of (view l i)).1 && (term_of (view l i)).0 == t)
  unfolding matches
  matches_lem i t = rw (log_term_lem i)

-- At most `limit` of the entries, if `limit` is not 0.
abbrev pub batch : ℕ → List Entry → List Entry
batch limit src = if ltb 0 limit && ltb limit (length src) then take limit src else src

get_elem?-batch :
    (limit d : ℕ) (src : List Entry)
    → (limit ≡ 0) ⊎ (d < limit)
    → get_elem? (batch limit src) d ≡ get_elem? src d
get_elem?-batch limit d src h = ground (arith, get_elem?-take limit d src)

length-batch : (limit : ℕ) (src : List Entry) → limit ≢ 0 → length (batch limit src) ≤ limit
length-batch limit src h = ground (arith, length-take limit src)

module _ (l : RaftLog) (good : IsLog l) (room : HasRoom l) where
  pub entries_from-eq-batch :
      (lo limit : ℕ)
      → snapshot_index l < lo
      → lo ≤ last_index l
      → entries_from l lo limit ≡ ok (batch limit (drop (lo - snapshot_index l) (entries l)))
  unfolding entries_from
  entries_from-eq-batch lo limit above hi = ground (
    arith,
    log_pos-eq-sub l good room lo (omega arith) hi,
    ap (λ p. drop p (entries l)) (log_pos-eq-sub l good room lo (omega arith) hi),
    index-last_entry l.first l.rest good,
  )

  pub entries_from-eq-nil :
      (lo limit : ℕ) → snapshot_index l < lo → last_index l < lo → entries_from l lo limit ≡ ok []
  unfolding entries_from
  entries_from-eq-nil lo limit above past = ground arith

  -- On a well-formed log whose next index is a uint64, above the snapshot, `entries_from` never
  -- panics. It returns the entries of the log from index `lo` on in order, without a gap, as many
  -- as the limit allows, where 0 is no limit.
  pub entries_from_lem :
      (lo limit : ℕ)
      → snapshot_index l < lo
      → (es : List Entry) × (entries_from l lo limit ≡ ok es)
        × ((d : ℕ) → (limit ≡ 0) ⊎ (d < limit) → get_elem? es d ≡ view l (lo + d))
        × (limit ≢ 0 → length es ≤ limit)
  entries_from_lem lo limit above = elim (dec_lt (last_index l) lo) [
    | yes past ↦ (
      [],
      entries_from-eq-nil lo limit above past,
      λ d h. sym (view-eq-none l good (lo + d) (omega arith)),
      λ h. omega arith,
    )
    | no inside ↦
        let src = drop (lo - snapshot_index l) (entries l) in
        (
          batch limit src,
          entries_from-eq-batch lo limit above (omega arith),
          λ d h.
              get_elem?-batch limit d src h
              ∙ get_elem?-drop (lo - snapshot_index l) d (lo + d - snapshot_index l) (entries l)
                  (omega arith)
              ∙ sym (
                  view_in-eq-get_elem? (lo + d - snapshot_index l) (lo + d) l.first l.rest good
                    (omega arith)),
          λ h. length-batch limit src h,
        )
  ]

  -- An index that has a term lies within the log, and is that of an entry with this term.
  pub log_term-inv :
      (i t : ℕ)
      → log_term l i ≡ ok (t, true)
      → (snapshot_index l ≤ i)
        × (i ≤ last_index l)
        × (x : Entry) × (get_elem? (entries l) (i - snapshot_index l) ≡ some x)
        × (x.index ≡ i)
        × (x.term ≡ t)
  unfolding log_term
  log_term-inv i t h =
      let lo : snapshot_index l ≤ i = ground arith in
      let hi : i ≤ last_index l = ground arith in
      let (x, seen, found, at, _) = view-eq-some l good i lo hi in
      (lo, hi, x, found, at, cc (h, log_term_lem l good room i, seen))
