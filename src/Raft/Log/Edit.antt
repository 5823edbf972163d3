-- ===== src/Raft/Log/Edit.antt =====
-- Changing the log: `append`, `truncateFrom` and `compactTo` of raft/log.go against its view.
use fraud_scoring_platform.Prelude.{
  refl, dec_lt, ◌∙◌, ℕ, zero, suc, ◌+◌, ◌-◌, ◌≤◌, ◌<◌, ◌≡◌, ap, true, none, some, List, [], ◌∷◌,
  ◌++◌, arith, length, take, drop, ltb, leb, ◌==◌, if◌then◌else◌, inc64, length-drop, inc64-eq-add,
  length-take,
}
use fraud_scoring_platform.Raft.Types.{Entry, ok}
use fraud_scoring_platform.Raft.Log.{
  RaftLog, last_entry, last_index, snapshot_index, sentinel, log_term, log_pos, append,
  truncate_from, compact_to,
}
use fraud_scoring_platform.Raft.Log.Shape.{
  Follows, IsLog, HasRoom, view, view_in, index-last_entry, view_in-eq-none, Follows-append,
  Follows-drop, Follows-same, Follows-take, last_entry-append,
}
use fraud_scoring_platform.Raft.Log.Lookup.{log_pos-eq-sub, log_term-inv, view-eq-none}

module _ (l : RaftLog) (good : IsLog l) (es : List Entry)
    (follow : Follows (last_entry l.first l.rest) es) where
  pub append-IsLog : IsLog (append l es)
  unfolding append
  append-IsLog = Follows-append l.first l.rest es good follow

  pub last_index-append : last_index (append l es) ≡ last_index l + length es
  unfolding append
  last_index-append =
      ap (λ (e : Entry). e.index) (last_entry-append l.first l.rest es)
      ∙ index-last_entry (last_entry l.first l.rest) es follow

-- Looking a log up entry by entry, in what stands before and behind a cut.
view_in-append :
    (i : ℕ) (e : Entry) (xs es : List Entry)
    → Follows e xs
    → Follows (last_entry e xs) es
    → view_in i (e ∷ xs ++ es)
      ≡ (if leb i (last_entry e xs).index then view_in i (e ∷ xs) else view_in i es)
unfolding view_in
view_in-append i e [] es h k = ground (arith, view_in_behind)
  where
    view_in_behind : i < e.index → view_in i (e ∷ es) ≡ none
    view_in_behind = view_in-eq-none i e es k
view_in-append i e (x ∷ xs) es h k =
    ground (arith, view_in-append i x xs es h.2 k, index-last_entry x xs h.2)

view_in-take :
    (n i : ℕ) (e : Entry) (xs : List Entry)
    → Follows e xs
    → view_in i (e ∷ take n xs) ≡ (if leb i (e.index + n) then view_in i (e ∷ xs) else none)
unfolding view_in
view_in-take zero i e [] h = ground arith
view_in-take zero i e (x ∷ xs) h = ground (arith, view_in-eq-none i x xs h.2)
view_in-take (suc n) i e [] h = ground arith
view_in-take (suc n) i e (x ∷ xs) h = ground (arith, view_in-take n i x xs h.2)

view_in-drop :
    (n i : ℕ) (e : Entry) (xs : List Entry)
    → Follows e xs
    → view_in i (drop n xs) ≡ (if leb i (e.index + n) then none else view_in i xs)
unfolding view_in
view_in-drop zero i e [] h = ground arith
view_in-drop (suc n) i e [] h = ground arith
view_in-drop zero i e (x ∷ xs) h = ground (arith, view_in-eq-none i x xs h.2)
view_in-drop (suc n) i e (x ∷ xs) h = ground (arith, view_in-drop n i x xs h.2)

-- The log that `truncate_from` leaves: it ends before index `i`.
pub cut : RaftLog → ℕ → RaftLog
cut l i = record l { rest = take (i - snapshot_index l - 1) l.rest }

pub cut-first : (l : RaftLog) (i : ℕ) → (cut l i).first ≡ l.first
unfolding cut
cut-first l i = refl

-- The log that `compact_to` leaves.
compacted : RaftLog → ℕ → ℕ → RaftLog
compacted l i t = record { first = sentinel i t; rest = drop (i - snapshot_index l) l.rest }

module _ (l : RaftLog) (good : IsLog l) (room : HasRoom l) where
  pub view-append :
      (es : List Entry) (follow : Follows (last_entry l.first l.rest) es) (i : ℕ)
      → view (append l es) i ≡ (if leb i (last_index l) then view l i else view_in i es)
  unfolding append
  view-append es follow i = view_in-append i l.first l.rest es good follow

  pub truncate_from-eq-cut :
      (i : ℕ) → snapshot_index l < i → i ≤ last_index l → truncate_from l i ≡ ok (cut l i)
  unfolding truncate_from cut
  truncate_from-eq-cut i lo hi = ground (
    arith,
    log_pos-eq-sub l good room i (omega arith) hi,
    index-last_entry l.first l.rest good,
    ap (λ p. take (p - 1) l.rest) (log_pos-eq-sub l good room i (omega arith) hi),
  )

  pub cut-IsLog : (i : ℕ) → IsLog (cut l i)
  unfolding cut
  cut-IsLog i = Follows-take (i - snapshot_index l - 1) l.first l.rest good

  pub last_index-cut :
      (i : ℕ) → snapshot_index l < i → i ≤ last_index l → last_index (cut l i) + 1 ≡ i
  unfolding cut
  last_index-cut i lo hi =
      let n = i - snapshot_index l - 1 in
      omega (
        arith,
        index-last_entry l.first (take n l.rest) (Follows-take n l.first l.rest good),
        length-take n l.rest,
        index-last_entry l.first l.rest good,
      )

  pub view-cut :
      (i j : ℕ) → snapshot_index l < i → view (cut l i) j ≡ (if ltb j i then view l j else none)
  unfolding cut
  view-cut i j lo = ground (arith, view_in-take (i - snapshot_index l - 1) j l.first l.rest good)

  -- On a well-formed log whose next index is a uint64, truncating above the snapshot never panics.
  -- It deletes exactly the entries from `i` on, and the log stays well formed.
  pub truncate_from_lem :
      (i : ℕ)
      → snapshot_index l < i
      → (l' : RaftLog) × (truncate_from l i ≡ ok l')
        × IsLog l'
        × ((j : ℕ) → view l' j ≡ (if ltb j i then view l j else none))
  unfolding truncate_from
  truncate_from_lem i lo = elim (dec_lt (last_index l) i) [
    | yes past ↦ (l, ground arith, good, λ j. ground (arith, view-eq-none l good j))
    | no inside ↦
        (cut l i, truncate_from-eq-cut i lo (omega arith), cut-IsLog i, λ j. view-cut i j lo)
  ]

  compact_to-eq-compacted :
      (i t : ℕ) → snapshot_index l ≤ i → i ≤ last_index l → compact_to l i t ≡ ok (compacted l i t)
  unfolding compact_to compacted
  compact_to-eq-compacted i t lo hi =
      let start : inc64 (log_pos l i) ≡ suc (i - snapshot_index l) = omega (
        arith,
        log_pos-eq-sub l good room i lo hi,
        inc64-eq-add (log_pos l i) (omega (arith, log_pos-eq-sub l good room i lo hi)),
      ) in
      rw start (ground (arith, index-last_entry l.first l.rest good))

  compacted-IsLog : (i t : ℕ) → log_term l i ≡ ok (t, true) → IsLog (compacted l i t)
  unfolding compacted
  compacted-IsLog i t h =
      let (_, _, x, found, at, same) = log_term-inv l good room i t h in
      let d = i - snapshot_index l in
      Follows-same x (sentinel i t) (drop d l.rest) at same
        (Follows-drop d l.first x l.rest good found)

  view-compacted :
      (i t j : ℕ)
      → snapshot_index l ≤ i
      → view (compacted l i t) j
        ≡ (if leb j i then (if j == i then some (sentinel i t) else none) else view l j)
  unfolding compacted view_in
  view-compacted i t j lo =
      ground (arith, view_in-drop (i - snapshot_index l) j l.first l.rest good)

  -- On a well-formed log whose next index is a uint64, compacting up to an index that has the term
  -- `t` never panics. It replaces the entries up to there by the sentinel, keeps every later one,
  -- and the log stays well formed with the same last index.
  pub compact_to_lem :
      (i t : ℕ)
      → log_term l i ≡ ok (t, true)
      → (l' : RaftLog) × (compact_to l i t ≡ ok l')
        × IsLog l'
        × (last_index l' ≡ last_index l)
        × ((j : ℕ)
            → view l' j
              ≡ (if leb j i then (if j == i then some (sentinel i t) else none) else view l j))
  compact_to_lem i t h =
      let (lo, hi, _, _, _, _) = log_term-inv l good room i t h in
      (
        compacted l i t,
        compact_to-eq-compacted i t lo hi,
        compacted-IsLog i t h,
        unfold compacted in
            omega (
              arith,
              index-last_entry (sentinel i t) (drop (i - snapshot_index l) l.rest)
                  (unfold compacted in compacted-IsLog i t h),
              length-drop (i - snapshot_index l) l.rest,
              index-last_entry l.first l.rest good,
            ),
        λ j. view-compacted i t j lo,
      )
