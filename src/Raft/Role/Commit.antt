-- ===== src/Raft/Role/Commit.antt =====
-- `advanceCommitIndex` of raft/replication.go finds the newest entry of the current term that a
-- majority has stored.
use fraud_scoring_platform.Raft.Role.Majority.{IsMajority, quorum_iff}
use fraud_scoring_platform.Raft.Log.{log_term}
use fraud_scoring_platform.Raft.Types.{ok, Entry}
use fraud_scoring_platform.Raft.Log.{last_index, last_term, snapshot_index}
use fraud_scoring_platform.Raft.Role.{advance_commit_index, count_stored, find_commit}
use fraud_scoring_platform.Raft.Log.Lookup.{log_term_lem, view-eq-some, term_of}
use fraud_scoring_platform.Raft.Log.Shape.{term_mono, HasRoom, view, IsLog}
use fraud_scoring_platform.Raft.Node.{quorum, Node}
use fraud_scoring_platform.Prelude.{
  sym, ◌⊎◌, subst, dec_lt, refl, leb, inl, inr, Bool-cases, ap, ◌∙◌, ◌-◌, false, arith, ◌==◌, ◌+◌,
  none, true, some, ◌≡◌, ◌≤◌, ◌<◌, Option, ℕ, zero, suc,
}

-- A majority of the cluster, the leader included, has stored the entry of index `i`, and it is of
-- the leader's term.
pub record IsCommittable {D : Type 0} (n : Node D) (i : ℕ) : Type 0 where
  pub own_term : term_of (view n.log i) ≡ (n.current_term, true)
  pub majority : IsMajority n.match_index i n.peers

-- A leader's log: well formed, with entries of its own term at the end, committed above the snapshot.
pub record IsLeaderLog {D : Type 0} (n : Node D) : Type 0 where
  pub good : IsLog n.log
  pub room : HasRoom n.log
  pub committed : snapshot_index n.log ≤ n.commit_index
  pub newest : last_term n.log ≤ n.current_term

-- The newest committable index up to `hi`.
abbrev IsNewest : {D : Type 0} → Node D → ℕ → Option ℕ → Type 0
IsNewest n hi none = (i : ℕ) → n.commit_index < i → i ≤ hi → ¬ IsCommittable n i
IsNewest n hi (some j) =
    (n.commit_index < j)
    × (j ≤ hi)
    × IsCommittable n j
    × ((i : ℕ) → j < i → i ≤ hi → ¬ IsCommittable n i)

module _ {D : Type 0} (n : Node D) (h : IsLeaderLog n) where
  -- Below an entry of an older term no entry is of the current one.
  none_below :
      (i : ℕ)
      → i ≤ last_index n.log
      → (x : Entry) → view n.log i ≡ some x
      → (x.term == n.current_term) ≡ false
      → IsNewest n i none
  none_below i le x seen other j lo hi c =
      let (y, seen_y, found_y, _, _) =
        view-eq-some n.log h.good j (omega (arith, h.committed)) (omega arith) in
      let (z, seen_z, found_z, _, low) =
        view-eq-some n.log h.good i (omega (arith, h.committed)) le in
      let mono =
        term_mono (j - snapshot_index n.log) (i - snapshot_index n.log) n.log.first y z n.log.rest
          h.good (omega arith) found_y found_z in
      ground (arith, c.own_term, seen, seen_y, seen_z, mono, low, h.newest)

  lower :
      (k : ℕ) (o : Option ℕ)
      → IsNewest n (n.commit_index + k) o
      → ¬ IsCommittable n (n.commit_index + suc k)
      → IsNewest n (n.commit_index + suc k) o
  lower k none newest miss = λ i lo hi c. elim (dec_lt i (n.commit_index + suc k)) [
    | yes below ↦ newest i lo (omega arith) c
    | no top ↦ miss (subst (IsCommittable n) (omega arith) c)
  ]
  lower k (some j) newest miss = (
    newest.0,
    omega (arith, newest.1),
    newest.2,
    λ i lo hi c. elim (dec_lt i (n.commit_index + suc k)) [
      | yes below ↦ newest.3 i lo (omega arith) c
      | no top ↦ miss (subst (IsCommittable n) (omega arith) c)
    ],
  )

  find_commit_lem :
      (k : ℕ)
      → n.commit_index + k ≤ last_index n.log
      → (o : Option ℕ) × (find_commit n k ≡ ok o) × IsNewest n (n.commit_index + k) o
  unfolding find_commit
  find_commit_lem zero le = (none, refl, λ i lo hi c. omega arith)
  find_commit_lem (suc k) le =
      let i = n.commit_index + suc k in
      let (x, seen, found, at, low) = view-eq-some n.log h.good i (omega (arith, h.committed)) le in
      let read : log_term n.log i ≡ ok (x.term, true) =
        log_term_lem n.log h.good h.room i ∙ ap (λ o. ok (term_of o)) seen in
      let (o, eq, newest) = find_commit_lem k (omega arith) in
      elim (Bool-cases (x.term == n.current_term)) [
        | inr other ↦ (none, ground (arith, read), none_below i le x seen other)
        | inl own ↦ elim (Bool-cases (leb (quorum n) (1 + count_stored n.match_index i n.peers))) [
          | inl most ↦ (
            some i,
            ground (arith, read),
            (
              omega arith,
              omega arith,
              record {
                own_term = ground (arith, seen);
                majority = (quorum_iff n i).0 (ground arith);
              },
              λ j lo hi c. omega arith,
            ),
          )
          | inr few ↦ (
            o,
            ground (arith, read, eq),
            lower k o newest (λ c. ground (arith, few, (quorum_iff n i).1 c.majority)),
          )
        ]
      ]

  -- What the scan finds is what the method sets.
  advance_commit_index-eq :
      (o : Option ℕ)
      → find_commit n (last_index n.log - n.commit_index) ≡ ok o
      → ((advance_commit_index n).0 ≡ ok tt)
        × ((advance_commit_index n).1.commit_index ≡ elim o [ none ↦ n.commit_index | some i ↦ i ])
  unfolding advance_commit_index
  advance_commit_index-eq none e = ground (arith, e)
  advance_commit_index-eq (some i) e = ground (arith, e)

-- The commit index `c` is the newest committable one, or the old one if none is newer.
pub record IsAdvanced {D : Type 0} (n : Node D) (c : ℕ) : Type 0 where
  pub forward : n.commit_index ≤ c
  pub inside : c ≤ last_index n.log
  pub reason : (c ≡ n.commit_index) ⊎ IsCommittable n c
  pub newest : (i : ℕ) → c < i → i ≤ last_index n.log → ¬ IsCommittable n i

IsNewest-IsAdvanced :
    {D : Type 0} (n : Node D) (o : Option ℕ)
    → n.commit_index ≤ last_index n.log
    → IsNewest n (n.commit_index + (last_index n.log - n.commit_index)) o
    → IsAdvanced n (elim o [ none ↦ n.commit_index | some i ↦ i ])
IsNewest-IsAdvanced n none le h = record {
  forward = omega arith;
  inside = le;
  reason = inl refl;
  newest = λ i lo hi. h i lo (omega arith);
}
IsNewest-IsAdvanced n (some j) le h = record {
  forward = omega (arith, h.0);
  inside = omega (arith, h.1);
  reason = inr h.2;
  newest = λ i lo hi. h.3 i lo (omega arith);
}

-- With a well-formed log whose next index is a uint64, a commit index between the snapshot and the
-- last entry, and no last entry of a term above the node's own: the leader's commit index moves to
-- the newest entry of its own term that a majority has stored: itself and peers whose match index
-- reaches that far, together more than half of itself and all its peers. If there is no newer one
-- it stays. Nothing panics.
pub advance_commit_index_lem :
    {D : Type 0} (n : Node D)
    → IsLeaderLog n
    → n.commit_index ≤ last_index n.log
    → ((advance_commit_index n).0 ≡ ok tt) × IsAdvanced n (advance_commit_index n).1.commit_index
advance_commit_index_lem n h le =
    let (o, found, newest) =
      find_commit_lem n h (last_index n.log - n.commit_index) (omega arith) in
    let (done, at) = advance_commit_index-eq n h o found in
    (done, subst (IsAdvanced n) (sym at) (IsNewest-IsAdvanced n o le newest))
