-- ===== src/Raft/Net/Advance.antt =====
-- What the methods of raft/*.go do to the commit index and to a leader's record of its peers.
use fraud_scoring_platform.Raft.Role.Majority.{quorum_iff}
use fraud_scoring_platform.Raft.Log.Lookup.{term_of}
use fraud_scoring_platform.Raft.Net.Added.{last_index-added, last_term-added, added-IsWhole}
use fraud_scoring_platform.Raft.Net.Growth.{become_leader-grown}
use fraud_scoring_platform.Raft.Log
use fraud_scoring_platform.Raft.Service.{propose}
use fraud_scoring_platform.Raft.Log.Shape.{view, HasRoom}
use fraud_scoring_platform.Raft.Net.Origins.{IsWhole}
use fraud_scoring_platform.Raft.Action.Frame.{advance_commit_index-SameButCommit}
use fraud_scoring_platform.Raft.Log.{last_term, last_index}
use fraud_scoring_platform.Raft.Types.{Entry, NodeId, leader}
use fraud_scoring_platform.Raft.Role.Commit.{advance_commit_index_lem, IsCommittable, IsLeaderLog}
use fraud_scoring_platform.Raft.Node.{persist, update, quorum, Node}
use fraud_scoring_platform.Raft.Role.{next_entry, become_leader, advance_commit_index, fill}
use fraud_scoring_platform.Prelude.{
  true, ◌∙◌, inl, inr, ap, sym, refl, subst, inc64, [], ◌∷◌, ℕ, ◌≤◌, ◌⊎◌, ◌≡◌, List, arith,
}

-- Who leads afterwards has what it knew of the peer before, or starts with nothing.
abbrev pub MatchKept : {D : Type 0} → Node D → Node D → Type 0
MatchKept n m =
    m.role ≡ leader
    → (q : NodeId)
    → ((n.role ≡ leader) × (m.current_term ≡ n.current_term) × (m.match_index q ≡ n.match_index q))
      ⊎ (m.match_index q ≡ 0)

-- The commit index stays, starts over, or a majority has the entry that the leader commits to.
abbrev pub CommitMove : {D : Type 0} → Node D → Node D → Type 0
CommitMove n m =
    (m.commit_index ≡ n.commit_index)
    ⊎ (m.commit_index ≡ 0)
    ⊎ ((m.role ≡ leader) × IsCommittable m m.commit_index)

fill-zero : (ps : List NodeId) (f : NodeId → ℕ) (q : NodeId) → f q ≡ 0 → fill 0 ps f q ≡ 0
unfolding fill
fill-zero [] f q h = h
fill-zero (p ∷ ps) f q h = fill-zero ps (update f p 0) q (ground (arith, h))

module _ {D : Type 0} where
  advanced :
      (x : Node D)
      → IsLeaderLog x
      → x.commit_index ≤ last_index x.log
      → ((advance_commit_index x).1.commit_index ≡ x.commit_index)
        ⊎ IsCommittable (advance_commit_index x).1 (advance_commit_index x).1.commit_index
  unfolding quorum
  advanced x h le =
      let (_, a) = advance_commit_index_lem x h le in
      let same = advance_commit_index-SameButCommit x in ground (arith, a.reason, same)

  -- What the method does behind `advanceCommitIndex` leaves alone what committing depends on.
  pub record Finished (x m : Node D) : Type 0 where
    pub log : m.log ≡ x.log
    pub term : m.current_term ≡ x.current_term
    pub peers : m.peers ≡ x.peers
    pub match : m.match_index ≡ x.match_index
    pub commit : m.commit_index ≡ x.commit_index

  Finished-IsCommittable :
      (x m : Node D)
      → Finished x m
      → IsCommittable x x.commit_index
      → IsCommittable m m.commit_index
  unfolding quorum
  Finished-IsCommittable x m f h = record {
    own_term =
        ap (λ l. term_of (view l m.commit_index)) f.log
        ∙ ap (λ i. term_of (view x.log i)) f.commit
        ∙ h.own_term
        ∙ ap (λ t. (t, true)) (sym f.term);
    majority =
        (quorum_iff m m.commit_index).0
          (ground (arith, (quorum_iff x x.commit_index).1 h.majority, f.peers, f.match, f.commit));
  }

  pub Finished-commit :
      (n x m : Node D)
      → IsLeaderLog x
      → x.commit_index ≤ last_index x.log
      → x.commit_index ≡ n.commit_index
      → m.role ≡ leader
      → Finished (advance_commit_index x).1 m ⊎ (m.commit_index ≡ n.commit_index)
      → CommitMove n m
  Finished-commit n x m good le same r (inr kept) = inl kept
  Finished-commit n x m good le same r (inl f) = elim (advanced x good le) [
    | inl kept ↦ inl (f.commit ∙ kept ∙ same)
    | inr h ↦ inr (inr (r, Finished-IsCommittable (advance_commit_index x).1 m f h))
  ]

  -- A leader's log with the entry that it has just added.
  module _ (n : Node D) (e : Entry) (w : IsWhole n.log) (room : HasRoom n.log)
      (at : e.index ≡ inc64 (last_index n.log)) (own : e.term ≡ n.current_term)
      (newest : last_term n.log ≤ n.current_term) (within : n.commit_index ≤ last_index n.log) where
    longer-leader :
        (x : Node D)
        → x.log ≡ Log.append n.log (e ∷ [])
        → x.current_term ≡ n.current_term
        → x.commit_index ≡ n.commit_index
        → HasRoom x.log
        → IsLeaderLog x × (x.commit_index ≤ last_index x.log)
    longer-leader x log term commit after =
        let newer : last_term n.log ≤ e.term = omega (arith, newest, own) in
        let whole = subst IsWhole (sym log) (added-IsWhole n.log e w room at newer) in
        (
          record {
            good = whole.good;
            room = after;
            committed = omega (arith, ap (λ (y : Entry). y.index) whole.rooted);
            newest =
                omega (arith, ap last_term log, last_term-added n.log e w room at newer, own, term);
          },
          omega
              (arith, ap last_index log, last_index-added n.log e w room at newer, within, commit),
        )

  module _ (n : Node D) (w : IsWhole n.log) (room : HasRoom n.log)
      (newest : last_term n.log ≤ n.current_term) (within : n.commit_index ≤ last_index n.log) where
    -- The new leader before it looks for an index to commit to.
    abbrev crowned : Node D
    crowned =
        (persist (record n {
          role = leader;
          leader_id = n.id;
          next_index = fill (inc64 (last_index n.log)) n.peers (λ _. 0);
          match_index = fill 0 n.peers (λ _. 0);
          log = Log.append n.log (next_entry n [] ∷ []);
        })).1

    crowned-shape :
        Finished (advance_commit_index crowned).1 (become_leader n).1
        ⊎ ((become_leader n).1.commit_index ≡ n.commit_index)
    unfolding become_leader persist
    crowned-shape = ground arith

    pub become_leader-commit : HasRoom (become_leader n).1.log → CommitMove n (become_leader n).1
    unfolding persist
    become_leader-commit after =
        let (good, le) =
          longer-leader n (next_entry n []) w room refl refl newest within crowned refl refl refl
            (subst HasRoom (become_leader-grown n).0 after) in
        Finished-commit n crowned (become_leader n).1 good le refl (become_leader-grown n).2
          crowned-shape

    pub become_leader-match : (q : NodeId) → (become_leader n).1.match_index q ≡ 0
    unfolding become_leader persist
    become_leader-match q =
        ground
          (arith, advance_commit_index-SameButCommit crowned, fill-zero n.peers (λ _. 0) q refl)

    abbrev proposed : List ℕ → Node D
    proposed command = (persist (record n { log = Log.append n.log (next_entry n command ∷ []) })).1

    proposed-shape :
        (command : List ℕ)
        → (Finished (advance_commit_index (proposed command)).1 (propose command n).1
            × ((propose command n).1.role ≡ leader)
            × ((propose command n).1.log ≡ Log.append n.log (next_entry n command ∷ [])))
          ⊎ ((propose command n).1.commit_index ≡ n.commit_index)
    unfolding propose persist
    proposed-shape command = ground (arith, advance_commit_index-SameButCommit (proposed command))

    pub propose-commit :
        (command : List ℕ) → HasRoom (propose command n).1.log → CommitMove n (propose command n).1
    unfolding persist
    propose-commit command after = elim (proposed-shape command) [
      | inr same ↦ inl same
      | inl (done, r, log) ↦
          let (good, le) =
            longer-leader n (next_entry n command) w room refl refl newest within (proposed command)
              refl refl refl (subst HasRoom log after) in
          Finished-commit n (proposed command) (propose command n).1 good le refl r (inl done)
    ]

    pub propose-match : (command : List ℕ) → MatchKept n (propose command n).1
    unfolding propose persist
    propose-match command = ground (arith, advance_commit_index-SameButCommit (proposed command))
