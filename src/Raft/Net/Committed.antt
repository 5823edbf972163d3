-- ===== src/Raft/Net/Committed.antt =====
-- What is committed (`advanceCommitIndex` of raft/replication.go) over the whole cluster.
use fraud_scoring_platform.Raft.Net.Joined.{HasAt-inv}
use fraud_scoring_platform.Raft.Log.Lookup.{view-inv, view-eq-some}
use fraud_scoring_platform.Raft.Replication.Merge.{HasAt}
use fraud_scoring_platform.Raft.Log.Shape.{view}
use fraud_scoring_platform.Raft.Net.Complete.{IsStored, leader_complete, HasStored}
use fraud_scoring_platform.Raft.Net.Fresh.{IsComplete}
use fraud_scoring_platform.Raft.Net.Matched.{IsMatched}
use fraud_scoring_platform.Raft.Net.Origins.{
  logs_match, Agree-trans, Agree, Led, IsWhole, Led-IsPast, IsPast,
}
use fraud_scoring_platform.Raft.Log.{last_index, RaftLog}
use fraud_scoring_platform.Raft.Node.{Node}
use fraud_scoring_platform.Raft.Storage.{Storage}
use fraud_scoring_platform.Raft.Net.{AppendAnswer, Net, Past}
use fraud_scoring_platform.Raft.Types.{Entry, leader, NodeId}
use fraud_scoring_platform.Prelude.{
  ap, u64_mod, ◌∙◌, sym, ◌<◌, inr, [], ◌∷◌, dec_lt, inl, length, ◌+◌, true, All, ◌⊎◌, ◌≤◌, Elem,
  ◌≡◌, ℕ, List, arith,
}

-- The log up to `k` is that of a leader of a term up to `u` with an entry of its own term at or
-- behind `k` that a majority has stored.
pub record IsCommitted {D : Type 0} (members : List NodeId) (past : List (Past D)) (l : RaftLog)
    (k u : ℕ) : Type 0 where
  pub owner : NodeId
  pub node : Node D
  pub led : Led past owner node
  pub index : ℕ
  pub behind : k ≤ index
  pub inside : index ≤ last_index node.log
  pub has : HasAt node.log index node.current_term
  pub stored : IsStored members past index node.current_term
  pub upto : node.current_term ≤ u
  pub agree : Agree l node.log k

abbrev pub CommitOk : {D : Type 0} → List NodeId → List (Past D) → Node D → Type 0
CommitOk members past n =
    (n.commit_index ≡ 0) ⊎ IsCommitted members past n.log n.commit_index n.current_term

-- The peer that reported success had the entries of the leader's log, in the leader's term.
pub record StoredBy {D : Type 0} (past : List (Past D)) (a : AppendAnswer) : Type 0 where
  pub node : Node D
  pub was : Elem (record { owner = a.peer; node = node }) past
  pub term : node.current_term ≡ a.args.term
  pub source : Node D
  pub led : Led past a.args.leader_id source
  pub source_term : source.current_term ≡ a.args.term
  pub inside : a.args.prev_log_index + length a.args.entries ≤ last_index source.log
  pub agree : Agree node.log source.log (a.args.prev_log_index + length a.args.entries)
  pub fits : a.args.prev_log_index + length a.args.entries < u64_mod

-- What the leader knows of the peer: in the leader's term it has had the log up to there.
pub record HasMatched {D : Type 0} (past : List (Past D)) (n : Node D) (q : NodeId) : Type 0 where
  pub node : Node D
  pub was : Elem (record { owner = q; node = node }) past
  pub term : node.current_term ≡ n.current_term
  pub inside : n.match_index q ≤ last_index n.log
  pub agree : Agree node.log n.log (n.match_index q)

abbrev pub MatchOk : {D : Type 0} → List (Past D) → Node D → NodeId → Type 0
MatchOk past n q = (n.match_index q ≡ 0) ⊎ HasMatched past n q

module _ {D : Type 0} (members : List NodeId) where
  pub record IsReplicated (c : Net D) : Type 0 where
    pub commit : (v : NodeId) → Elem v members → CommitOk members c.past (c.base.node v)
    pub past_commit :
        (v : NodeId) (p : Node D)
        → Elem (record { owner = v; node = p }) c.past
        → CommitOk members c.past p
    pub reply : (a : AppendAnswer) → Elem a c.replies → a.answer.success ≡ true → StoredBy c.past a
    pub matched :
        (v : NodeId)
        → Elem v members
        → (c.base.node v).role ≡ leader
        → (q : NodeId) → MatchOk c.past (c.base.node v) q

  module _ (ps qs : List (Past D)) (sub : IsPast ps qs) where
    stored-IsPast :
        (i t : ℕ) (vs : List NodeId) → All (HasStored ps i t) vs → All (HasStored qs i t) vs
    stored-IsPast i t [] h = tt
    stored-IsPast i t (v ∷ vs) h = (
      record {
        node = h.0.node;
        was = sub (record { owner = v; node = h.0.node }) h.0.was;
        term = h.0.term;
        has = h.0.has;
      },
      stored-IsPast i t vs h.1,
    )

    pub IsCommitted-IsPast :
        (l l' : RaftLog) (k e u w : ℕ)
        → e ≤ k
        → u ≤ w
        → Agree l' l e
        → IsCommitted members ps l k u
        → IsCommitted members qs l' e w
    IsCommitted-IsPast l l' k e u w le up agree h = record {
      owner = h.owner;
      node = h.node;
      led = Led-IsPast ps qs sub h.owner h.node h.led;
      index = h.index;
      behind = omega (arith, h.behind, le);
      inside = h.inside;
      has = h.has;
      stored = record {
        voters = h.stored.voters;
        majority = h.stored.majority;
        stored = stored-IsPast h.index h.node.current_term h.stored.voters h.stored.stored;
      };
      upto = omega (arith, h.upto, up);
      agree =
          Agree-trans l' l h.node.log e e (omega arith) agree
            (λ j lt. h.agree j (omega (arith, lt, le)));
    }

    pub StoredBy-IsPast : (a : AppendAnswer) → StoredBy ps a → StoredBy qs a
    StoredBy-IsPast a h = record {
      node = h.node;
      was = sub (record { owner = a.peer; node = h.node }) h.was;
      term = h.term;
      source = h.source;
      led = Led-IsPast ps qs sub a.args.leader_id h.source h.led;
      source_term = h.source_term;
      inside = h.inside;
      agree = h.agree;
      fits = h.fits;
    }

  -- A log goes at least as far as it is committed.
  pub committed-inside :
      (past : List (Past D)) (n : Node D)
      → IsWhole n.log
      → ((i : NodeId) (g : Node D) → Led past i g → IsWhole g.log)
      → CommitOk members past n
      → n.commit_index ≤ last_index n.log
  committed-inside past n w leaders (inl none_yet) = omega (arith, none_yet)
  committed-inside past n w leaders (inr h) =
      let g = leaders h.owner h.node h.led in
      let (x, seen, _, _, _) =
        view-eq-some h.node.log g.good n.commit_index
          (omega (arith, ap (λ (e : Entry). e.index) g.rooted))
          (omega (arith, h.behind, h.inside)) in
      let (_, hi, _, _, _) =
        view-inv n.log w.good n.commit_index x (h.agree n.commit_index (omega arith) ∙ seen) in
      hi

  module _ (s : Storage D) (c : Net D) (k : IsMatched s members c)
      (full : IsComplete members c) where
    -- A leader of the term or a later one has what is committed, as far as its log goes.
    pub ahead-Agree :
        (l : RaftLog) (e u : ℕ) (h : IsCommitted members c.past l e u) (v : NodeId) (g : Node D)
        → Led c.past v g
        → h.node.current_term ≤ g.current_term
        → (j : ℕ) → j ≤ h.index
        → j ≤ last_index g.log
        → view h.node.log j ≡ view g.log j
    ahead-Agree l e u h v g led le j inside has = elim (dec_lt h.node.current_term g.current_term) [
      | no same ↦
          k.chained h.owner v h.node g h.led led (omega (arith, le)) j
            (omega (arith, inside, h.inside)) has j (omega arith)
      | yes above ↦
          let there =
            leader_complete s members c k full h.index h.node.current_term h.stored v g led above in
          let (x, at_x, tx) = HasAt-inv h.node.log h.index h.node.current_term h.has in
          let (y, at_y, ty) = HasAt-inv g.log h.index h.node.current_term there in
          let a = (k.leader h.owner h.node h.led).well in
          let b = (k.leader v g led).well in
          logs_match c.past k.chained h.node.log g.log a.whole b.whole a.made b.made h.index x y
            at_x at_y (tx ∙ sym ty) j inside
    ]

    -- Two logs have the same as far as both are committed.
    pub committed-Agree :
        (l l' : RaftLog) (e e' u u' : ℕ)
        → IsCommitted members c.past l e u
        → IsCommitted members c.past l' e' u'
        → (j : ℕ) → j ≤ e
        → j ≤ e'
        → view l j ≡ view l' j
    committed-Agree l l' e e' u u' h h' j le le' = h.agree j le ∙ meet ∙ sym (h'.agree j le')
      where
        meet : view h.node.log j ≡ view h'.node.log j
        meet = elim (dec_lt h'.node.current_term h.node.current_term) [
          | no up ↦
              ahead-Agree l e u h h'.owner h'.node h'.led (omega (arith, up)) j
                (omega (arith, le, h.behind)) (omega (arith, le', h'.behind, h'.inside))
          | yes down ↦ sym (
              ahead-Agree l' e' u' h' h.owner h.node h.led (omega (arith, down)) j
                (omega (arith, le', h'.behind)) (omega (arith, le, h.behind, h.inside)))
        ]
