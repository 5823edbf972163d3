-- ===== src/Raft/Net/Onward.antt =====
-- Votes and elections (raft/election.go) stay what they were when a member moves on.
use fraud_scoring_platform.Raft.Net.Matching.{LogMerged-LogKept}
use fraud_scoring_platform.Raft.Net.Moves.{grown-Agree}
use fraud_scoring_platform.Raft.Net.Complete.{HasAt-Agree}
use fraud_scoring_platform.Raft.Log.Lookup.{view-inv}
use fraud_scoring_platform.Raft.Net.Remember.{merged-remembers, IsBroken-IsPast}
use fraud_scoring_platform.Raft.Net.Joined.{HasAt-inv}
use fraud_scoring_platform.Raft.Cluster.Ledger.{set_node-others}
use fraud_scoring_platform.Raft.Replication.Merge.{HasAt}
use fraud_scoring_platform.Raft.Net.Origins.{Agree-trans, IsMade-IsPast, Agree, IsPast}
use fraud_scoring_platform.Raft.Log.{last_term, last_index, RaftLog}
use fraud_scoring_platform.Raft.Cluster.{Tally, set_node}
use fraud_scoring_platform.Raft.Net.Growth.{LogMove}
use fraud_scoring_platform.Raft.Node.{Node}
use fraud_scoring_platform.Raft.Net.Fresh.{
  Elected, IsBroken, TallyFresh, VoteFresh, Remembers, IsComplete,
}
use fraud_scoring_platform.Raft.Net.Matched.{IsMatched}
use fraud_scoring_platform.Raft.Net.{Past, HaveRoom, Net}
use fraud_scoring_platform.Raft.Types.{candidate, NodeId}
use fraud_scoring_platform.Raft.Storage.{Storage}
use fraud_scoring_platform.Prelude.{
  ◌∙◌, eq_iff, subst, str_eq, ◌+◌, [], ap, sym, ◌⊎◌, Bool-cases, inl, inr, ◌∷◌, All, ℕ, ◌≤◌, ◌≡◌,
  ◌≢◌, Elem, List, arith,
}

module _ {D : Type 0} (s : Storage D) (members : List NodeId) (c : Net D)
    (k : IsMatched s members c) (full : IsComplete members c) (room : HaveRoom s members c.base)
    (i : NodeId) (at : Elem i members) (m : Node D)
    (move : LogMove c.requests (c.base.node i) m) where
  abbrev n : Node D
  n = c.base.node i

  abbrev pub onward : NodeId → Node D
  onward = set_node c.base.node i m

  abbrev pub longer : List (Past D)
  longer = record { owner = i; node = m } ∷ c.past

  pub later : IsPast c.past longer
  later p e = inr e

  pub move-term : n.current_term ≤ m.current_term
  move-term = elim move [
    | inl kept ↦ kept.term
    | inr (inl grown) ↦ ground (arith, grown.from)
    | inr (inr (args, sent, joined)) ↦ omega (arith, joined.current, joined.term)
  ]

  -- Who still stands in the same term has stood there with the same log.
  move-stands :
      m.role ≡ candidate → m.current_term ≡ n.current_term → (n.role ≡ candidate) × (m.log ≡ n.log)
  move-stands r same = elim move [
    | inl kept ↦ (kept.stands same r, kept.log)
    | inr (inl grown) ↦ cc (r, grown.role)
    | inr (inr (args, sent, joined)) ↦ cc (r, joined.role)
  ]

  move-remembers :
      (e t : ℕ)
      → t ≤ n.current_term
      → HasAt n.log e t
      → HasAt m.log e t ⊎ IsBroken longer e t (m.current_term + 1)
  move-remembers e t le has = elim move [
    | inl kept ↦ inl (subst (λ l. HasAt l e t) (sym kept.log) has)
    | inr (inl grown) ↦
        let (x, seen, _) = HasAt-inv n.log e t has in
        let (_, inside, _, _, _) = view-inv n.log (k.member i at).whole.good e x seen in
        inl (
          HasAt-Agree m.log n.log (last_index n.log) e t
            (grown-Agree c.past i n m (k.member i at) grown (room i at)) inside has)
    | inr (inr (args, sent, joined)) ↦
        let r = k.request args sent in
        elim r.source [
          | inl copied ↦
              merged-remembers c.past i n m (k.member i at) args joined (room i at) r.node r.led
                (k.leader args.leader_id r.node r.led).well r.term r.request copied k.chained e t le
                has
          | inr (empty, _, _) ↦
              inl (subst (λ l. HasAt l e t) (sym (LogMerged-LogKept n m args joined empty).log) has)
        ]
  ]

  pub Elem-cases :
      (j : NodeId) (p : Node D)
      → Elem (record { owner = j; node = p }) longer
      → ((i ≡ j) × (m ≡ p)) ⊎ Elem (record { owner = j; node = p }) c.past
  Elem-cases j p (inl e) = inl (ap (λ (q : Past D). q.owner) e, ap (λ (q : Past D). q.node) e)
  Elem-cases j p (inr e) = inr e

  pub moved-Remembers :
      (p : Node D) → Elem (record { owner = i; node = p }) longer → Remembers longer m p
  moved-Remembers p e = elim (Elem-cases i p e) [
    | inl (_, same) ↦
        subst (Remembers longer m) same (record { term = omega arith; kept = λ j h. inl h })
    | inr old ↦
        let r = full.remembers i at p old in
        record {
          term = omega (arith, r.term, move-term);
          kept = λ j h. elim (r.kept j h) [
            | inl has ↦ move-remembers j p.current_term r.term has
            | inr broken ↦ inr (
                IsBroken-IsPast c.past longer later j p.current_term (n.current_term + 1)
                  (m.current_term + 1) (omega (arith, move-term)) broken)
          ];
        }
  ]

  other-Remembers :
      (j : NodeId)
      → Elem j members
      → j ≢ i
      → (p : Node D) → Elem (record { owner = j; node = p }) longer
      → Remembers longer (c.base.node j) p
  other-Remembers j in_j ne p e = elim (Elem-cases j p e) [
    | inl (own, _) ↦ absurd (ne (sym own))
    | inr old ↦
        let r = full.remembers j in_j p old in
        record {
          term = r.term;
          kept = λ d h. elim (r.kept d h) [
            | inl has ↦ inl has
            | inr broken ↦ inr (
                IsBroken-IsPast c.past longer later d p.current_term
                  ((c.base.node j).current_term + 1) ((c.base.node j).current_term + 1)
                  (omega arith) broken)
          ];
        }
  ]

  pub onward-Remembers :
      (j : NodeId)
      → Elem j members
      → (p : Node D) → Elem (record { owner = j; node = p }) longer
      → Remembers longer (onward j) p
  onward-Remembers =
      set_node-others members c.base.node i m
        (λ j q. (p : Node D) → Elem (record { owner = j; node = p }) longer → Remembers longer q p)
        moved-Remembers other-Remembers

  pub onward-term : (v : NodeId) → (c.base.node v).current_term ≤ (onward v).current_term
  onward-term v = elim (Bool-cases (str_eq v i)) [
    | inl same ↦ rw same (
        subst (λ w. (c.base.node w).current_term ≤ m.current_term) (sym ((eq_iff v i).0 same))
          move-term)
    | inr other ↦ rw other (omega arith)
  ]

  pub onward-VoteFresh :
      (u top last_t last_i : ℕ) (v : NodeId)
      → VoteFresh c.past c.base.node u top last_t last_i v
      → VoteFresh longer onward u top last_t last_i v
  onward-VoteFresh u top last_t last_i v h = record {
    reached = omega (arith, h.reached, onward-term v);
    fresh = λ p e lt j has. elim (Elem-cases v p e) [
      | inl (own, same) ↦ absurd (
          omega (
            arith,
            lt,
            h.reached,
            move-term,
            ap (λ (q : Node D). q.current_term) same,
            ap (λ w. (c.base.node w).current_term) own,
          ))
      | inr old ↦ elim (h.fresh p old lt j has) [
        | inl covers ↦ inl covers
        | inr broken ↦
            inr (IsBroken-IsPast c.past longer later j p.current_term top top (omega arith) broken)
      ]
    ];
  }

  pub onward-votes :
      (u top last_t last_i : ℕ) (vs : List NodeId)
      → All (VoteFresh c.past c.base.node u top last_t last_i) vs
      → All (VoteFresh longer onward u top last_t last_i) vs
  onward-votes u top last_t last_i [] h = tt
  onward-votes u top last_t last_i (v ∷ vs) h =
      (onward-VoteFresh u top last_t last_i v h.0, onward-votes u top last_t last_i vs h.1)

  own-stands :
      (v : NodeId) (u last_i last_t : ℕ)
      → i ≡ v
      → u ≤ (c.base.node v).current_term
      → ((c.base.node v).current_term ≡ u
          → (c.base.node v).role ≡ candidate
          → (last_index (c.base.node v).log ≡ last_i) × (last_term (c.base.node v).log ≡ last_t))
      → m.current_term ≡ u
      → m.role ≡ candidate
      → (last_index m.log ≡ last_i) × (last_term m.log ≡ last_t)
  own-stands v u last_i last_t own le old cur stood =
      let same : n ≡ c.base.node v = ap c.base.node own in
      let term : n.current_term ≡ (c.base.node v).current_term =
        ap (λ (q : Node D). q.current_term) same in
      let (before, log) = move-stands stood (omega (arith, le, term, cur, move-term)) in
      let (x, y) =
        old (omega (arith, le, term, cur, move-term))
          (sym (ap (λ (q : Node D). q.role) same) ∙ before) in
      let logs : m.log ≡ (c.base.node v).log = log ∙ ap (λ (q : Node D). q.log) same in
      (ap last_index logs ∙ x, ap last_term logs ∙ y)

  -- Who stands in a term stands with the log that it stood with before.
  pub onward-stands :
      (v : NodeId) (u last_i last_t : ℕ)
      → u ≤ (c.base.node v).current_term
      → ((c.base.node v).current_term ≡ u
          → (c.base.node v).role ≡ candidate
          → (last_index (c.base.node v).log ≡ last_i) × (last_term (c.base.node v).log ≡ last_t))
      → (onward v).current_term ≡ u
      → (onward v).role ≡ candidate
      → (last_index (onward v).log ≡ last_i) × (last_term (onward v).log ≡ last_t)
  onward-stands v u last_i last_t le old = elim (Bool-cases (str_eq v i)) [
    | inl same ↦ rw same (own-stands v u last_i last_t (sym ((eq_iff v i).0 same)) le old)
    | inr other ↦ rw other old
  ]

  pub onward-TallyFresh : (t : Tally) → TallyFresh c.past c.base.node t → TallyFresh longer onward t
  onward-TallyFresh t h = record {
    votes =
        onward-votes t.args.term (t.args.term + 1) t.args.last_log_term t.args.last_log_index
          t.voters h.votes;
    reached = omega (arith, h.reached, onward-term t.args.candidate_id);
    stands =
        onward-stands t.args.candidate_id t.args.term t.args.last_log_index t.args.last_log_term
          h.reached h.stands;
  }

  pub onward-Elected :
      (l l' : RaftLog) (u : ℕ)
      → Agree l' l (last_index l)
      → last_index l ≤ last_index l'
      → Elected members c.past c.base.node l u
      → Elected members longer onward l' u
  onward-Elected l l' u agree le e = record {
    base = e.base;
    whole = e.whole;
    made = IsMade-IsPast c.past longer later e.base e.made;
    shorter = omega (arith, e.shorter, le);
    agree = Agree-trans l' l e.base (last_index e.base) (last_index l) e.shorter agree e.agree;
    older = e.older;
    voters = e.voters;
    majority = e.majority;
    votes = onward-votes u u (last_term e.base) (last_index e.base) e.voters e.votes;
  }
