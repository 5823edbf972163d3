-- ===== src/Raft/Cluster/Count.antt =====
-- The step that counts a vote keeps the invariant of Cluster/Moves.
use fraud_scoring_platform.Raft.Durable.{recalled-Sees, recall, IsRestorable}
use fraud_scoring_platform.Raft.Durable.Held.{on_vote_reply-IsHeld}
use fraud_scoring_platform.Raft.Cluster.Leads.{on_vote_reply_lem}
use fraud_scoring_platform.Raft.Cluster.Sound.{with_tally, quorum-majority}
use fraud_scoring_platform.Raft.Vote.{on_vote_reply-VoteKept, VoteKept}
use fraud_scoring_platform.Raft.Create.{others}
use fraud_scoring_platform.Raft.Election.{on_vote_reply}
use fraud_scoring_platform.Raft.Cluster.Ledger.{Backed, grant, TallyOk}
use fraud_scoring_platform.Raft.Node.{quorum, Node}
use fraud_scoring_platform.Raft.Cluster.Moves.{still, kept-IsLedger, IsMember-kept, moved, IsSound}
use fraud_scoring_platform.Raft.Cluster.Majority.{Elem-others, Distinct}
use fraud_scoring_platform.Raft.Types.{leader, ok, nobody, NodeId}
use fraud_scoring_platform.Raft.Storage.{IsStorage, Storage}
use fraud_scoring_platform.Raft.Cluster.{set_node, VoteAnswer, Cluster, counted, remove, Tally}
use fraud_scoring_platform.Prelude.{
  Elem, ap, ◌∙◌, subst, inr, sym, ◌≤◌, inl, ◌∷◌, ◌≢◌, ◌+◌, ◌≡◌, List, ℕ, arith,
}

-- A tally that one peer has answered, with `vs` as the nodes counted.
abbrev heard : Tally → NodeId → List NodeId → ℕ → Tally
heard t p vs v = record { args = t.args; waiting = remove t.waiting p; voters = vs; votes = v }

heard-eq-none :
    (t : Tally) (p : NodeId) (v : ℕ)
    → v ≡ t.votes
    → heard t p t.voters t.votes ≡ heard t p (counted t.votes v p t.voters) v
heard-eq-none t p v e = ground (arith, e)

heard-eq-one :
    (t : Tally) (p : NodeId) (v : ℕ)
    → v ≡ t.votes + 1
    → heard t p (p ∷ t.voters) (t.votes + 1) ≡ heard t p (counted t.votes v p t.voters) v
heard-eq-one t p v e = ground (arith, e)

module _ {D : Type 0} (s : Storage D) (law : IsStorage s) (members : List NodeId)
    (apart : Distinct members) (real : (i : NodeId) → Elem i members → i ≢ nobody) (c : Cluster D)
    (sound : IsSound s members c) where
  heard-none :
      (t : Tally) (p : NodeId)
      → TallyOk members c.history t
      → TallyOk members c.history (heard t p t.voters t.votes)
  heard-none t p k = record {
    owner = k.owner;
    counts = k.counts;
    distinct = k.distinct;
    inside = k.inside;
    gave = k.gave;
    apart = λ q e. k.apart q (Elem-others p q t.waiting e).0;
  }

  heard-one :
      (t : Tally) (p : NodeId)
      → TallyOk members c.history t
      → Elem p t.waiting
      → Elem (grant p t.args.term t.args.candidate_id) c.history
      → TallyOk members c.history (heard t p (p ∷ t.voters) (t.votes + 1))
  heard-one t p k e gave =
      let (inside, out) = k.apart p e in
      record {
        owner = k.owner;
        counts = omega (arith, k.counts);
        distinct = (out, k.distinct);
        inside = (inside, k.inside);
        gave = (gave, k.gave);
        apart = λ q w.
            let (old, ne) = Elem-others p q t.waiting w in
            let (member, away) = k.apart q old in
            (member, elim [ inl same ↦ ne (sym same) | inr other ↦ away other ]);
      }

  -- A tally of as many votes as make a leader is a majority.
  heard-Backed :
      (t : Tally) (n : Node D)
      → TallyOk members c.history t
      → n.peers ≡ others t.args.candidate_id members
      → quorum n ≤ t.votes
      → Backed members c.history t.args.term t.args.candidate_id
  heard-Backed t n k peers enough = record {
    voters = t.voters;
    majority = record {
      distinct = k.distinct;
      inside = k.inside;
      most = omega (
        arith,
        enough,
        k.counts,
        quorum-majority s law members apart real t.args.candidate_id n k.owner peers,
      );
    };
    gave = k.gave;
  }

  -- The candidate moves on with a new tally.
  counted-IsSound :
      (i : NodeId) (m : Node D) (u : Tally)
      → Elem i members
      → VoteKept (c.node i) m
      → IsRestorable s m
      → TallyOk members c.history u
      → (m.role ≡ leader → Backed members c.history m.current_term i)
      → IsSound s members (record c { node = set_node c.node i m; tallies = u ∷ c.tallies })
  counted-IsSound i m u at kept d k lead =
      moved s law members real c sound i at m (u ∷ c.tallies) c.answers c.history
        (IsMember-kept s law members real i (c.node i) m (sound.member i at) kept d) (λ g e. e)
        (kept-IsLedger s law members real c sound i at m kept)
        (with_tally s law members apart real c sound i at c.history (λ g e. e) u k) sound.answer
        lead

  pub deliver-IsSound :
      (i : NodeId) (t : Tally) (a : VoteAnswer) (v : ℕ)
      → Elem t c.tallies
      → Elem a c.answers
      → t.args ≡ a.args
      → i ≡ t.args.candidate_id
      → Elem a.voter t.waiting
      → (on_vote_reply t.args a.answer t.votes (c.node i)).0 ≡ ok v
      → IsSound s members (record c {
        node = set_node c.node i (on_vote_reply t.args a.answer t.votes (c.node i)).1;
        tallies = heard t a.voter (counted t.votes v a.voter t.voters) v ∷ c.tallies;
      })
  deliver-IsSound i t a v known sent same mine waits done =
      let n = c.node i in
      let m = (on_vote_reply t.args a.answer t.votes n).1 in
      let k = sound.tally t known in
      let at = subst (λ w. Elem w members) (sym mine) k.owner in
      let old = sound.member i at in
      let kept = on_vote_reply-VoteKept n t.args a.answer t.votes in
      let restorable =
        on_vote_reply-IsHeld s (recall s) (recalled-Sees s law) n t.args a.answer t.votes v
          old.restorable done in
      let p = a.voter in
      let whole : Tally → Type 0 =
        λ u. IsSound s members (record c { node = set_node c.node i m; tallies = u ∷ c.tallies }) in
      elim (on_vote_reply_lem n t.args a.answer t.votes v done) [
        | inl (none_added, l) ↦ subst whole (heard-eq-none t p v none_added) (
            counted-IsSound i m (heard t p t.voters t.votes) at kept restorable (heard-none t p k)
              (still s law members real c sound i at m l))
        | inr (added, given, term, stays, lead) ↦
            let u = heard t p (p ∷ t.voters) (t.votes + 1) in
            let voted = ((sound.answer a sent).granted given).1 in
            let ok_u =
              heard-one t p k waits
                (subst (λ x. Elem (grant p x.term x.candidate_id) c.history) (sym same) voted) in
            subst whole (heard-eq-one t p v added) (
              counted-IsSound i m u at kept restorable ok_u (λ r.
                subst (λ x. Backed members c.history x i) (sym (stays ∙ term))
                  (subst (Backed members c.history t.args.term) (sym mine) (
                    heard-Backed u n ok_u (old.connected ∙ ap (λ w. others w members) mine)
                      (omega (arith, lead r, added))))))
      ]
