-- ===== src/Raft/Cluster/Votes.antt =====
-- The step that gives a vote keeps the invariant of Cluster/Moves.
use fraud_scoring_platform.Raft.Durable.{recalled-Sees, recall}
use fraud_scoring_platform.Raft.Durable.Held.{handle_request_vote-IsHeld}
use fraud_scoring_platform.Raft.Cluster.Leads.{handle_request_vote-StillLeads}
use fraud_scoring_platform.Raft.Vote.{handle_request_vote-VoteKept}
use fraud_scoring_platform.Raft.Election.Grant.{handle_request_vote_lem, VoteAnswered}
use fraud_scoring_platform.Raft.Election.{handle_request_vote}
use fraud_scoring_platform.Raft.Node.{Node}
use fraud_scoring_platform.Raft.Types.{reply, ok, RequestVoteArgs, RequestVoteReply, nobody, NodeId}
use fraud_scoring_platform.Raft.Storage.{IsStorage, Storage}
use fraud_scoring_platform.Raft.Cluster.Moves.{
  IsSound, IsMember-kept, moved, kept-IsLedger, voted-IsLedger, still,
}
use fraud_scoring_platform.Raft.Cluster.Ledger.{
  Backed-Subset, AnswerOk, Subset, grant, TallyOk-Subset, AnswerOk-Subset,
}
use fraud_scoring_platform.Raft.Cluster.Majority.{Distinct}
use fraud_scoring_platform.Raft.Cluster.{granted, Cluster, set_node, Tally, VoteAnswer, Grant}
use fraud_scoring_platform.Prelude.{
  Elem, sym, [], false, Bool-cases, ◌++◌, true, inr, ◌≡◌, subst, inl, ◌∷◌, ◌≢◌, List, arith, refl,
}

granted-eq-one :
    (i : NodeId) (args : RequestVoteArgs) (r : RequestVoteReply)
    → r.vote_granted ≡ true
    → granted i args r ≡ grant i args.term args.candidate_id ∷ []
granted-eq-one i args r h = rw h refl

granted-eq-nil :
    (i : NodeId) (args : RequestVoteArgs) (r : RequestVoteReply)
    → r.vote_granted ≡ false
    → granted i args r ≡ []
granted-eq-nil i args r h = rw h refl

module _ {D : Type 0} (s : Storage D) (law : IsStorage s) (members : List NodeId)
    (apart : Distinct members) (real : (i : NodeId) → Elem i members → i ≢ nobody) (c : Cluster D)
    (sound : IsSound s members c) where
  -- The cluster after node `i` has answered a request for its vote.
  abbrev answered : NodeId → Node D → VoteAnswer → List Grant → Cluster D
  answered i m a gs = record c {
    node = set_node c.node i m;
    answers = a ∷ c.answers;
    history = gs ++ c.history;
  }

  with_answer :
      (h : List Grant)
      → Subset c.history h
      → (new : VoteAnswer) → AnswerOk members h new
      → (a : VoteAnswer) → Elem a (new ∷ c.answers)
      → AnswerOk members h a
  with_answer h sub new k a (inl e) = subst (AnswerOk members h) e k
  with_answer h sub new k a (inr e) = AnswerOk-Subset members c.history h sub a (sound.answer a e)

  -- A node that grants its vote is in the candidate's term, and has that vote.
  pub granted-vote :
      (n : Node D) (args : RequestVoteArgs) (r : RequestVoteReply)
      → (handle_request_vote args n).0 ≡ ok (reply r)
      → r.vote_granted ≡ true
      → ((handle_request_vote args n).1.current_term ≡ args.term)
        × ((handle_request_vote args n).1.voted_for ≡ args.candidate_id)
  granted-vote n args r done given =
      let m = (handle_request_vote args n).1 in
      let (_, w) = subst (λ o. VoteAnswered n args o m) done (handle_request_vote_lem n args) in
      let (deserved, for) = w.granted given in (ground (arith, w.term, deserved.current), for)

  pub vote-IsSound :
      (i : NodeId) (t : Tally) (r : RequestVoteReply)
      → Elem i members
      → Elem t c.tallies
      → (handle_request_vote t.args (c.node i)).0 ≡ ok (reply r)
      → IsSound s members (record c {
        node = set_node c.node i (handle_request_vote t.args (c.node i)).1;
        answers = record { voter = i; args = t.args; answer = r } ∷ c.answers;
        history = granted i t.args r ++ c.history;
      })
  vote-IsSound i t r at known done =
      let n = c.node i in
      let m = (handle_request_vote t.args n).1 in
      let kept = handle_request_vote-VoteKept n t.args in
      let old = sound.member i at in
      let owner = (sound.tally t known).owner in
      let mem = IsMember-kept s law members real i n m old kept (
        handle_request_vote-IsHeld s (recall s) (recalled-Sees s law) n t.args (reply r)
          old.restorable done) in
      let lead =
        still s law members real c sound i at m
          (handle_request_vote-StillLeads n t.args (reply r) done) in
      let a : VoteAnswer = record { voter = i; args = t.args; answer = r } in
      elim (Bool-cases r.vote_granted) [
        | inl given ↦
            let (term, for) = granted-vote n t.args r done given in
            let g = grant i t.args.term t.args.candidate_id in
            let sub : Subset c.history (g ∷ c.history) = λ k e. inr e in
            subst (λ x. IsSound s members (answered i m a x))
              (sym (granted-eq-one i t.args r given))
              (moved s law members real c sound i at m c.tallies (a ∷ c.answers) (g ∷ c.history) mem
                sub
                (voted-IsLedger s law members real c sound i at m t.args.term t.args.candidate_id
                  kept owner term for)
                (λ u e. TallyOk-Subset members c.history (g ∷ c.history) sub u (sound.tally u e))
                (with_answer (g ∷ c.history) sub a
                  (record { granted = λ e. (at, inl refl); owner = owner }))
                (λ e.
                  Backed-Subset members c.history (g ∷ c.history) sub m.current_term i (lead e)))
        | inr denied ↦
            subst (λ x. IsSound s members (answered i m a x))
              (sym (granted-eq-nil i t.args r denied))
              (moved s law members real c sound i at m c.tallies (a ∷ c.answers) c.history mem
                (λ k e. e) (kept-IsLedger s law members real c sound i at m kept) sound.tally
                (with_answer c.history (λ k e. e) a
                  (record { granted = λ e. cc (e, denied); owner = owner }))
                lead)
      ]
