-- ===== src/Raft/Net/Counted.antt =====
-- The steps of an election (raft/election.go): a member stands, gives its vote, or counts one.
use fraud_scoring_platform.Raft.Log.{last_index, last_term}
use fraud_scoring_platform.Raft.Net.Elections.{next_self, own-VoteFresh}
use fraud_scoring_platform.Raft.Election.Grant.{handle_request_vote_lem, VoteAnswered}
use fraud_scoring_platform.Raft.Cluster.Sound.{quorum-majority}
use fraud_scoring_platform.Raft.Cluster.Leads.{on_vote_reply_lem}
use fraud_scoring_platform.Raft.Net.Onward.{onward, longer}
use fraud_scoring_platform.Raft.Log.Shape.{IsLog}
use fraud_scoring_platform.Raft.Create.{others}
use fraud_scoring_platform.Raft.Election.{
  vote_request, on_vote_reply, handle_request_vote, start_election,
}
use fraud_scoring_platform.Raft.Net.Growth.{LogMove}
use fraud_scoring_platform.Raft.Cluster.{counted, VoteAnswer, Tally}
use fraud_scoring_platform.Raft.Node.{quorum, Node}
use fraud_scoring_platform.Raft.Net.Fresh.{VoteFresh, TallyFresh, IsComplete}
use fraud_scoring_platform.Raft.Net.Matched.{IsMatched}
use fraud_scoring_platform.Raft.Net.{Past, HaveRoom, Net}
use fraud_scoring_platform.Raft.Cluster.Majority.{IsMajority, Distinct}
use fraud_scoring_platform.Raft.Types.{reply, ok, RequestVoteReply, RequestVoteArgs, nobody, NodeId}
use fraud_scoring_platform.Raft.Storage.{IsStorage, Storage}
use fraud_scoring_platform.Prelude.{
  inr, sym, inl, ◌∙◌, ap, [], subst, ◌+◌, ◌∷◌, true, ◌≤◌, All, ◌≡◌, ℕ, ◌≢◌, Elem, List, arith, refl,
}

module _ {D : Type 0} (s : Storage D) (law : IsStorage s) (members : List NodeId)
    (apart : Distinct members) (real : (i : NodeId) → Elem i members → i ≢ nobody) (c : Net D)
    (k : IsMatched s members c) (full : IsComplete members c)
    (room : HaveRoom s members c.base) where
  -- A member that grants its vote has a log that is no more up to date than the candidate's.
  pub given :
      (i : NodeId) (at : Elem i members) (args : RequestVoteArgs) (r : RequestVoteReply)
      (move : LogMove c.requests (c.base.node i) (handle_request_vote args (c.base.node i)).1)
      → (handle_request_vote args (c.base.node i)).0 ≡ ok (reply r)
      → IsLog (handle_request_vote args (c.base.node i)).1.log
      → r.vote_granted ≡ true
      → VoteFresh
          (longer s members c k full room i at (handle_request_vote args (c.base.node i)).1 move)
          (onward s members c k full room i at (handle_request_vote args (c.base.node i)).1 move)
          args.term
          (args.term + 1)
          args.last_log_term
          args.last_log_index
          i
  given i at args r move done good yes_vote =
      let n = c.base.node i in
      let m = (handle_request_vote args n).1 in
      let (_, w) = subst (λ o. VoteAnswered n args o m) done (handle_request_vote_lem n args) in
      let (deserved, _) = w.granted yes_vote in
      let term : m.current_term ≡ args.term = ground (arith, w.term, deserved.current) in
      own-VoteFresh s law members apart real c k full room i at m move args.term (args.term + 1)
        args.last_log_term args.last_log_index (omega (arith, term)) (omega (arith, term))
        (ground (arith, deserved.up_to_date, w.log)) good

  pub single :
      (i : NodeId) (n : Node D) (at : Elem i members)
      → n.peers ≡ others i members
      → quorum n ≤ 1
      → IsMajority members (i ∷ [])
  single i n at connected one = record {
    distinct = ((λ e. e), tt);
    inside = (at, tt);
    most = omega (arith, one, quorum-majority s law members apart real i n at connected);
  }

  pub standing :
      (i : NodeId) (v : ℕ) (at : Elem i members)
      (move : LogMove c.requests (c.base.node i) (start_election (c.base.node i)).1)
      → (start_election (c.base.node i)).1.id ≡ i
      → IsLog (start_election (c.base.node i)).1.log
      → TallyFresh
          (longer s members c k full room i at (start_election (c.base.node i)).1 move)
          (onward s members c k full room i at (start_election (c.base.node i)).1 move)
          (record {
            args = vote_request (start_election (c.base.node i)).1;
            waiting = (c.base.node i).peers;
            voters = i ∷ [];
            votes = v;
          })
  standing i v at move name good =
      let m = (start_election (c.base.node i)).1 in
      let self : onward s members c k full room i at m move m.id ≡ m =
        ap (onward s members c k full room i at m move) name
        ∙ next_self s law members apart real c k full room i at m move in
      record {
        votes = (
          own-VoteFresh s law members apart real c k full room i at m move m.current_term
              (m.current_term + 1) (last_term m.log) (last_index m.log) (omega arith) (omega arith)
              (inr (refl, omega arith)) good,
          tt,
        );
        reached = omega (arith, ap (λ (q : Node D). q.current_term) self);
        stands = λ e r.
            (ap (λ (q : Node D). last_index q.log) self, ap (λ (q : Node D). last_term q.log) self);
      }

  -- The votes that a candidate has counted when it has heard one more.
  pub heard-votes :
      (t : Tally) (a : VoteAnswer) (i : NodeId) (n : Node D) (v : ℕ)
      → TallyFresh c.past c.base.node t
      → Elem a c.base.answers
      → t.args ≡ a.args
      → (on_vote_reply t.args a.answer t.votes n).0 ≡ ok v
      → All
          (VoteFresh c.past c.base.node t.args.term
            (t.args.term + 1)
            t.args.last_log_term
            t.args.last_log_index)
          (counted t.votes v a.voter t.voters)
  heard-votes t a i n v fresh sent same done =
      elim (on_vote_reply_lem n t.args a.answer t.votes v done) [
        | inl (none_added, _) ↦
            let e : t.voters ≡ counted t.votes v a.voter t.voters = ground (arith, none_added) in
            subst (All P) e fresh.votes
        | inr (added, yes_vote, _, _, _) ↦
            let e : a.voter ∷ t.voters ≡ counted t.votes v a.voter t.voters =
              ground (arith, added) in
            let one : P a.voter =
              subst
                (λ (x : RequestVoteArgs).
                  VoteFresh c.past c.base.node x.term (x.term + 1) x.last_log_term x.last_log_index
                    a.voter)
                (sym same) (full.answer a sent yes_vote) in
            subst (All P) e (one, fresh.votes)
      ]
    where
      P : NodeId → Type 0
      P =
          VoteFresh c.past c.base.node t.args.term (t.args.term + 1) t.args.last_log_term
            t.args.last_log_index

pub votes-eq :
    {D : Type 0} (past : List (Past D)) (f : NodeId → Node D) (u w last_t end_t last_i end_i : ℕ)
    (vs : List NodeId)
    → u ≡ w
    → last_t ≡ end_t
    → last_i ≡ end_i
    → All (VoteFresh past f u (u + 1) last_t last_i) vs
    → All (VoteFresh past f w (w + 1) end_t end_i) vs
votes-eq past f u w last_t end_t last_i end_i vs a b e h =
    subst (λ x. All (VoteFresh past f w (w + 1) end_t x) vs) e
      (subst (λ x. All (VoteFresh past f w (w + 1) x last_i) vs) b
        (subst (λ x. All (VoteFresh past f x (x + 1) last_t last_i) vs) a h))
