-- ===== src/Raft/Election/Grant.antt =====
-- `HandleRequestVote` of raft/election.go: to whom a node gives its vote.
use fraud_scoring_platform.Raft.Role.{observe_term}
use fraud_scoring_platform.Raft.Action.Frame.{
  observe_term-voted_for, observe_term_frame, observe_term-old,
}
use fraud_scoring_platform.Raft.Log.Order.{is_up_to_date_iff, IsAtLeast}
use fraud_scoring_platform.Raft.Election.{handle_request_vote}
use fraud_scoring_platform.Raft.Node.{persist, Node}
use fraud_scoring_platform.Raft.Types.{
  reply, refuse, ok, save_failed, nobody, panic, Answer, Outcome, RequestVoteReply, RequestVoteArgs,
  stopped,
}
use fraud_scoring_platform.Prelude.{
  dec_lt, ltb, if◌then◌else◌, eq_iff, arith, false, true, max, ◌⊎◌, ◌≡◌, ◌<◌, ◌≤◌,
}

-- Raft's voting rule: the candidate's term is not older, the node has no other vote in it, and the
-- candidate's log is at least as up to date.
pub record Deserves {D : Type 0} (n : Node D) (args : RequestVoteArgs) : Type 0 where
  pub current : n.current_term ≤ args.term
  pub free :
      (n.current_term < args.term) ⊎ (n.voted_for ≡ nobody) ⊎ (n.voted_for ≡ args.candidate_id)
  pub up_to_date : IsAtLeast n.log args.last_log_term args.last_log_index

-- What the node is after its reply.
pub record Voted {D : Type 0} (n : Node D) (args : RequestVoteArgs) (r : RequestVoteReply)
    (m : Node D) : Type 0 where
  pub log : m.log ≡ n.log
  pub term : m.current_term ≡ max n.current_term args.term
  pub replied : r.term ≡ m.current_term
  pub granted : r.vote_granted ≡ true → Deserves n args × (m.voted_for ≡ args.candidate_id)
  pub deserved : Deserves n args → r.vote_granted ≡ true
  pub denied :
      r.vote_granted ≡ false
      → m.voted_for ≡ (if ltb n.current_term args.term then nobody else n.voted_for)

abbrev pub VoteAnswered :
    {D : Type 0} → Node D → RequestVoteArgs → Outcome (Answer RequestVoteReply) → Node D → Type 0
VoteAnswered n args (panic p) m = p ≡ save_failed
VoteAnswered n args (ok (refuse e)) m = (n.stopped ≡ true) × (e ≡ stopped) × (m ≡ n)
VoteAnswered n args (ok (reply r)) m = (n.stopped ≡ false) × Voted n args r m

module _ {D : Type 0} (n : Node D) (args : RequestVoteArgs) where
  -- The handler panics only if a save fails, and a stopped node refuses and stays as it is.
  -- Otherwise the reply has the newer of the two terms, the vote is granted exactly to a candidate
  -- that deserves it, and the node's vote is then the candidate's. Without a grant a newer term
  -- clears the vote. The log never changes.
  pub handle_request_vote_lem :
      VoteAnswered n args (handle_request_vote args n).0 (handle_request_vote args n).1
  unfolding handle_request_vote persist
  handle_request_vote_lem = elim (dec_lt args.term n.current_term) [
    | yes stale ↦ ground (arith, observe_term-old n args.term)
    | no current ↦ ground (
      arith,
      observe_term_frame n args.term,
      observe_term-voted_for n args.term,
      is_up_to_date_iff n.log args.last_log_term args.last_log_index,
      eq_iff n.voted_for args.candidate_id,
      eq_iff n.voted_for nobody,
      eq_iff nobody nobody,
      eq_iff (observe_term args.term n).1.voted_for args.candidate_id,
      eq_iff (observe_term args.term n).1.voted_for nobody,
      is_up_to_date_iff (observe_term args.term n).1.log args.last_log_term args.last_log_index,
    )
  ]
