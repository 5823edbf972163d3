-- ===== src/Raft/Election.antt =====
-- raft/election.go. `requestVote` sends one RPC without the lock: the two parts of it that hold the
-- lock are the call in `start_election` and the handling of the answer.
pub mod Grant
use fraud_scoring_platform.Prelude.{
  ℕ, ◌+◌, Bool, true, false, not, ◌&&◌, ◌||◌, List, map, ltb, leb, ◌==◌, str_eq, if◌then◌else◌,
}
use fraud_scoring_platform.Raft.Types.{
  NodeId, nobody, RequestVoteArgs, RequestVoteReply, Effect, run_request_vote, Answer, reply,
  refuse, stopped,
}
use fraud_scoring_platform.Raft.Log
use fraud_scoring_platform.Raft.Log.{last_index, last_term}
use fraud_scoring_platform.Raft.Node.{
  Node, Exec, pure, get, modify, when, spawn_all, reset_election_timer, persist, quorum, ◌>>=◌,
  ◌>>◌, continue,
}
use fraud_scoring_platform.Raft.Role.{
  is_leader, is_candidate, become_candidate, become_leader, observe_term,
}

module _ {D : Type 0} where
  abbrev pub vote_request : Node D → RequestVoteArgs
  vote_request n = record {
    term = n.current_term;
    candidate_id = n.id;
    last_log_index = last_index n.log;
    last_log_term = last_term n.log;
  }

  -- Returns the votes counted so far.
  unfoldable pub start_election : Exec D ℕ
  start_election = do
    become_candidate
    n ← get
    if leb (quorum n) 1
        then (do become_leader; pure 1)
        else (do spawn_all (map (λ p. run_request_vote p (vote_request n)) n.peers); pure 1)

  -- What `ticker` does on a tick; `expired` is `time.Now().After(n.electionDeadline)`.
  unfoldable pub tick : Bool → Exec D Unit
  tick expired = do
    n ← get
    when (not n.stopped && not (is_leader n.role) && expired) (do start_election; pure tt)

  -- `requestVote` from the arrival of the answer on. Returns the votes counted so far.
  unfoldable pub on_vote_reply : RequestVoteArgs → RequestVoteReply → ℕ → Exec D ℕ
  on_vote_reply args answer votes = do
    n ← get
    if n.stopped then pure votes else do
      newer ← observe_term answer.term
      if newer then pure votes else do
        m ← get
        if not (is_candidate m.role) || not (args.term == m.current_term) || not answer.vote_granted
            then pure votes
            else do when (leb (quorum m) (votes + 1)) become_leader; pure (votes + 1)

  -- Whether a node may vote for the candidate in its current term.
  abbrev pub can_vote : Node D → RequestVoteArgs → Bool
  can_vote n args = str_eq n.voted_for nobody || str_eq n.voted_for args.candidate_id

  unfoldable pub handle_request_vote : RequestVoteArgs → Exec D (Answer RequestVoteReply)
  handle_request_vote args = do
    n ← get
    if n.stopped then pure (refuse stopped) else do
      observe_term args.term
      m ← get
      if ltb args.term m.current_term
          then pure (reply (record { term = m.current_term; vote_granted = false }))
          else if can_vote m args && Log.is_up_to_date m.log args.last_log_term args.last_log_index
          then (do
            modify (λ k. record k { voted_for = args.candidate_id })
            persist
            reset_election_timer
            pure (reply (record { term = m.current_term; vote_granted = true })))
          else pure (reply (record { term = m.current_term; vote_granted = false }))
