-- ===== src/Raft/Net/Wins.antt =====
-- What an election (raft/election.go) does to the commit index and to a leader's record of its
-- peers.
use fraud_scoring_platform.Raft.Action.Frame.{observe_term_frame}
use fraud_scoring_platform.Raft.Vote.{HasTerm}
use fraud_scoring_platform.Raft.Net.Growth.{observe_term-log}
use fraud_scoring_platform.Raft.Net.Advance.{
  become_leader-match, become_leader-commit, CommitMove, MatchKept,
}
use fraud_scoring_platform.Raft.Log.{last_index, last_term}
use fraud_scoring_platform.Raft.Log.Shape.{HasRoom}
use fraud_scoring_platform.Raft.Types.{candidate, ok, RequestVoteReply, Answer, RequestVoteArgs}
use fraud_scoring_platform.Raft.Role.{become_leader, become_candidate}
use fraud_scoring_platform.Raft.Net.Origins.{IsWhole}
use fraud_scoring_platform.Raft.Election.{handle_request_vote, start_election, on_vote_reply}
use fraud_scoring_platform.Raft.Node.{persist, Node}
use fraud_scoring_platform.Prelude.{
  inc64-eq-add, ap, sym, subst, ◌∙◌, inr, inl, ◌⊎◌, inc64, ◌≤◌, ◌≡◌, ℕ, arith,
}

module _ {D : Type 0} (n : Node D) where
  pub handle_request_vote-commit :
      (args : RequestVoteArgs) (a : Answer RequestVoteReply)
      → (handle_request_vote args n).0 ≡ ok a
      → ((handle_request_vote args n).1.commit_index ≡ n.commit_index)
        × MatchKept n (handle_request_vote args n).1
  unfolding handle_request_vote persist
  handle_request_vote-commit args a done =
      ground (arith, observe_term-log n args.term, observe_term_frame n args.term)

  on_vote_reply-quiet :
      (args : RequestVoteArgs) (answer : RequestVoteReply) (votes v : ℕ)
      → (on_vote_reply args answer votes n).0 ≡ ok v
      → (((on_vote_reply args answer votes n).1.commit_index ≡ n.commit_index)
          × MatchKept n (on_vote_reply args answer votes n).1)
        ⊎ ((on_vote_reply args answer votes n).1 ≡ (become_leader n).1)
  unfolding on_vote_reply
  on_vote_reply-quiet args answer votes v done =
      ground (arith, observe_term-log n answer.term, observe_term_frame n answer.term)

  start_election-quiet :
      (v : ℕ)
      → (start_election n).0 ≡ ok v
      → (((start_election n).1.commit_index ≡ n.commit_index)
          × ((start_election n).1.role ≡ candidate))
        ⊎ ((start_election n).1 ≡ (become_leader (become_candidate n).1).1)
  unfolding start_election become_candidate persist
  start_election-quiet v done = ground arith

  stood :
      ((become_candidate n).1.log ≡ n.log)
      × ((become_candidate n).1.current_term ≡ inc64 n.current_term)
      × ((become_candidate n).1.commit_index ≡ n.commit_index)
  unfolding become_candidate persist
  stood = ground arith

  module _ (w : IsWhole n.log) (room : HasRoom n.log) (newest : last_term n.log ≤ n.current_term)
      (within : n.commit_index ≤ last_index n.log) where
    pub on_vote_reply-commit :
        (args : RequestVoteArgs) (answer : RequestVoteReply) (votes v : ℕ)
        → (on_vote_reply args answer votes n).0 ≡ ok v
        → HasRoom (on_vote_reply args answer votes n).1.log
        → CommitMove n (on_vote_reply args answer votes n).1
          × MatchKept n (on_vote_reply args answer votes n).1
    on_vote_reply-commit args answer votes v done after =
        elim (on_vote_reply-quiet args answer votes v done) [
          | inl (same, kept) ↦ (inl same, kept)
          | inr made ↦
              subst (λ m. HasRoom m.log → CommitMove n m × MatchKept n m) (sym made)
                (λ h. (
                  become_leader-commit n w room newest within h,
                  λ r q. inr (become_leader-match n w room newest within q),
                ))
                after
        ]

    pub start_election-commit :
        (v : ℕ)
        → HasTerm n
        → (start_election n).0 ≡ ok v
        → HasRoom (start_election n).1.log
        → CommitMove n (start_election n).1 × MatchKept n (start_election n).1
    start_election-commit v term done after = elim (start_election-quiet v done) [
      | inl (same, stands) ↦ (inl same, λ r. cc (r, stands))
      | inr made ↦
          let x = (become_candidate n).1 in
          let (log, at, commit) = stood in
          let whole = subst IsWhole (sym log) w in
          let free = subst HasRoom (sym log) room in
          let below : last_term x.log ≤ x.current_term =
            omega (arith, ap last_term log, newest, at, inc64-eq-add n.current_term term) in
          let inside : x.commit_index ≤ last_index x.log =
            omega (arith, ap last_index log, within, commit) in
          subst (λ m. HasRoom m.log → CommitMove n m × MatchKept n m) (sym made)
            (λ h. (
              from_same (become_leader x).1 (become_leader-commit x whole free below inside h)
                  commit,
              λ r q. inr (become_leader-match x whole free below inside q),
            ))
            after
    ]
      where
        from_same :
            (m : Node D)
            → CommitMove (become_candidate n).1 m
            → (become_candidate n).1.commit_index ≡ n.commit_index
            → CommitMove n m
        from_same m (inl same) e = inl (same ∙ e)
        from_same m (inr more) e = inr more
