-- ===== src/Raft/Vote.antt =====
-- One vote in each term: what a node does to its term and its vote.
use fraud_scoring_platform.Raft.Action.Frame.{
  accept_entries-SameButLog, advance_commit_index-SameButCommit,
}
use fraud_scoring_platform.Prelude.{
  ℕ, ◌+◌, ◌≤◌, ◌<◌, ◌≡◌, ◌≢◌, arith, eq_iff, u64_mod, inc64-eq-add, Bool, List,
}
use fraud_scoring_platform.Raft.Types.{
  NodeId, nobody, RequestVoteArgs, RequestVoteReply, Entry, AppendEntriesArgs, AppendEntriesReply,
}
use fraud_scoring_platform.Raft.Node.{Node, persist}
use fraud_scoring_platform.Raft.Role.{
  become_follower, become_candidate, become_leader, observe_term,
}
use fraud_scoring_platform.Raft.Election.{handle_request_vote, start_election, tick, on_vote_reply}
use fraud_scoring_platform.Raft.Replication.{
  recognise_leader, leader_round, prepare_append, on_append_reply, handle_append_entries,
}
use fraud_scoring_platform.Raft.Service.{propose, start, stop, next_batch, finish_batch}
use fraud_scoring_platform.Raft.Action.{
  do_next_batch, do_start, do_stop, do_finish_batch, do_propose, do_append_reply, do_prepare_append,
  do_leader_round, do_append_entries, do_request_vote, do_vote_reply, do_tick, Action, perform,
}

-- The node keeps its name and its peers, the term never goes down, and within a term a vote that
-- was given stays.
pub record VoteKept {D : Type 0} (n m : Node D) : Type 0 where
  pub id : m.id ≡ n.id
  pub peers : m.peers ≡ n.peers
  pub term : n.current_term ≤ m.current_term
  pub vote : n.current_term ≡ m.current_term → n.voted_for ≢ nobody → m.voted_for ≡ n.voted_for

-- The next term is still a uint64.
abbrev pub HasTerm : {D : Type 0} → Node D → Type 0
HasTerm n = n.current_term + 1 < u64_mod

-- A tick may start an election in the next term.
abbrev pub NeedsTerm : {D : Type 0} → Action → Node D → Type 0
NeedsTerm (do_tick _) n = HasTerm n
NeedsTerm _ n = Unit

module _ {D : Type 0} where
  observe_term-VoteKept : (n : Node D) (t : ℕ) → VoteKept n (observe_term t n).1
  unfolding observe_term become_follower persist
  observe_term-VoteKept n t = ground arith

  pub become_leader-VoteKept : (n : Node D) → VoteKept n (become_leader n).1
  unfolding become_leader persist
  become_leader-VoteKept n = grind (arith, advance_commit_index-SameButCommit)

  pub start_election-VoteKept : (n : Node D) → HasTerm n → VoteKept n (start_election n).1
  unfolding start_election become_candidate persist
  start_election-VoteKept n room =
      grind (arith, become_leader-VoteKept, inc64-eq-add n.current_term)

  tick-VoteKept : (n : Node D) (expired : Bool) → HasTerm n → VoteKept n (tick expired n).1
  unfolding tick
  tick-VoteKept n expired room = ground (arith, start_election-VoteKept n room)

  pub on_vote_reply-VoteKept :
      (n : Node D) (args : RequestVoteArgs) (answer : RequestVoteReply) (votes : ℕ)
      → VoteKept n (on_vote_reply args answer votes n).1
  unfolding on_vote_reply
  on_vote_reply-VoteKept n args answer votes = ground (
    arith,
    observe_term-VoteKept n answer.term,
    become_leader-VoteKept (observe_term answer.term n).1,
  )

  pub handle_request_vote-VoteKept :
      (n : Node D) (args : RequestVoteArgs) → VoteKept n (handle_request_vote args n).1
  unfolding handle_request_vote persist
  handle_request_vote-VoteKept n args = ground (
    arith,
    observe_term-VoteKept n args.term,
    eq_iff (observe_term args.term n).1.voted_for args.candidate_id,
    eq_iff (observe_term args.term n).1.voted_for nobody,
  )

  handle_append_entries-VoteKept :
      (n : Node D) (args : AppendEntriesArgs) → VoteKept n (handle_append_entries args n).1
  unfolding handle_append_entries recognise_leader become_follower observe_term persist
  handle_append_entries-VoteKept n args = grind (arith, accept_entries-SameButLog)

  on_append_reply-VoteKept :
      (n : Node D) (peer : NodeId) (args : AppendEntriesArgs) (answer : AppendEntriesReply)
      → VoteKept n (on_append_reply peer args answer n).1
  unfolding on_append_reply become_follower observe_term persist
  on_append_reply-VoteKept n peer args answer = grind (arith, advance_commit_index-SameButCommit)

  propose-VoteKept : (n : Node D) (command : List ℕ) → VoteKept n (propose command n).1
  unfolding propose persist
  propose-VoteKept n command = grind (arith, advance_commit_index-SameButCommit)

  finish_batch-VoteKept : (n : Node D) (batch : List Entry) → VoteKept n (finish_batch batch n).1
  unfolding finish_batch
  finish_batch-VoteKept n batch = ground arith

  leader_round-VoteKept : (n : Node D) (t : ℕ) → VoteKept n (leader_round t n).1
  unfolding leader_round
  leader_round-VoteKept n t = ground arith

  prepare_append-VoteKept :
      (n : Node D) (peer : NodeId) (t : ℕ) → VoteKept n (prepare_append peer t n).1
  unfolding prepare_append
  prepare_append-VoteKept n peer t = ground arith

  -- Whatever a node does, if on a tick the next term is still a uint64: it keeps its name and its
  -- peers, its term never goes down, and within one term a vote that it gave is never withdrawn or
  -- given to another node.
  pub perform-VoteKept : (a : Action) (n : Node D) → NeedsTerm a n → VoteKept n (perform a n).1
  unfolding perform
  perform-VoteKept (do_tick expired) n h = tick-VoteKept n expired h
  perform-VoteKept (do_vote_reply args answer votes) n h =
      ground (arith, on_vote_reply-VoteKept n args answer votes)
  perform-VoteKept (do_request_vote args) n h = ground (arith, handle_request_vote-VoteKept n args)
  perform-VoteKept (do_append_entries args) n h =
      ground (arith, handle_append_entries-VoteKept n args)
  perform-VoteKept (do_leader_round t) n h = ground (arith, leader_round-VoteKept n t)
  perform-VoteKept (do_prepare_append peer t) n h = ground (arith, prepare_append-VoteKept n peer t)
  perform-VoteKept (do_append_reply peer args answer) n h =
      on_append_reply-VoteKept n peer args answer
  perform-VoteKept (do_propose command) n h = ground (arith, propose-VoteKept n command)
  perform-VoteKept do_next_batch n h = unfold next_batch in ground arith
  perform-VoteKept (do_finish_batch batch) n h = finish_batch-VoteKept n batch
  perform-VoteKept do_start n h = unfold start in ground arith
  perform-VoteKept do_stop n h = unfold stop in ground arith
