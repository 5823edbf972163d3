-- ===== src/Raft/Cluster/Leads.antt =====
-- How a node becomes the leader of a term, and stays it.
use fraud_scoring_platform.Raft.Action.Frame.{
  accept_entries-SameButLog, advance_commit_index-SameButCommit, recognise_leader_frame,
}
use fraud_scoring_platform.Raft.Vote.{HasTerm}
use fraud_scoring_platform.Raft.Types.{
  candidate, save_failed, panic, follower, AppendEntriesReply, leader, RequestVoteReply, ok, Answer,
  AppendEntriesArgs, NodeId, RequestVoteArgs,
}
use fraud_scoring_platform.Raft.Cluster.{IsLocal}
use fraud_scoring_platform.Raft.Service.{stop, start, finish_batch, next_batch, propose}
use fraud_scoring_platform.Raft.Replication.{
  prepare_append, recognise_leader, leader_round, handle_append_entries, on_append_reply,
}
use fraud_scoring_platform.Raft.Node.{discard_lem, quorum, persist, Node}
use fraud_scoring_platform.Raft.Role.{
  become_follower, become_candidate, become_leader, observe_term,
}
use fraud_scoring_platform.Raft.Election.{handle_request_vote, on_vote_reply, start_election}
use fraud_scoring_platform.Raft.Action.{
  perform, Action, do_tick, do_vote_reply, do_request_vote, do_append_entries, do_leader_round,
  do_prepare_append, do_append_reply, do_propose, do_next_batch, do_finish_batch, do_start, do_stop,
}
use fraud_scoring_platform.Prelude.{false, ◌≤◌, ◌+◌, ◌⊎◌, true, arith, List, ◌≡◌, ℕ, [], ◌∷◌}

-- A node that leads after the action led before it, in the same term.
abbrev pub StillLeads : {D : Type 0} → Node D → Node D → Type 0
StillLeads n m = m.role ≡ leader → (n.role ≡ leader) × (m.current_term ≡ n.current_term)

module _ {D : Type 0} where
  pub observe_term-role :
      (n : Node D) (t : ℕ)
      → (((observe_term t n).0 ≡ ok true) × ((observe_term t n).1.role ≡ follower))
        ⊎ (observe_term t n ≡ (ok false, n))
        ⊎ ((observe_term t n).0 ≡ panic save_failed)
  unfolding observe_term become_follower persist
  observe_term-role n t = ground arith

  become_leader_frame :
      (n : Node D)
      → ((become_leader n).1.current_term ≡ n.current_term)
        × ((become_leader n).1.id ≡ n.id)
        × ((become_leader n).1.peers ≡ n.peers)
        × ((become_leader n).1.voted_for ≡ n.voted_for)
  unfolding become_leader persist
  become_leader_frame n = grind (arith, advance_commit_index-SameButCommit)

  pub handle_request_vote-StillLeads :
      (n : Node D) (args : RequestVoteArgs) (a : Answer RequestVoteReply)
      → (handle_request_vote args n).0 ≡ ok a
      → StillLeads n (handle_request_vote args n).1
  unfolding handle_request_vote persist
  handle_request_vote-StillLeads n args a h = ground (arith, observe_term-role n args.term)

  handle_append_entries-StillLeads :
      (n : Node D) (args : AppendEntriesArgs) (a : Answer AppendEntriesReply)
      → (handle_append_entries args n).0 ≡ ok a
      → StillLeads n (handle_append_entries args n).1
  unfolding handle_append_entries
  handle_append_entries-StillLeads n args a h =
      let m = (observe_term args.term n).1 in
      ground (
        arith,
        observe_term-role n args.term,
        recognise_leader_frame m args,
        accept_entries-SameButLog (recognise_leader args m).1 args m.current_term,
      )

  on_append_reply-StillLeads :
      (n : Node D) (peer : NodeId) (args : AppendEntriesArgs) (answer : AppendEntriesReply)
      → (on_append_reply peer args answer n).0 ≡ ok tt
      → StillLeads n (on_append_reply peer args answer n).1
  unfolding on_append_reply
  on_append_reply-StillLeads n peer args answer h =
      grind (arith, observe_term-role, advance_commit_index-SameButCommit)

  propose-StillLeads : (n : Node D) (command : List ℕ) → StillLeads n (propose command n).1
  unfolding propose persist
  propose-StillLeads n command = grind (arith, advance_commit_index-SameButCommit)

  -- No action but those that count votes makes a leader.
  pub perform-StillLeads :
      (a : Action) (n : Node D) → IsLocal a → (perform a n).0 ≡ ok tt → StillLeads n (perform a n).1
  unfolding perform
  perform-StillLeads (do_tick expired) n l k = elim l [ ]
  perform-StillLeads (do_vote_reply args answer votes) n l k = elim l [ ]
  perform-StillLeads (do_request_vote args) n l k = elim l [ ]
  perform-StillLeads (do_append_entries args) n l k =
      discard_lem (handle_append_entries args n) (StillLeads n)
        (λ a e. handle_append_entries-StillLeads n args a e) k
  perform-StillLeads (do_leader_round t) n l k = unfold leader_round in ground arith
  perform-StillLeads (do_prepare_append peer t) n l k = unfold prepare_append in ground arith
  perform-StillLeads (do_append_reply peer args answer) n l k =
      on_append_reply-StillLeads n peer args answer k
  perform-StillLeads (do_propose command) n l k =
      discard_lem (propose command n) (StillLeads n) (λ a e. propose-StillLeads n command) k
  perform-StillLeads do_next_batch n l k = unfold next_batch in ground arith
  perform-StillLeads (do_finish_batch []) n l k = unfold finish_batch in ground arith
  perform-StillLeads (do_finish_batch (e ∷ es)) n l k = unfold finish_batch in ground arith
  perform-StillLeads do_start n l k = unfold start in ground arith
  perform-StillLeads do_stop n l k = unfold stop in ground arith

  become_candidate_frame :
      (n : Node D)
      → ((become_candidate n).1.voted_for ≡ n.id)
        × ((become_candidate n).1.peers ≡ n.peers)
        × ((become_candidate n).1.role ≡ candidate)
  unfolding become_candidate persist
  become_candidate_frame n = ground arith

  -- A candidate votes for itself in a new term, and leads at once only if it is the majority.
  pub start_election_lem :
      (n : Node D) (v : ℕ)
      → HasTerm n
      → (start_election n).0 ≡ ok v
      → (v ≡ 1)
        × ((start_election n).1.voted_for ≡ n.id)
        × ((start_election n).1.role ≡ leader → quorum n ≤ 1)
  unfolding start_election quorum
  start_election_lem n v room h =
      ground (arith, become_candidate_frame n, become_leader_frame (become_candidate n).1)

  -- An answer adds one vote, and makes a leader of the candidate of its term if the votes suffice;
  -- or it adds none and makes no leader.
  pub on_vote_reply_lem :
      (n : Node D) (args : RequestVoteArgs) (answer : RequestVoteReply) (votes v : ℕ)
      → (on_vote_reply args answer votes n).0 ≡ ok v
      → ((v ≡ votes) × StillLeads n (on_vote_reply args answer votes n).1)
        ⊎ ((v ≡ votes + 1)
            × (answer.vote_granted ≡ true)
            × (n.current_term ≡ args.term)
            × ((on_vote_reply args answer votes n).1.current_term ≡ n.current_term)
            × ((on_vote_reply args answer votes n).1.role ≡ leader → quorum n ≤ v))
  unfolding on_vote_reply
  on_vote_reply_lem n args answer votes v h =
      ground (arith, observe_term-role n answer.term, become_leader_frame n)
