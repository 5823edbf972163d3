-- ===== src/Raft/Durable/Held.antt =====
-- What each method of a node leaves on the disk.
use fraud_scoring_platform.Raft.Action.{
  do_finish_batch, do_propose, do_append_reply, do_prepare_append, do_leader_round,
  do_append_entries, do_request_vote, do_next_batch, do_start, do_stop, do_vote_reply, do_tick,
  Action, perform,
}
use fraud_scoring_platform.Raft.Replication.{
  prepare_append, leader_round, recognise_leader, handle_append_entries, on_append_reply, overwrite,
  accept_entries, store_entries,
}
use fraud_scoring_platform.Raft.Service.{stop, start, finish_batch, next_batch, propose}
use fraud_scoring_platform.Raft.Action.Frame.{advance_commit_index-SameButCommit}
use fraud_scoring_platform.Raft.Types.{
  PersistentState, AppendEntriesReply, NodeId, AppendEntriesArgs, Entry, Answer, RequestVoteReply,
  ok, RequestVoteArgs,
}
use fraud_scoring_platform.Raft.Role.{
  become_candidate, become_follower, observe_term, become_leader,
}
use fraud_scoring_platform.Raft.Election.{start_election, on_vote_reply, tick, handle_request_vote}
use fraud_scoring_platform.Raft.Node.{discard_lem, persistent, persist, Node}
use fraud_scoring_platform.Raft.Storage.{Storage}
use fraud_scoring_platform.Prelude.{Option, [], ◌∷◌, List, false, true, arith, Bool, some, ◌≡◌, ℕ}

-- The node saves through `s`, and what `look` makes of the disk is its term, vote and log.
pub record IsHeld {D : Type 0} (s : Storage D) (look : D → Option PersistentState) (n : Node D)
    : Type 0 where
  pub same : n.storage ≡ s
  pub synced : look n.disk ≡ some (persistent n)

-- A log is never empty: it has its sentinel.
abbrev pub Sees : {D : Type 0} → Storage D → (D → Option PersistentState) → Type 0
Sees {D} s look =
    (t : ℕ) (v : NodeId) (e : Entry) (es : List Entry) (d : D)
    → (s.save (record { current_term = t; voted_for = v; entries = e ∷ es }) d).0 ≡ true
    → look (s.save (record { current_term = t; voted_for = v; entries = e ∷ es }) d).1
      ≡ some (record { current_term = t; voted_for = v; entries = e ∷ es })

-- `look` sees what a save that succeeds has written.
module _ {D : Type 0} (s : Storage D) (look : D → Option PersistentState) (sees : Sees s look) where
  -- A save that succeeds makes the disk hold what the node holds, whatever it held before.
  persist-IsHeld :
      (n : Node D) → n.storage ≡ s → (persist n).0 ≡ ok tt → IsHeld s look (persist n).1
  unfolding persist
  persist-IsHeld n h k =
      ground (arith, sees n.current_term n.voted_for n.log.first n.log.rest n.disk)

  observe_term-IsHeld :
      (n : Node D) (t : ℕ) (b : Bool)
      → IsHeld s look n
      → (observe_term t n).0 ≡ ok b
      → IsHeld s look (observe_term t n).1
  unfolding observe_term become_follower persist
  observe_term-IsHeld n t b h k = grind (arith, sees)

  become_leader-IsHeld :
      (n : Node D) → n.storage ≡ s → (become_leader n).0 ≡ ok tt → IsHeld s look (become_leader n).1
  unfolding become_leader persist
  become_leader-IsHeld n h k = grind (arith, sees, advance_commit_index-SameButCommit)

  pub handle_request_vote-IsHeld :
      (n : Node D) (args : RequestVoteArgs) (a : Answer RequestVoteReply)
      → IsHeld s look n
      → (handle_request_vote args n).0 ≡ ok a
      → IsHeld s look (handle_request_vote args n).1
  unfolding handle_request_vote persist
  handle_request_vote-IsHeld n args a h k = grind (arith, observe_term-IsHeld, sees)

  pub on_vote_reply-IsHeld :
      (n : Node D) (args : RequestVoteArgs) (answer : RequestVoteReply) (votes v : ℕ)
      → IsHeld s look n
      → (on_vote_reply args answer votes n).0 ≡ ok v
      → IsHeld s look (on_vote_reply args answer votes n).1
  unfolding on_vote_reply
  on_vote_reply-IsHeld n args answer votes v h k = ground (
    arith,
    observe_term-IsHeld n answer.term true,
    observe_term-IsHeld n answer.term false,
    become_leader-IsHeld (observe_term answer.term n).1,
  )

  pub start_election-IsHeld :
      (n : Node D) (v : ℕ)
      → IsHeld s look n
      → (start_election n).0 ≡ ok v
      → IsHeld s look (start_election n).1
  unfolding start_election become_candidate persist
  start_election-IsHeld n v h k = grind (arith, sees, become_leader-IsHeld)

  tick-IsHeld :
      (n : Node D) (expired : Bool)
      → IsHeld s look n
      → (tick expired n).0 ≡ ok tt
      → IsHeld s look (tick expired n).1
  unfolding tick
  tick-IsHeld n expired h k = grind (arith, start_election-IsHeld)

  propose-IsHeld :
      (n : Node D) (command : List ℕ) (a : Answer (ℕ × ℕ))
      → IsHeld s look n
      → (propose command n).0 ≡ ok a
      → IsHeld s look (propose command n).1
  unfolding propose persist
  propose-IsHeld n command a h k = grind (arith, sees, advance_commit_index-SameButCommit)

  on_append_reply-IsHeld :
      (n : Node D) (peer : NodeId) (args : AppendEntriesArgs) (answer : AppendEntriesReply)
      → IsHeld s look n
      → (on_append_reply peer args answer n).0 ≡ ok tt
      → IsHeld s look (on_append_reply peer args answer n).1
  unfolding on_append_reply
  on_append_reply-IsHeld n peer args answer h k =
      grind (arith, observe_term-IsHeld, advance_commit_index-SameButCommit)

  overwrite-IsHeld :
      (n : Node D) (found : Bool) (e : Entry) (es : List Entry)
      → n.storage ≡ s
      → (overwrite found e es n).0 ≡ ok tt
      → IsHeld s look (overwrite found e es n).1
  unfolding overwrite persist
  overwrite-IsHeld n true e es h k = grind (arith, sees)
  overwrite-IsHeld n false e es h k = grind (arith, sees)

  store_entries-IsHeld :
      (es : List Entry) (n : Node D)
      → IsHeld s look n
      → (store_entries es n).0 ≡ ok tt
      → IsHeld s look (store_entries es n).1
  unfolding store_entries
  store_entries-IsHeld [] n h k = h
  store_entries-IsHeld (e ∷ es) n h k = ground (
    arith,
    store_entries-IsHeld es n,
    overwrite-IsHeld n true e es,
    overwrite-IsHeld n false e es,
  )

  accept_entries-IsHeld :
      (n : Node D) (args : AppendEntriesArgs) (t : ℕ) (a : Answer AppendEntriesReply)
      → IsHeld s look n
      → (accept_entries args t n).0 ≡ ok a
      → IsHeld s look (accept_entries args t n).1
  unfolding accept_entries
  accept_entries-IsHeld n args t a h k = ground (arith, store_entries-IsHeld args.entries n)

  recognise_leader-IsHeld :
      (n : Node D) (args : AppendEntriesArgs)
      → IsHeld s look n
      → (recognise_leader args n).0 ≡ ok tt
      → IsHeld s look (recognise_leader args n).1
  unfolding recognise_leader become_follower persist
  recognise_leader-IsHeld n args h k = grind (arith, sees)

  handle_append_entries-IsHeld :
      (n : Node D) (args : AppendEntriesArgs) (a : Answer AppendEntriesReply)
      → IsHeld s look n
      → (handle_append_entries args n).0 ≡ ok a
      → IsHeld s look (handle_append_entries args n).1
  unfolding handle_append_entries
  handle_append_entries-IsHeld n args a h k =
      let m = (observe_term args.term n).1 in
      ground (
        arith,
        observe_term-IsHeld n args.term true,
        observe_term-IsHeld n args.term false,
        recognise_leader-IsHeld m args,
        accept_entries-IsHeld (recognise_leader args m).1 args m.current_term a,
      )

  pub perform-IsHeld :
      (a : Action) (n : Node D)
      → IsHeld s look n
      → (perform a n).0 ≡ ok tt
      → IsHeld s look (perform a n).1
  unfolding perform
  perform-IsHeld (do_tick expired) n h k = tick-IsHeld n expired h k
  perform-IsHeld (do_vote_reply args answer votes) n h k =
      discard_lem (on_vote_reply args answer votes n) (IsHeld s look)
        (λ v e. on_vote_reply-IsHeld n args answer votes v h e) k
  perform-IsHeld (do_request_vote args) n h k =
      discard_lem (handle_request_vote args n) (IsHeld s look)
        (λ a e. handle_request_vote-IsHeld n args a h e) k
  perform-IsHeld (do_append_entries args) n h k =
      discard_lem (handle_append_entries args n) (IsHeld s look)
        (λ a e. handle_append_entries-IsHeld n args a h e) k
  perform-IsHeld (do_leader_round t) n h k = unfold leader_round in ground arith
  perform-IsHeld (do_prepare_append peer t) n h k = unfold prepare_append in ground arith
  perform-IsHeld (do_append_reply peer args answer) n h k =
      on_append_reply-IsHeld n peer args answer h k
  perform-IsHeld (do_propose command) n h k =
      discard_lem (propose command n) (IsHeld s look) (λ a e. propose-IsHeld n command a h e) k
  perform-IsHeld do_next_batch n h k = unfold next_batch in ground arith
  perform-IsHeld (do_finish_batch []) n h k = unfold finish_batch in ground arith
  perform-IsHeld (do_finish_batch (e ∷ es)) n h k = unfold finish_batch in ground arith
  perform-IsHeld do_start n h k = unfold start in ground arith
  perform-IsHeld do_stop n h k = unfold stop in ground arith
