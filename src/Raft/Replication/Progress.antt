-- ===== src/Raft/Replication/Progress.antt =====
-- What the answer to an AppendEntries request in raft/replication.go does to the leader's record of
-- its peers.
use fraud_scoring_platform.Raft.Action.Frame.{
  advance_commit_index-SameButCommit, observe_term_frame,
}
use fraud_scoring_platform.Raft.Role.{advance_commit_index, observe_term}
use fraud_scoring_platform.Raft.Types.{AppendEntriesReply, AppendEntriesArgs, NodeId}
use fraud_scoring_platform.Raft.Replication.{on_append_reply}
use fraud_scoring_platform.Raft.Node.{update, Node}
use fraud_scoring_platform.Prelude.{
  ◌⊎◌, max, length, ap, eq_iff, add64, inc64, ◌<◌, false, ◌≤◌, ◌≡◌, arith,
}

-- The peer is tried again one entry earlier.
pub record BackedUp {D : Type 0} (n m : Node D) (peer : NodeId) (args : AppendEntriesArgs)
    (answer : AppendEntriesReply) (q : NodeId) : Type 0 where
  pub same : q ≡ peer
  pub refused : answer.success ≡ false
  pub positive : 0 < args.prev_log_index
  pub fresh : n.next_index q ≡ inc64 args.prev_log_index
  pub earlier : m.next_index q ≡ args.prev_log_index

module _ {D : Type 0} (peer : NodeId) (args : AppendEntriesArgs) (answer : AppendEntriesReply)
    (n : Node D) where
  abbrev pub observed : Node D
  observed = (observe_term answer.term n).1

  -- What the leader records when the peer has stored the entries.
  abbrev pub recorded : Node D
  recorded =
      let match = add64 args.prev_log_index (length args.entries) in
      record observed {
        match_index = update observed.match_index peer (max (observed.match_index peer) match);
        next_index = update observed.next_index peer (max (observed.next_index peer) (inc64 match));
      }

  pub frames :
      (q : NodeId)
      → (observed.match_index q ≡ n.match_index q)
        × (observed.next_index q ≡ n.next_index q)
        × ((advance_commit_index recorded).1.match_index q ≡ recorded.match_index q)
        × ((advance_commit_index recorded).1.next_index q ≡ recorded.next_index q)
  frames q =
      let (frame, _, _) = observe_term_frame n answer.term in
      let kept = advance_commit_index-SameButCommit recorded in
      (
        ap (λ f. f q) frame.match_index,
        ap (λ f. f q) frame.next_index,
        ap (λ f. f q) kept.match_index,
        ap (λ f. f q) kept.next_index,
      )

  on_append_reply-match :
      (q : NodeId) → n.match_index q ≤ (on_append_reply peer args answer n).1.match_index q
  unfolding on_append_reply
  on_append_reply-match q =
      ground (arith, frames q, eq_iff q peer, ap n.match_index {x = q} {y = peer})

  on_append_reply-next :
      (q : NodeId)
      → (n.next_index q ≤ (on_append_reply peer args answer n).1.next_index q)
        ⊎ BackedUp n (on_append_reply peer args answer n).1 peer args answer q
  unfolding on_append_reply
  on_append_reply-next q = ground (
    arith,
    frames q,
    eq_iff q peer,
    ap n.next_index {x = q} {y = peer},
    ap observed.next_index {x = q} {y = peer},
  )

  -- Whatever answer arrives, late or not, on whatever node: the recorded match index of no peer
  -- goes down, and its next index goes down only for the peer asked, on a refusal, from just behind
  -- the entry that the request was based on, an index above 0, to that entry.
  pub on_append_reply_lem :
      (q : NodeId)
      → (n.match_index q ≤ (on_append_reply peer args answer n).1.match_index q)
        × ((n.next_index q ≤ (on_append_reply peer args answer n).1.next_index q)
            ⊎ BackedUp n (on_append_reply peer args answer n).1 peer args answer q)
  on_append_reply_lem q = (on_append_reply-match q, on_append_reply-next q)
