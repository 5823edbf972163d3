-- ===== src/Raft/Net/Progress.antt =====
-- What each action of a node (raft/*.go) does to its commit index and to a leader's record of its
-- peers.
use fraud_scoring_platform.Raft.Action.Frame.{
  observe_term_frame, advance_commit_index-SameButCommit,
}
use fraud_scoring_platform.Raft.Role.{advance_commit_index}
use fraud_scoring_platform.Raft.Log.{last_index, last_term}
use fraud_scoring_platform.Raft.Net.Growth.{observe_term-log, LogMerged}
use fraud_scoring_platform.Raft.Log.Shape.{HasRoom}
use fraud_scoring_platform.Raft.Net.Origins.{IsWhole}
use fraud_scoring_platform.Raft.Replication.Progress.{frames, recorded}
use fraud_scoring_platform.Raft.Replication.{on_append_reply}
use fraud_scoring_platform.Raft.Net.Advance.{Finished-commit, Finished, CommitMove, MatchKept}
use fraud_scoring_platform.Raft.Types.{
  Entry, ok, AppendEntriesReply, leader, AppendEntriesArgs, NodeId,
}
use fraud_scoring_platform.Raft.Node.{Node}
use fraud_scoring_platform.Raft.Net.{Net}
use fraud_scoring_platform.Prelude.{
  ap, eq_iff, ◌+◌, ◌≤◌, length, sym, min, add64, subst, max, true, inr, Elem, inl, ◌⊎◌, ◌≡◌, arith,
}

-- The leader has counted the answer of peer `q` to a request of its own.
pub record HasCounted {D : Type 0} (c : Net D) (i : NodeId) (n m : Node D) (q : NodeId)
    : Type 0 where
  pub args : AppendEntriesArgs
  pub answer : AppendEntriesReply
  pub sent : Elem (record { peer = q; args = args; answer = answer }) c.replies
  pub mine : i ≡ args.leader_id
  pub success : answer.success ≡ true
  pub term : n.current_term ≡ args.term
  pub counted : m.match_index q ≡ add64 args.prev_log_index (length args.entries)

-- What a leader knows of its peers: what it knew, nothing, or what a peer has answered.
abbrev pub MatchStep : {D : Type 0} → Net D → NodeId → Node D → Node D → Type 0
MatchStep c i n m =
    m.role ≡ leader
    → (q : NodeId)
    → (m.match_index q ≡ 0)
      ⊎ ((n.role ≡ leader)
          × (m.current_term ≡ n.current_term)
          × ((m.match_index q ≡ n.match_index q) ⊎ HasCounted c i n m q))

-- A follower commits to what the leader has, as far as it has just stored it.
abbrev pub CommitStep : {D : Type 0} → Net D → Node D → Node D → Type 0
CommitStep c n m =
    CommitMove n m
    ⊎ ((args : AppendEntriesArgs) × Elem args c.requests
        × LogMerged n m args
        × (m.commit_index
            ≡ max n.commit_index
                (min args.leader_commit (args.prev_log_index + length args.entries))))

module _ {D : Type 0} (c : Net D) (i : NodeId) (n : Node D) where
  pub MatchKept-MatchStep : (m : Node D) → MatchKept n m → MatchStep c i n m
  MatchKept-MatchStep m k r q = elim (k r q) [
    | inl (led, term, same) ↦ inr (led, term, inl same)
    | inr none_known ↦ inl none_known
  ]

  module _ (peer : NodeId) (args : AppendEntriesArgs) (answer : AppendEntriesReply) where
    abbrev counted_on : Node D
    counted_on = recorded peer args answer n

    reply-shape :
        (on_append_reply peer args answer n).0 ≡ ok tt
        → (Finished (advance_commit_index counted_on).1 (on_append_reply peer args answer n).1
            × ((on_append_reply peer args answer n).1.role ≡ leader))
          ⊎ ((on_append_reply peer args answer n).1.commit_index ≡ n.commit_index)
    unfolding on_append_reply
    reply-shape done =
        ground
          (arith, advance_commit_index-SameButCommit counted_on, observe_term_frame n answer.term)

    pub reply-commit :
        IsWhole n.log
        → HasRoom n.log
        → last_term n.log ≤ n.current_term
        → n.commit_index ≤ last_index n.log
        → (on_append_reply peer args answer n).0 ≡ ok tt
        → CommitMove n (on_append_reply peer args answer n).1
    reply-commit w room newest within done = elim (reply-shape done) [
      | inr same ↦ inl same
      | inl (f, r) ↦
          let (frame, term, _) = observe_term_frame n answer.term in
          let whole = subst IsWhole (sym frame.log) w in
          Finished-commit n counted_on (on_append_reply peer args answer n).1
            (record {
              good = whole.good;
              room = subst HasRoom (sym frame.log) room;
              committed = omega (arith, ap (λ (y : Entry). y.index) whole.rooted);
              newest = omega (arith, ap last_term frame.log, newest, term);
            })
            (omega (arith, ap last_index frame.log, within, frame.commit_index)) frame.commit_index
            r (inl f)
    ]

    reply-match :
        (on_append_reply peer args answer n).0 ≡ ok tt
        → (on_append_reply peer args answer n).1.role ≡ leader
        → (q : NodeId)
        → (n.role ≡ leader)
          × ((on_append_reply peer args answer n).1.current_term ≡ n.current_term)
          × (((on_append_reply peer args answer n).1.match_index q ≡ n.match_index q)
              ⊎ ((q ≡ peer)
                  × (answer.success ≡ true)
                  × (n.current_term ≡ args.term)
                  × ((on_append_reply peer args answer n).1.match_index q
                      ≡ add64 args.prev_log_index (length args.entries))))
    unfolding on_append_reply
    reply-match done r q = ground (
      arith,
      frames peer args answer n q,
      eq_iff q peer,
      ap n.match_index {x = q} {y = peer},
      observe_term-log n answer.term,
      advance_commit_index-SameButCommit counted_on,
    )

    pub reply-MatchStep :
        (on_append_reply peer args answer n).0 ≡ ok tt
        → Elem (record { peer = peer; args = args; answer = answer }) c.replies
        → i ≡ args.leader_id
        → MatchStep c i n (on_append_reply peer args answer n).1
    reply-MatchStep done sent mine r q =
        let (led, term, cases) = reply-match done r q in
        inr (
          led,
          term,
          elim cases [
            | inl same ↦ inl same
            | inr (own, success, at, counted) ↦ inr (record {
              args = args;
              answer = answer;
              sent =
                  subst (λ p. Elem (record { peer = p; args = args; answer = answer }) c.replies)
                    (sym own) sent;
              mine = mine;
              success = success;
              term = at;
              counted = counted;
            })
          ],
        )
