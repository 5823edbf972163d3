-- ===== src/Raft/Net/Matched.antt =====
-- What holds of the logs and the requests of a cluster whatever happens.
use fraud_scoring_platform.Raft.Net.Joined.{IsCopied}
use fraud_scoring_platform.Raft.Cluster.Ledger.{Backed}
use fraud_scoring_platform.Raft.Replication.Accept.{IsRequest}
use fraud_scoring_platform.Raft.Log.{last_index, last_term}
use fraud_scoring_platform.Raft.Cluster.Moves.{IsSound}
use fraud_scoring_platform.Raft.Cluster.{Grant}
use fraud_scoring_platform.Raft.Net.Origins.{
  Agree, LedWell, AreChained, Led-IsPast, Led, IsMade, IsPast, IsWhole,
}
use fraud_scoring_platform.Raft.Types.{follower, leader, candidate, AppendEntriesArgs, NodeId}
use fraud_scoring_platform.Raft.Net.{Net, Past}
use fraud_scoring_platform.Raft.Node.{Node}
use fraud_scoring_platform.Raft.Storage.{Storage}
use fraud_scoring_platform.Prelude.{[], ◌≤◌, ◌≢◌, ◌≡◌, Elem, ◌⊎◌, ◌<◌, List}

-- What a node has of a leader of the past that was the same member: it is in a later term, or it
-- leads in that term and has gone on with the log, or it is a follower.
abbrev pub IsBehind : {D : Type 0} → Node D → Node D → Type 0
IsBehind m n =
    (m.current_term < n.current_term)
    ⊎ ((m.current_term ≡ n.current_term)
        × (n.role ≢ candidate)
        × (n.role ≡ leader
            → (last_index m.log ≤ last_index n.log) × Agree n.log m.log (last_index m.log)))

pub record MemberWell {D : Type 0} (past : List (Past D)) (i : NodeId) (n : Node D) : Type 0 where
  pub whole : IsWhole n.log
  pub made : IsMade past n.log
  pub newest : last_term n.log ≤ n.current_term
  pub some_term : n.role ≢ follower → 0 < n.current_term
  pub present : n.role ≡ leader → Elem (record { owner = i; node = n }) past
  pub behind : (m : Node D) → Led past i m → IsBehind m n

-- A request has been made by a leader of its term. Its entries stand in that leader's log behind
-- the entry that it names, or it has none.
pub record RequestWell {D : Type 0} (past : List (Past D)) (args : AppendEntriesArgs) : Type 0 where
  pub node : Node D
  pub led : Led past args.leader_id node
  pub term : node.current_term ≡ args.term
  pub commit : node.commit_index ≡ args.leader_commit
  pub request : IsRequest args
  pub source :
      IsCopied node.log args
      ⊎ ((args.entries ≡ []) × (0 < args.prev_log_index) × (args.prev_log_term ≡ 0))

module _ {D : Type 0} (s : Storage D) (members : List NodeId) where
  pub record LeaderWell (h : List Grant) (past : List (Past D)) (i : NodeId) (n : Node D)
      : Type 0 where
    pub member : Elem i members
    pub backed : Backed members h n.current_term i
    pub well : LedWell past n

  pub record IsMatched (c : Net D) : Type 0 where
    pub sound : IsSound s members c.base
    pub member : (i : NodeId) → Elem i members → MemberWell c.past i (c.base.node i)
    pub leader : (i : NodeId) (n : Node D) → Led c.past i n → LeaderWell c.base.history c.past i n
    pub chained : AreChained c.past
    pub request : (args : AppendEntriesArgs) → Elem args c.requests → RequestWell c.past args

pub RequestWell-IsPast :
    {D : Type 0} (ps qs : List (Past D))
    → IsPast ps qs
    → (args : AppendEntriesArgs) → RequestWell ps args
    → RequestWell qs args
RequestWell-IsPast ps qs sub args r = record {
  node = r.node;
  led = Led-IsPast ps qs sub args.leader_id r.node r.led;
  term = r.term;
  commit = r.commit;
  request = r.request;
  source = r.source;
}
