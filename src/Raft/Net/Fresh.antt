-- ===== src/Raft/Net/Fresh.antt =====
-- What the votes of an election (raft/election.go) know of the entries that were stored before it.
use fraud_scoring_platform.Raft.Cluster.Majority.{IsMajority}
use fraud_scoring_platform.Raft.Replication.Merge.{HasAt, has_at}
use fraud_scoring_platform.Raft.Cluster.{VoteAnswer, Tally}
use fraud_scoring_platform.Raft.Log.{last_term, last_index, RaftLog}
use fraud_scoring_platform.Raft.Net.Origins.{Agree, IsMade, IsWhole, Led}
use fraud_scoring_platform.Raft.Node.{Node}
use fraud_scoring_platform.Raft.Net.{Net, Past}
use fraud_scoring_platform.Raft.Types.{candidate, NodeId}
use fraud_scoring_platform.Prelude.{◌+◌, true, false, All, ◌≤◌, ◌≡◌, Elem, ◌⊎◌, ◌<◌, ℕ, List}

-- A leader of a term above `t` and below `u` has led without the entry of term `t` at `i`.
pub record IsBroken {D : Type 0} (past : List (Past D)) (i t u : ℕ) : Type 0 where
  pub owner : NodeId
  pub node : Node D
  pub led : Led past owner node
  pub above : t < node.current_term
  pub below : node.current_term < u
  pub lacks : has_at node.log i t ≡ false

-- A log that ends in term `last_t` at `last_i` is at least as up to date as one that ends in `t` at `i`.
abbrev pub Covers : (last_t last_i t i : ℕ) → Type 0
Covers last_t last_i t i = (t < last_t) ⊎ ((t ≡ last_t) × (i ≤ last_i))

-- What the member has stored in earlier terms, of those terms, is no more up to date than the log
-- that ends in `last_t` at `last_i`, or was overwritten.
abbrev pub IsFresh : {D : Type 0} → List (Past D) → NodeId → (u top last_t last_i : ℕ) → Type 0
IsFresh {D = D} past v u top last_t last_i =
    (p : Node D)
    → Elem (record { owner = v; node = p }) past
    → p.current_term < u
    → (i : ℕ) → HasAt p.log i p.current_term
    → Covers last_t last_i p.current_term i ⊎ IsBroken past i p.current_term top

-- A vote for a candidate whose log ends in `last_t` at `last_i`, in term `u`.
pub record VoteFresh {D : Type 0} (past : List (Past D)) (f : NodeId → Node D)
    (u top last_t last_i : ℕ) (v : NodeId) : Type 0 where
  pub reached : u ≤ (f v).current_term
  pub fresh : IsFresh past v u top last_t last_i

-- A leader's log goes on from the one that a majority of the members found up to date.
pub record Elected {D : Type 0} (members : List NodeId) (past : List (Past D)) (f : NodeId → Node D)
    (l : RaftLog) (u : ℕ) : Type 0 where
  pub base : RaftLog
  pub whole : IsWhole base
  pub made : IsMade past base
  pub shorter : last_index base ≤ last_index l
  pub agree : Agree l base (last_index base)
  pub older : last_term base < u
  pub voters : List NodeId
  pub majority : IsMajority members voters
  pub votes : All (VoteFresh past f u u (last_term base) (last_index base)) voters

-- What the member stored in earlier states, of their terms, it still has, or it was overwritten.
pub record Remembers {D : Type 0} (past : List (Past D)) (n p : Node D) : Type 0 where
  pub term : p.current_term ≤ n.current_term
  pub kept :
      (i : ℕ)
      → HasAt p.log i p.current_term
      → HasAt n.log i p.current_term ⊎ IsBroken past i p.current_term (n.current_term + 1)

pub record PastWell {D : Type 0} (past : List (Past D)) (p : Node D) : Type 0 where
  pub whole : IsWhole p.log
  pub made : IsMade past p.log

-- A tally's votes are fresh, and its candidate stands with the log that the request names.
pub record TallyFresh {D : Type 0} (past : List (Past D)) (f : NodeId → Node D) (t : Tally)
    : Type 0 where
  pub votes :
      All
        (VoteFresh past f t.args.term (t.args.term + 1) t.args.last_log_term t.args.last_log_index)
        t.voters
  pub reached : t.args.term ≤ (f t.args.candidate_id).current_term
  pub stands :
      (f t.args.candidate_id).current_term ≡ t.args.term
      → (f t.args.candidate_id).role ≡ candidate
      → (last_index (f t.args.candidate_id).log ≡ t.args.last_log_index)
        × (last_term (f t.args.candidate_id).log ≡ t.args.last_log_term)

module _ {D : Type 0} (members : List NodeId) where
  pub record IsComplete (c : Net D) : Type 0 where
    pub past_well :
        (v : NodeId) (p : Node D) → Elem (record { owner = v; node = p }) c.past → PastWell c.past p
    pub remembers :
        (v : NodeId)
        → Elem v members
        → (p : Node D) → Elem (record { owner = v; node = p }) c.past
        → Remembers c.past (c.base.node v) p
    pub tally : (t : Tally) → Elem t c.base.tallies → TallyFresh c.past c.base.node t
    pub answer :
        (a : VoteAnswer)
        → Elem a c.base.answers
        → a.answer.vote_granted ≡ true
        → VoteFresh c.past c.base.node a.args.term
            (a.args.term + 1)
            a.args.last_log_term
            a.args.last_log_index
            a.voter
    pub elected :
        (i : NodeId) (g : Node D)
        → Led c.past i g
        → Elected members c.past c.base.node g.log g.current_term
