-- ===== src/Raft/Net.antt =====
-- The cluster of Cluster.antt with the messages that replicate the log (`replicateTo` of
-- raft/replication.go). A node handles only requests that some member has made, be it late, often,
-- out of order or at another node than the one meant; a leader handles only replies to its own
-- requests, be it late or often.
pub mod Growth
pub mod Origins
pub mod Added
pub mod Joined
pub mod Matched
pub mod Moves
pub mod Merging
pub mod Stepped
pub mod Sent
pub mod Matching
pub mod Fresh
pub mod Complete
pub mod Remember
pub mod Onward
pub mod Won
pub mod Elections
pub mod Counted
pub mod Safety
pub mod Advance
pub mod Progress
pub mod Acts
pub mod Wins
pub mod Committed
pub mod Storers
pub mod Replicate
pub mod Replies
pub mod Commit
pub mod Agreement
pub mod Delivery
pub mod Samples
mod Tests
use fraud_scoring_platform.Raft.Election.{on_vote_reply, handle_request_vote, start_election}
use fraud_scoring_platform.Raft.Log.Shape.{HasRoom}
use fraud_scoring_platform.Raft.Replication.{prepare_append, handle_append_entries}
use fraud_scoring_platform.Raft.Node.{Node}
use fraud_scoring_platform.Raft.Action.{perform, do_append_reply, do_append_entries, Action}
use fraud_scoring_platform.Raft.Types.{
  reply, ok, Answer, AppendEntriesReply, Outcome, AppendEntriesArgs, NodeId,
}
use fraud_scoring_platform.Raft.Storage.{Storage}
use fraud_scoring_platform.Raft.Cluster.{restart, deliver, vote, elect, act, Step, IsStart, Cluster}
use fraud_scoring_platform.Raft.Log
use fraud_scoring_platform.Prelude.{some, ℕ, ◌∷◌, [], ◌≡◌, ◌++◌, Elem, List, arith, refl}

-- The reply of a peer under way, with the request that it answers.
pub record AppendAnswer : Type 0 where
  pub peer : NodeId
  pub args : AppendEntriesArgs
  pub answer : AppendEntriesReply

-- A member after one of its steps.
pub record Past (D : Type 0) : Type 0 where
  pub owner : NodeId
  pub node : Node D

-- Messages are never taken away: one may arrive again. `past` is no part of the program: it keeps
-- what every member has been after each of its steps.
pub record Net (D : Type 0) : Type 0 where
  pub base : Cluster D
  pub requests : List AppendEntriesArgs
  pub replies : List AppendAnswer
  pub past : List (Past D)

-- What node `i` is given has been sent, and to it if it is an answer.
abbrev pub IsSent : {D : Type 0} → Net D → NodeId → Action → Type 0
IsSent c i (do_append_entries args) = Elem args c.requests
IsSent c i (do_append_reply peer args answer) =
    Elem (record { peer = peer; args = args; answer = answer }) c.replies × (i ≡ args.leader_id)
IsSent c i _ = Unit

-- The reply that a call of `handle_append_entries` sends, if any.
abbrev pub answer_of :
    NodeId → AppendEntriesArgs → Outcome (Answer AppendEntriesReply) → List AppendAnswer
answer_of i args (ok (reply r)) = record { peer = i; args = args; answer = r } ∷ []
answer_of i args _ = []

abbrev pub replied : {D : Type 0} → NodeId → Action → Node D → List AppendAnswer
replied i (do_append_entries args) n = answer_of i args (handle_append_entries args n).0
replied i _ n = []

module _ {D : Type 0} (s : Storage D) (members : List NodeId) where
  -- The member that moves.
  abbrev pub mover : (c d : Cluster D) → Step s members c d → NodeId
  mover c _ (act i a at l done) = i
  mover c _ (elect i v at room up idle done) = i
  mover c _ (vote i t r at known done) = i
  mover c _ (deliver i t a v known sent same mine waits done) = i
  mover c _ (restart i g m at name all disk made) = i

  -- What it has become.
  abbrev pub moved_to : (c d : Cluster D) → Step s members c d → Node D
  moved_to c _ (act i a at l done) = (perform a (c.node i)).1
  moved_to c _ (elect i v at room up idle done) = (start_election (c.node i)).1
  moved_to c _ (vote i t r at known done) = (handle_request_vote t.args (c.node i)).1
  moved_to c _ (deliver i t a v known sent same mine waits done) =
      (on_vote_reply t.args a.answer t.votes (c.node i)).1
  moved_to c _ (restart i g m at name all disk made) = m

  abbrev pub IsHonest : (c : Net D) (d : Cluster D) → Step s members c.base d → Type 0
  IsHonest c _ (act i a at l done) = IsSent c i a
  IsHonest c _ _ = Unit

  abbrev pub step_replies : (c d : Cluster D) → Step s members c d → List AppendAnswer
  step_replies c _ (act i a at l done) = replied i a (c.node i)
  step_replies c _ _ = []

  -- No log of a member is so long that its next index is no uint64.
  abbrev pub HaveRoom : Cluster D → Type 0
  HaveRoom c = (i : NodeId) → Elem i members → HasRoom (c.node i).log

  pub data NetStep (c : Net D) : Net D → Type 0 where
    -- a step of the cluster
    step :
        (d : Cluster D) (st : Step s members c.base d)
        → HaveRoom c.base
        → HaveRoom d
        → IsHonest c d st
        → NetStep c (record {
          base = d;
          requests = c.requests;
          replies = step_replies c.base d st ++ c.replies;
          past = record { owner = mover c.base d st; node = moved_to c.base d st } ∷ c.past;
        })
    -- a member makes a request, which leaves the member as it is
    send :
        (i peer : NodeId) (t : ℕ) (args : AppendEntriesArgs)
        → Elem i members
        → HaveRoom c.base
        → (prepare_append peer t (c.base.node i)).0 ≡ ok (some args)
        → NetStep c (record c { requests = args ∷ c.requests })

  pub data NetSteps (c : Net D) : Net D → Type 0 where
    here : NetSteps c c
    next : {d e : Net D} → NetSteps c d → NetStep d e → NetSteps c e

  -- Nothing has been sent, every log is empty, and nothing is committed.
  pub record IsNetStart (c : Net D) : Type 0 where
    pub start : IsStart s members c.base
    pub no_requests : c.requests ≡ []
    pub no_replies : c.replies ≡ []
    pub no_past : c.past ≡ []
    pub empty : (i : NodeId) → Elem i members → (c.base.node i).log ≡ Log.new_raft_log
    pub uncommitted : (i : NodeId) → Elem i members → (c.base.node i).commit_index ≡ 0
