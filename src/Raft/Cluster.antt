-- ===== src/Raft/Cluster.antt =====
-- A cluster of nodes (raft/*.go) over a network that may lose, delay, repeat and reorder messages.
-- Every node saves through the storage `s`. A method that panics is no step. A crash may come at any
-- time between two steps; what restarts is what `New` makes of the disk.
pub mod Majority
pub mod Leads
pub mod Ledger
pub mod Moves
pub mod Sound
pub mod Votes
pub mod Count
pub mod Safety
pub mod Samples
mod Tests
use fraud_scoring_platform.Raft.Durable.{IsRestorable}
use fraud_scoring_platform.Raft.Election.{
  on_vote_reply, handle_request_vote, vote_request, start_election,
}
use fraud_scoring_platform.Raft.Role.{is_leader}
use fraud_scoring_platform.Raft.Vote.{HasTerm}
use fraud_scoring_platform.Raft.Node.{Config, Node}
use fraud_scoring_platform.Raft.Create.{create, others}
use fraud_scoring_platform.Raft.Action.{do_request_vote, do_vote_reply, perform, do_tick, Action}
use fraud_scoring_platform.Raft.Types.{
  reply, follower, ok, RequestVoteReply, NodeId, RequestVoteArgs,
}
use fraud_scoring_platform.Raft.Storage.{Storage}
use fraud_scoring_platform.Prelude.{
  Elem, ◌++◌, inr, some, false, ◌==◌, str_eq, ◌≡◌, if◌then◌else◌, List, ℕ, [], ◌∷◌,
}

-- The goroutines of one election share a counter: `waiting` are the peers that have not answered,
-- `voters` those that the counter counts.
pub record Tally : Type 0 where
  pub args : RequestVoteArgs
  pub waiting : List NodeId
  pub voters : List NodeId
  pub votes : ℕ

-- A reply under way, with the request that it answers.
pub record VoteAnswer : Type 0 where
  pub voter : NodeId
  pub args : RequestVoteArgs
  pub answer : RequestVoteReply

-- A vote that was given.
pub record Grant : Type 0 where
  pub voter : NodeId
  pub term : ℕ
  pub candidate : NodeId

-- Tallies and replies are never taken away: an older tally stays beside the one that follows it,
-- and a reply may arrive again. So the cluster has more runs than the program, not fewer.
-- `history` is no part of the program: it keeps every vote ever given.
pub record Cluster (D : Type 0) : Type 0 where
  pub node : NodeId → Node D
  pub tallies : List Tally
  pub answers : List VoteAnswer
  pub history : List Grant

abbrev pub set_node : {D : Type 0} → (NodeId → Node D) → NodeId → Node D → NodeId → Node D
set_node f i n j = if str_eq j i then n else f j

-- The actions that have no part in counting votes.
abbrev pub IsLocal : Action → Type 0
IsLocal (do_tick _) = ⊥
IsLocal (do_vote_reply _ _ _) = ⊥
IsLocal (do_request_vote _) = ⊥
IsLocal _ = Unit

abbrev pub remove : List NodeId → NodeId → List NodeId
remove ps p = others p ps

-- The vote that a reply gives, if it does.
abbrev pub granted : NodeId → RequestVoteArgs → RequestVoteReply → List Grant
granted i args r =
    if r.vote_granted
    then record { voter = i; term = args.term; candidate = args.candidate_id } ∷ []
    else []

abbrev pub counted : ℕ → ℕ → NodeId → List NodeId → List NodeId
counted before after p voters = if after == before then voters else p ∷ voters

module _ {D : Type 0} (s : Storage D) (members : List NodeId) where
  pub data Step (c : Cluster D) : Cluster D → Type 0 where
    -- any other action of a node, on any message
    act :
        (i : NodeId) (a : Action)
        → Elem i members
        → IsLocal a
        → (perform a (c.node i)).0 ≡ ok tt
        → Step c (record c { node = set_node c.node i (perform a (c.node i)).1 })
    -- a tick behind the deadline
    elect :
        (i : NodeId) (v : ℕ)
        → Elem i members
        → HasTerm (c.node i)
        → (c.node i).stopped ≡ false
        → is_leader (c.node i).role ≡ false
        → (start_election (c.node i)).0 ≡ ok v
        → Step c (record c {
          node = set_node c.node i (start_election (c.node i)).1;
          tallies =
              record {
                args = vote_request (start_election (c.node i)).1;
                waiting = (c.node i).peers;
                voters = i ∷ [];
                votes = v;
              }
              ∷ c.tallies;
          history =
              record { voter = i; term = (start_election (c.node i)).1.current_term; candidate = i }
              ∷ c.history;
        })
    -- a request for a vote reaches a peer
    vote :
        (i : NodeId) (t : Tally) (r : RequestVoteReply)
        → Elem i members
        → Elem t c.tallies
        → (handle_request_vote t.args (c.node i)).0 ≡ ok (reply r)
        → Step c (record c {
          node = set_node c.node i (handle_request_vote t.args (c.node i)).1;
          answers = record { voter = i; args = t.args; answer = r } ∷ c.answers;
          history = granted i t.args r ++ c.history;
        })
    -- the answer of a peer reaches the candidate
    deliver :
        (i : NodeId) (t : Tally) (a : VoteAnswer) (v : ℕ)
        → Elem t c.tallies
        → Elem a c.answers
        → t.args ≡ a.args
        → i ≡ t.args.candidate_id
        → Elem a.voter t.waiting
        → (on_vote_reply t.args a.answer t.votes (c.node i)).0 ≡ ok v
        → Step c (record c {
          node = set_node c.node i (on_vote_reply t.args a.answer t.votes (c.node i)).1;
          tallies =
              record {
                args = t.args;
                waiting = remove t.waiting a.voter;
                voters = counted t.votes v a.voter t.voters;
                votes = v;
              }
              ∷ c.tallies;
        })
    -- a node crashes and restarts
    restart :
        (i : NodeId) (g : Config D) (m : Node D)
        → Elem i members
        → g.id ≡ i
        → g.peers ≡ members
        → g.storage ≡ some (s, (c.node i).disk)
        → create g ≡ inr m
        → Step c (record c { node = set_node c.node i m })

  pub data Steps (c : Cluster D) : Cluster D → Type 0 where
    here : Steps c c
    next : {d e : Cluster D} → Steps c d → Step d e → Steps c e

  -- Nothing has been sent, and every member is a follower that is connected to all others and has the
  -- term, the vote and the log that `create` reads from its disk, be the disk fresh or not.
  pub record IsStart (c : Cluster D) : Type 0 where
    pub no_tallies : c.tallies ≡ []
    pub no_history : c.history ≡ []
    pub no_answers : c.answers ≡ []
    pub named : (i : NodeId) → Elem i members → (c.node i).id ≡ i
    pub connected : (i : NodeId) → Elem i members → (c.node i).peers ≡ others i members
    pub restorable : (i : NodeId) → Elem i members → IsRestorable s (c.node i)
    pub no_leader : (i : NodeId) → Elem i members → (c.node i).role ≡ follower
