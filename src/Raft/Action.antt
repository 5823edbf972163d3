-- ===== src/Raft/Action.antt =====
-- Everything that a node does under its lock, as one type: the ticker, the RPC handlers, the answers
-- to its own RPCs, the leader loop, the calls of the service and the applier.
pub mod Frame
use fraud_scoring_platform.Prelude.{ℕ, ◌+◌, ◌<◌, Bool, List, u64_mod}
use fraud_scoring_platform.Raft.Types.{
  NodeId, Entry, RequestVoteArgs, RequestVoteReply, AppendEntriesArgs, AppendEntriesReply,
}
use fraud_scoring_platform.Raft.Node.{Node, Exec, pure, ◌>>=◌, ◌>>◌}
use fraud_scoring_platform.Raft.Election.{tick, on_vote_reply, handle_request_vote}
use fraud_scoring_platform.Raft.Replication.{
  leader_round, prepare_append, on_append_reply, handle_append_entries,
}
use fraud_scoring_platform.Raft.Service.{propose, start, stop, next_batch, finish_batch}

pub data Action : Type 0 where
  do_tick : (expired : Bool) → Action
  do_vote_reply : RequestVoteArgs → RequestVoteReply → (votes : ℕ) → Action
  do_request_vote : RequestVoteArgs → Action
  do_append_entries : AppendEntriesArgs → Action
  do_leader_round : (term : ℕ) → Action
  do_prepare_append : (peer : NodeId) (term : ℕ) → Action
  do_append_reply : (peer : NodeId) → AppendEntriesArgs → AppendEntriesReply → Action
  do_propose : (command : List ℕ) → Action
  do_next_batch : Action
  do_finish_batch : List Entry → Action
  do_start do_stop : Action

unfoldable pub perform : {D : Type 0} → Action → Exec D Unit
perform (do_tick expired) = tick expired
perform (do_vote_reply args answer votes) = do on_vote_reply args answer votes; pure tt
perform (do_request_vote args) = do handle_request_vote args; pure tt
perform (do_append_entries args) = do handle_append_entries args; pure tt
perform (do_leader_round term) = do leader_round term; pure tt
perform (do_prepare_append peer term) = do prepare_append peer term; pure tt
perform (do_append_reply peer args answer) = on_append_reply peer args answer
perform (do_propose command) = do propose command; pure tt
perform do_next_batch = do next_batch; pure tt
perform (do_finish_batch batch) = finish_batch batch
perform do_start = start
perform do_stop = stop
