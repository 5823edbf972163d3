-- ===== src/Raft/Types.antt =====
-- The data of the consensus core: raft/message.go, `Entry` of raft/log.go, `Role` of raft/role.go,
-- `ApplyMsg`, `Status` and the errors of raft/node.go, `PersistentState` of raft/persist.go.
use fraud_scoring_platform.Prelude.{ℕ, String, List, Bool}

-- "" means nobody.
abbrev pub NodeId : Type 0
NodeId = String

abbrev pub nobody : NodeId
nobody = ""

pub record Entry : Type 0 where
  pub index : ℕ
  pub term : ℕ
  pub command : List ℕ

pub data Role : Type 0 where
  follower candidate leader : Role

pub record RequestVoteArgs : Type 0 where
  pub term : ℕ
  pub candidate_id : NodeId
  pub last_log_index : ℕ
  pub last_log_term : ℕ

pub record RequestVoteReply : Type 0 where
  pub term : ℕ
  pub vote_granted : Bool

pub record AppendEntriesArgs : Type 0 where
  pub term : ℕ
  pub leader_id : NodeId
  pub prev_log_index : ℕ
  pub prev_log_term : ℕ
  pub entries : List Entry
  pub leader_commit : ℕ

pub record AppendEntriesReply : Type 0 where
  pub term : ℕ
  pub success : Bool

pub record ApplyMsg : Type 0 where
  pub index : ℕ
  pub term : ℕ
  pub command : List ℕ

pub record Status : Type 0 where
  pub id : NodeId
  pub role : Role
  pub term : ℕ
  pub leader_id : NodeId
  pub commit_index : ℕ
  pub last_applied : ℕ
  pub last_log_index : ℕ

pub record PersistentState : Type 0 where
  pub current_term : ℕ
  pub voted_for : NodeId
  pub entries : List Entry

-- Errors that a method returns.
pub data NodeError : Type 0 where
  not_leader stopped empty_command : NodeError

-- Why a method panics: the two panics of raft/log.go, that of `persist`, and the runtime's on an
-- index or a slice bound that is out of range.
pub data Panic : Type 0 where
  compacted_read compacted_truncate save_failed out_of_range : Panic

pub data Outcome {ℓ} (A : Type ℓ) : Type ℓ where
  ok : A → Outcome A
  panic : Panic → Outcome A

-- What an RPC handler or `Propose` returns: a result, or an error of the node.
pub data Answer {ℓ} (A : Type ℓ) : Type ℓ where
  reply : A → Answer A
  refuse : NodeError → Answer A

-- What a method asks of its surroundings, in order: a new election deadline
-- (`resetElectionTimer`), a wake-up of the applier (`applyCond.Broadcast`) and goroutines (`spawn`).
pub data Effect : Type 0 where
  reset_timer broadcast : Effect
  run_ticker run_applier : Effect
  run_leader_loop : (term : ℕ) → Effect
  run_request_vote : (peer : NodeId) → RequestVoteArgs → Effect
  run_replicate : (peer : NodeId) (term : ℕ) → Effect
