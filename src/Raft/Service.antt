-- ===== src/Raft/Service.antt =====
-- What the service sees of a node: `Propose`, `Status`, `Start`, `Stop` and `kick` of raft/node.go,
-- and raft/apply.go. `applier` delivers a batch without the lock: the two parts of it that hold the
-- lock are `next_batch` and `finish_batch`.
pub mod Batch
mod Tests
use fraud_scoring_platform.Prelude.{
  ℕ, ◌^◌, Bool, true, false, not, ◌||◌, Option, none, some, List, [], ◌∷◌, map, ltb, leb,
  if◌then◌else◌, inc64, sub64,
}
use fraud_scoring_platform.Raft.Types.{
  Entry, ApplyMsg, Status, broadcast, run_ticker, run_applier, Answer, reply, refuse, not_leader,
  stopped, empty_command, panic, out_of_range,
}
use fraud_scoring_platform.Raft.Log.{last_index, last_entry, entries_from}
use fraud_scoring_platform.Raft.Node.{
  Node, Exec, pure, lift, get, modify, emit, spawn, reset_election_timer, persist, ◌>>=◌, ◌>>◌,
}
use fraud_scoring_platform.Raft.Role.{is_leader, append_entry, advance_commit_index}

-- A send that does not block: on a nil channel nothing happens, a full slot stays full.
abbrev pub kicked : Option Bool → Option Bool
kicked none = none
kicked (some _) = some true

-- `int(x)` as a limit: `entries_from` treats a negative limit like 0.
abbrev pub limit_of : ℕ → ℕ
limit_of x = if ltb x (2 ^ 63) then x else 0

abbrev pub is_nil : List ℕ → Bool
is_nil [] = true
is_nil (_ ∷ _) = false

abbrev pub apply_msg : Entry → ApplyMsg
apply_msg e = record { index = e.index; term = e.term; command = e.command }

module _ {D : Type 0} where
  abbrev pub kick : Exec D Unit
  kick = modify (λ n. record n { kick_ch = kicked n.kick_ch })

  -- The index and the term of the new entry.
  unfoldable pub propose : List ℕ → Exec D (Answer (ℕ × ℕ))
  propose command = do
    n ← get
    if n.stopped
        then pure (refuse stopped)
        else if not (is_leader n.role)
        then pure (refuse not_leader)
        else if is_nil command
        then pure (refuse empty_command)
        else do
          append_entry command
          persist
          advance_commit_index
          kick
          m ← get
          pure (reply (inc64 (last_index n.log), m.current_term))

  unfoldable pub status : Node D → Status
  status n = record {
    id = n.id;
    role = n.role;
    term = n.current_term;
    leader_id = n.leader_id;
    commit_index = n.commit_index;
    last_applied = n.last_applied;
    last_log_index = last_index n.log;
  }

  unfoldable pub start : Exec D Unit
  start = do
    n ← get
    if n.started || n.stopped then pure tt else do
      modify (λ m. record m { started = true })
      reset_election_timer
      spawn run_ticker
      spawn run_applier

  -- `Stop` up to the point where it waits for the goroutines.
  unfoldable pub stop : Exec D Unit
  stop = do
    n ← get
    if n.stopped then pure tt else do modify (λ m. record m { stopped = true }); emit broadcast

  -- What the applier takes when it holds the lock; none while it has to wait, or must end.
  unfoldable pub next_batch : Exec D (Option (List Entry))
  next_batch = do
    n ← get
    if n.stopped || leb n.commit_index n.last_applied then pure none else do
      batch ← lift (
          entries_from n.log (inc64 n.last_applied)
            (limit_of (sub64 n.commit_index n.last_applied)))
      pure (some batch)

  -- `n.lastApplied = batch[len(batch)-1].Index`, once every message of the batch is sent.
  unfoldable pub finish_batch : List Entry → Exec D Unit
  finish_batch [] = lift (panic out_of_range)
  finish_batch (e ∷ es) = modify (λ n. record n { last_applied = (last_entry e es).index })

-- The messages that a batch becomes.
abbrev pub messages : List Entry → List ApplyMsg
messages = map apply_msg
