-- ===== src/Raft/Service/Tests.antt =====
-- The applier's batch at a concrete node.
use fraud_scoring_platform.Raft.Log
use fraud_scoring_platform.Raft.Tests.{follower_node, entry}
use fraud_scoring_platform.Raft.Log.{entries_from}
use fraud_scoring_platform.Raft.Types.{ok, Entry, PersistentState}
use fraud_scoring_platform.Raft.Service.{finish_batch, next_batch}
use fraud_scoring_platform.Raft.Service.Batch.{next_batch_lem, IsPending, IsApplier}
use fraud_scoring_platform.Raft.Node.{Node}
use fraud_scoring_platform.Prelude.{[], ◌∷◌, some, sub64, ◌≡◌, inc64, List, arith, refl}

-- Entries 2 and 3 are committed and not yet applied.
abbrev lagging : Node PersistentState
lagging = record follower_node { commit_index = 3; last_applied = 1 }

lagging-IsApplier : IsApplier lagging
lagging-IsApplier = record {
  good = omega arith;
  room = omega arith;
  above = omega arith;
  within = omega arith;
  small = omega arith;
}

next_batch_example :
    (es : List Entry) × (next_batch lagging ≡ (ok (some es), lagging))
    × IsPending lagging es
    × ((m : Node PersistentState) → finish_batch es m ≡ (ok tt, record m { last_applied = 3 }))
next_batch_example = next_batch_lem lagging lagging-IsApplier refl (omega arith)

-- The batch of that node.
taken : next_batch lagging ≡ (ok (some (entry 2 1 ∷ entry 3 2 ∷ [])), lagging)
unfolding next_batch entries_from inc64 sub64 Log.log_pos
taken = refl
