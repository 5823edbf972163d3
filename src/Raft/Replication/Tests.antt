-- ===== src/Raft/Replication/Tests.antt =====
-- Answers to a leader, and a follower whose storage fails and whose process outlives the panic.
use fraud_scoring_platform.Raft.Replication.Progress.{on_append_reply_lem, BackedUp}
use fraud_scoring_platform.Raft.Tests.{leader_node}
use fraud_scoring_platform.Raft.Log.{truncate_from}
use fraud_scoring_platform.Raft.Types.{AppendEntriesReply, reply, ok, AppendEntriesArgs}
use fraud_scoring_platform.Raft.Log
use fraud_scoring_platform.Raft.Tests.{full, node_on, entry, three}
use fraud_scoring_platform.Raft.Replication.{
  on_append_reply, handle_append_entries, recognise_leader, accept_entries, store_entries,
  overwrite,
}
use fraud_scoring_platform.Raft.Node.{persist}
use fraud_scoring_platform.Raft.Role.{observe_term}
use fraud_scoring_platform.Prelude.{◌⊎◌, inc64, false, ◌≤◌, true, [], ◌∷◌, ◌≡◌, refl, add64}

abbrev retried : AppendEntriesArgs
retried = record {
  term = 2;
  leader_id = "b";
  prev_log_index = 3;
  prev_log_term = 2;
  entries = entry 4 2 ∷ [];
  leader_commit = 3;
}

-- A node that survives the panic of a failed save acknowledges, on the next try, an entry that is
-- not on its disk.
retry_acknowledged :
    ((handle_append_entries retried (handle_append_entries retried (node_on full)).1).0
      ≡ ok (reply (record { term = 2; success = true })))
    × ((handle_append_entries retried
          (handle_append_entries retried (node_on full)).1).1.disk.entries
        ≡ Log.entries three)
unfolding handle_append_entries observe_term recognise_leader accept_entries Log.matches
    store_entries overwrite persist Log.append add64 Log.log_term Log.log_pos truncate_from
retry_acknowledged = (refl, refl)

-- A refused request behind entry 3: the leader tries entry 3 again.
abbrev refused_append : AppendEntriesArgs
refused_append = record {
  term = 2;
  leader_id = "a";
  prev_log_index = 3;
  prev_log_term = 2;
  entries = [];
  leader_commit = 1;
}

abbrev refusal : AppendEntriesReply
refusal = record { term = 2; success = false }

backs_up : (on_append_reply "c" refused_append refusal leader_node).1.next_index "c" ≡ 3
unfolding on_append_reply observe_term inc64
backs_up = refl

on_append_reply_example :
    (leader_node.match_index "c"
      ≤ (on_append_reply "c" refused_append refusal leader_node).1.match_index "c")
    × ((leader_node.next_index "c"
          ≤ (on_append_reply "c" refused_append refusal leader_node).1.next_index "c")
        ⊎ BackedUp leader_node
            (on_append_reply "c" refused_append refusal leader_node).1
            "c"
            refused_append
            refusal
            "c")
on_append_reply_example = on_append_reply_lem "c" refused_append refusal leader_node "c"
