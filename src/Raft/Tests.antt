-- ===== src/Raft/Tests.antt =====
-- Runs of the consensus core at concrete inputs, and the instances of its theorems there.
use fraud_scoring_platform.Raft.Newest.{last_index_of_term_lem, IsHighest}
use fraud_scoring_platform.Raft.Valid.{validate_iff, IsValid}
use fraud_scoring_platform.Raft.Election.Grant.{handle_request_vote_lem, VoteAnswered}
use fraud_scoring_platform.Raft.Log.Lookup.{entries_from_lem}
use fraud_scoring_platform.Raft.Log.Edit.{compact_to_lem, truncate_from_lem}
use fraud_scoring_platform.Raft.Log.Order.{IsAtLeast, is_up_to_date_order}
use fraud_scoring_platform.Raft.Create.Restart.{create-restart}
use fraud_scoring_platform.Raft.Create.{check_rest, check_peers, with_defaults, validate, create}
use fraud_scoring_platform.Raft.Role.Commit.{advance_commit_index_lem, IsAdvanced, IsLeaderLog}
use fraud_scoring_platform.Raft.Log.{
  last_index_of_term, last_index, is_up_to_date, compact_to, truncate_from, entries_from,
}
use fraud_scoring_platform.Raft.Durable.{perform-IsDurable, IsDurable}
use fraud_scoring_platform.Raft.Role.{
  count_stored, find_commit, advance_commit_index, become_follower, observe_term,
}
use fraud_scoring_platform.Raft.Replication.{handle_append_entries}
use fraud_scoring_platform.Raft.Log.Shape.{IsLog}
use fraud_scoring_platform.Raft.Vote.{perform-VoteKept, VoteKept}
use fraud_scoring_platform.Raft.Storage.{Storage, IsStorage}
use fraud_scoring_platform.Raft.Replication.Accept.{IsRequest}
use fraud_scoring_platform.Raft.Election.{handle_request_vote}
use fraud_scoring_platform.Raft.Types.{
  leader, reply, ok, follower, PersistentState, AppendEntriesArgs, Entry, RequestVoteArgs,
}
use fraud_scoring_platform.Raft.Node.{quorum, persistent, persist, Node, Config}
use fraud_scoring_platform.Raft.Replication.Handler.{handle_append_entries_lem, Answered}
use fraud_scoring_platform.Raft.Log
use fraud_scoring_platform.Raft.Action.{perform, do_request_vote}
use fraud_scoring_platform.Prelude.{
  ◌↔◌, ◌≤◌, length, ◌≢◌, ◌+◌, get_elem?, ◌==◌, ◌<◌, str_eq, leb, ltb, ◌⊎◌, if◌then◌else◌, ◌≡◌, none,
  some, true, false, inr, arith, List, ℕ, [], ◌∷◌, refl,
}
use fraud_scoring_platform.Prelude.Int.{pos}

-- A device that never fails.
abbrev pub ram : Storage PersistentState
ram = record { save = λ p d. (true, p); load = λ d. some d }

pub ram-IsStorage : IsStorage ram
ram-IsStorage = record { load-save = λ p d h. refl; atomic = λ p d. inr refl }

-- A device that rejects every save.
abbrev pub full : Storage PersistentState
full = record { save = λ p d. (false, d); load = λ d. some d }

abbrev pub entry : ℕ → ℕ → Entry
entry i t = record { index = i; term = t; command = i ∷ [] }

abbrev log_of : List Entry → Log.RaftLog
log_of es = record { first = Log.sentinel 0 0; rest = es }

-- Terms 1, 1, 2.
abbrev pub three : Log.RaftLog
three = log_of (entry 1 1 ∷ entry 2 1 ∷ entry 3 2 ∷ [])

three-IsLog : IsLog three
three-IsLog = omega arith

abbrev pub config : Config PersistentState
config = record {
  id = "a";
  peers = "a" ∷ "b" ∷ "c" ∷ [];
  has_transport = true;
  storage = some (ram, record { current_term = 0; voted_for = ""; entries = [] });
  has_apply_ch = true;
  election_timeout_min = pos 150;
  election_timeout_max = pos 300;
  heartbeat_interval = pos 50;
  rpc_timeout = pos 1000;
  max_entries_per_append = pos 2;
}

-- A follower in term 2, through the given storage.
abbrev pub node_on : Storage PersistentState → Node PersistentState
node_on s = record {
  id = "a";
  peers = "b" ∷ "c" ∷ [];
  cfg = config;
  storage = s;
  disk = record { current_term = 2; voted_for = ""; entries = Log.entries three };
  current_term = 2;
  voted_for = "";
  log = three;
  commit_index = 1;
  last_applied = 0;
  next_index = λ _. 4;
  match_index = λ _. 0;
  role = follower;
  leader_id = "";
  kick_ch = none;
  started = true;
  stopped = false;
  effects = [];
}

abbrev pub follower_node : Node PersistentState
follower_node = node_on ram

abbrev ask : RequestVoteArgs
ask = record { term = 3; candidate_id = "b"; last_log_index = 3; last_log_term = 2 }

ask_granted :
    (handle_request_vote ask follower_node).0
    ≡ ok (reply (record { term = 3; vote_granted = true }))
unfolding handle_request_vote observe_term become_follower persist Log.is_up_to_date
ask_granted = refl

perform-VoteKept_example : VoteKept follower_node (perform (do_request_vote ask) follower_node).1
perform-VoteKept_example = perform-VoteKept (do_request_vote ask) follower_node tt

perform-IsDurable_example : IsDurable ram (perform (do_request_vote ask) follower_node).1
unfolding perform handle_request_vote observe_term become_follower persist Log.is_up_to_date
perform-IsDurable_example =
    perform-IsDurable ram ram-IsStorage (do_request_vote ask) follower_node
      (record { same = refl; synced = refl }) refl

-- Entry 3 of term 2 gives way to the leader's two entries of term 3.
abbrev news : AppendEntriesArgs
news = record {
  term = 3;
  leader_id = "b";
  prev_log_index = 2;
  prev_log_term = 1;
  entries = entry 3 3 ∷ entry 4 3 ∷ [];
  leader_commit = 3;
}

news-IsRequest : IsRequest news
news-IsRequest = omega arith

handle_append_entries_example :
    Answered follower_node news
      (handle_append_entries news follower_node).0
      (handle_append_entries news follower_node).1
handle_append_entries_example =
    handle_append_entries_lem follower_node news three-IsLog (omega arith) news-IsRequest

handle_request_vote_example :
    VoteAnswered follower_node ask
      (handle_request_vote ask follower_node).0
      (handle_request_vote ask follower_node).1
handle_request_vote_example = handle_request_vote_lem follower_node ask

-- Two of three nodes have stored entry 3 of the leader's term.
abbrev pub leader_node : Node PersistentState
leader_node = record follower_node {
  role = leader;
  voted_for = "a";
  match_index = λ p. if str_eq p "b" then 3 else 0;
}

leader_node-IsLeaderLog : IsLeaderLog leader_node
leader_node-IsLeaderLog = record {
  good = three-IsLog;
  room = omega arith;
  committed = omega arith;
  newest = omega arith;
}

leader_commits : (advance_commit_index leader_node).1.commit_index ≡ 3
unfolding advance_commit_index find_commit count_stored quorum Log.log_term Log.log_pos
leader_commits = refl

advance_commit_index_example :
    ((advance_commit_index leader_node).0 ≡ ok tt)
    × IsAdvanced leader_node (advance_commit_index leader_node).1.commit_index
advance_commit_index_example =
    advance_commit_index_lem leader_node leader_node-IsLeaderLog (omega arith)

abbrev pub restart_config : Config PersistentState
restart_config = record config { storage = some (ram, follower_node.disk) }

pub restart_config_valid : validate (with_defaults restart_config) ≡ none
unfolding validate with_defaults check_peers check_rest
restart_config_valid = refl

create-restart_example :
    (m : Node PersistentState) × (create restart_config ≡ inr m)
    × (persistent m ≡ persistent follower_node)
    × (m.role ≡ follower)
    × IsDurable ram m
create-restart_example =
    create-restart ram follower_node restart_config (record { same = refl; synced = refl })
      three-IsLog (omega arith) refl restart_config_valid

is_up_to_date_order_example :
    ((is_up_to_date three 1 1 ≡ true) ↔ IsAtLeast three 1 1)
    × ((is_up_to_date three 1 1 ≡ true) ⊎ (is_up_to_date (log_of (entry 1 1 ∷ [])) 2 3 ≡ true))
    × (is_up_to_date three 1 1 ≡ true
        → is_up_to_date (log_of (entry 1 1 ∷ [])) 0 0 ≡ true
        → is_up_to_date three 0 0 ≡ true)
    × (is_up_to_date three 1 1 ≡ true
        → is_up_to_date (log_of (entry 1 1 ∷ [])) 2 3 ≡ true
        → (◌≡◌ {A = ℕ} 2 1) × (◌≡◌ {A = ℕ} 3 1))
is_up_to_date_order_example = is_up_to_date_order three (log_of (entry 1 1 ∷ [])) (log_of [])

entries_from_example :
    (es : List Entry) × (entries_from three 2 1 ≡ ok es)
    × ((d : ℕ) → ◌⊎◌ (◌≡◌ {A = ℕ} 1 0) (d < 1) → get_elem? es d ≡ Log.Shape.view three (2 + d))
    × (◌≢◌ {A = ℕ} 1 0 → length es ≤ 1)
entries_from_example = entries_from_lem three three-IsLog (omega arith) 2 1 (omega arith)

truncate_from_example :
    (l : Log.RaftLog) × (truncate_from three 2 ≡ ok l)
    × IsLog l
    × ((j : ℕ) → Log.Shape.view l j ≡ (if ltb j 2 then Log.Shape.view three j else none))
truncate_from_example = truncate_from_lem three three-IsLog (omega arith) 2 (omega arith)

three_term : Log.log_term three 2 ≡ ok (1, true)
unfolding Log.log_term Log.log_pos
three_term = refl

compact_to_example :
    (l : Log.RaftLog) × (compact_to three 2 1 ≡ ok l)
    × IsLog l
    × (last_index l ≡ 3)
    × ((j : ℕ)
        → Log.Shape.view l j ≡ (
            if leb j 2
            then if j == 2 then some (Log.sentinel 2 1) else none
            else Log.Shape.view three j))
compact_to_example = compact_to_lem three three-IsLog (omega arith) 2 1 three_term

validate_iff_example :
    (validate (with_defaults restart_config) ≡ none) ↔ IsValid (with_defaults restart_config)
validate_iff_example = validate_iff (with_defaults restart_config)

last_index_of_term_example : IsHighest 1 three.rest (last_index_of_term three 1)
last_index_of_term_example = last_index_of_term_lem three 1 three-IsLog
