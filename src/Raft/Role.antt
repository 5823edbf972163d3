-- ===== src/Raft/Role.antt =====
-- raft/role.go, and `advanceCommitIndex` of raft/replication.go.
pub mod Majority
pub mod Commit
use fraud_scoring_platform.Prelude.{
  ℕ, zero, suc, ◌+◌, ◌-◌, Bool, true, false, not, Option, none, some, List, [], ◌∷◌, ltb, leb, ◌==◌,
  if◌then◌else◌, inc64,
}
use fraud_scoring_platform.Raft.Types.{
  NodeId, nobody, Entry, Role, follower, candidate, leader, Effect, broadcast, run_leader_loop,
  Outcome, ok, panic,
}
use fraud_scoring_platform.Raft.Log
use fraud_scoring_platform.Raft.Log.{last_index, log_term}
use fraud_scoring_platform.Raft.Node.{
  Node, Exec, pure, lift, get, modify, when, emit, spawn, reset_election_timer, persist, quorum,
  update, ◌>>=◌, ◌>>◌, continue,
}

abbrev pub is_leader : Role → Bool
is_leader leader = true
is_leader _ = false

abbrev pub is_follower : Role → Bool
is_follower follower = true
is_follower _ = false

abbrev pub is_candidate : Role → Bool
is_candidate candidate = true
is_candidate _ = false

-- The loop that fills a fresh map with the same value for each peer.
unfoldable pub fill : ℕ → List NodeId → (NodeId → ℕ) → NodeId → ℕ
fill v [] m = m
fill v (p ∷ ps) m = fill v ps (update m p v)

-- How many of the peers have stored the entry of index `i`.
unfoldable pub count_stored : (NodeId → ℕ) → ℕ → List NodeId → ℕ
count_stored match_index i [] = 0
count_stored match_index i (p ∷ ps) =
    if leb i (match_index p)
    then suc (count_stored match_index i ps)
    else count_stored match_index i ps

module _ {D : Type 0} where
  -- The loop of `advanceCommitIndex` from the index `commit_index + k` down.
  unfoldable pub find_commit : Node D → ℕ → Outcome (Option ℕ)
  find_commit n zero = ok none
  find_commit n (suc k) =
      let rest = find_commit n k in
      elim (log_term n.log (n.commit_index + suc k)) [
        | panic p ↦ panic p
        | ok (t, _) ↦
            if not (t == n.current_term)
            then ok none
            else if leb (quorum n) (1 + count_stored n.match_index (n.commit_index + suc k) n.peers)
            then ok (some (n.commit_index + suc k))
            else rest
      ]

  abbrev set_commit : Option ℕ → Exec D Unit
  set_commit none = pure tt
  set_commit (some i) = do modify (λ n. record n { commit_index = i }); emit broadcast

  unfoldable pub advance_commit_index : Exec D Unit
  advance_commit_index = do
    n ← get
    found ← lift (find_commit n (last_index n.log - n.commit_index))
    set_commit found

  unfoldable pub become_follower : ℕ → Exec D Unit
  become_follower term = do
    n ← get
    when (ltb n.current_term term) (do
      modify (λ m. record m { current_term = term; voted_for = nobody; leader_id = nobody })
      persist)
    modify (λ m. record m { role = follower })
    when (is_leader n.role) reset_election_timer

  -- Whether the term was newer than ours.
  unfoldable pub observe_term : ℕ → Exec D Bool
  observe_term term = do
    n ← get
    if leb term n.current_term then pure false else do become_follower term; pure true

  unfoldable pub become_candidate : Exec D Unit
  become_candidate = do
    modify (λ n. record n {
      role = candidate;
      current_term = inc64 n.current_term;
      voted_for = n.id;
      leader_id = nobody;
    })
    persist
    reset_election_timer

  -- `Entry{Index: n.log.lastIndex() + 1, Term: n.currentTerm, Command: command}`
  abbrev pub next_entry : Node D → List ℕ → Entry
  next_entry n command = record {
    index = inc64 (last_index n.log);
    term = n.current_term;
    command = command;
  }

  abbrev pub append_entry : List ℕ → Exec D Unit
  append_entry command =
      modify (λ n. record n { log = Log.append n.log (next_entry n command ∷ []) })

  unfoldable pub become_leader : Exec D Unit
  become_leader = do
    modify (λ n. record n {
      role = leader;
      leader_id = n.id;
      next_index = fill (inc64 (last_index n.log)) n.peers (λ _. 0);
      match_index = fill 0 n.peers (λ _. 0);
    })
    append_entry []
    persist
    advance_commit_index
    modify (λ n. record n { kick_ch = some false })
    n ← get
    spawn (run_leader_loop n.current_term)
