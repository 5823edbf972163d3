-- ===== src/Raft/Action/Frame.antt =====
-- What the two loops of raft/replication.go leave alone.
use fraud_scoring_platform.Raft.Types.{nobody, follower, panic, ok, Outcome, save_failed}
use fraud_scoring_platform.Prelude.{
  ltb, ◌≤◌, refl, if◌then◌else◌, max, ℕ, Bool, true, false, ◌≡◌, List, [], ◌∷◌, arith,
}
use fraud_scoring_platform.Raft.Types.{Entry, AppendEntriesArgs}
use fraud_scoring_platform.Raft.Node.{Node, persist}
use fraud_scoring_platform.Raft.Role.{
  is_follower, become_follower, observe_term, advance_commit_index,
}
use fraud_scoring_platform.Raft.Replication.{
  recognise_leader, overwrite, store_entries, accept_entries,
}

-- The two nodes differ at most in their commit index and effects.
pub record SameButCommit {D : Type 0} (n m : Node D) : Type 0 where
  pub id : m.id ≡ n.id
  pub peers : m.peers ≡ n.peers
  pub cfg : m.cfg ≡ n.cfg
  pub storage : m.storage ≡ n.storage
  pub disk : m.disk ≡ n.disk
  pub current_term : m.current_term ≡ n.current_term
  pub voted_for : m.voted_for ≡ n.voted_for
  pub log : m.log ≡ n.log
  pub last_applied : m.last_applied ≡ n.last_applied
  pub next_index : m.next_index ≡ n.next_index
  pub match_index : m.match_index ≡ n.match_index
  pub role : m.role ≡ n.role
  pub leader_id : m.leader_id ≡ n.leader_id
  pub stopped : m.stopped ≡ n.stopped

-- The two nodes differ at most in their log, disk, commit index and effects.
pub record SameButLog {D : Type 0} (n m : Node D) : Type 0 where
  pub id : m.id ≡ n.id
  pub peers : m.peers ≡ n.peers
  pub cfg : m.cfg ≡ n.cfg
  pub storage : m.storage ≡ n.storage
  pub current_term : m.current_term ≡ n.current_term
  pub voted_for : m.voted_for ≡ n.voted_for
  pub last_applied : m.last_applied ≡ n.last_applied
  pub role : m.role ≡ n.role
  pub leader_id : m.leader_id ≡ n.leader_id
  pub stopped : m.stopped ≡ n.stopped

-- The two nodes differ at most in what `becomeFollower` changes: the term, the vote, the role, the
-- leader, the disk and the effects.
pub record SameButTerm {D : Type 0} (n m : Node D) : Type 0 where
  pub id : m.id ≡ n.id
  pub peers : m.peers ≡ n.peers
  pub cfg : m.cfg ≡ n.cfg
  pub storage : m.storage ≡ n.storage
  pub log : m.log ≡ n.log
  pub commit_index : m.commit_index ≡ n.commit_index
  pub last_applied : m.last_applied ≡ n.last_applied
  pub next_index : m.next_index ≡ n.next_index
  pub match_index : m.match_index ≡ n.match_index
  pub stopped : m.stopped ≡ n.stopped

-- No panic but that of a failed save.
abbrev pub OnlySave : {A : Type 0} → Outcome A → Type 0
OnlySave (ok _) = Unit
OnlySave (panic save_failed) = Unit
OnlySave (panic _) = ⊥

module _ {D : Type 0} where
  pub observe_term_frame :
      (n : Node D) (t : ℕ)
      → SameButTerm n (observe_term t n).1
        × ((observe_term t n).1.current_term ≡ max n.current_term t)
        × OnlySave (observe_term t n).0
  unfolding observe_term become_follower persist
  observe_term_frame n t = ground arith

  pub observe_term-voted_for :
      (n : Node D) (t : ℕ)
      → (observe_term t n).1.voted_for ≡ (if ltb n.current_term t then nobody else n.voted_for)
  unfolding observe_term become_follower persist
  observe_term-voted_for n t = ground arith

  pub observe_term-old :
      (n : Node D) (t : ℕ) → t ≤ n.current_term → observe_term t n ≡ (ok false, n)
  unfolding observe_term
  observe_term-old n t h = ground arith

  pub recognise_leader_frame :
      (n : Node D) (args : AppendEntriesArgs)
      → SameButTerm n (recognise_leader args n).1
        × ((recognise_leader args n).1.current_term
            ≡ (if is_follower n.role then n.current_term else max n.current_term args.term))
        × OnlySave (recognise_leader args n).0
        × ((recognise_leader args n).0 ≡ ok tt
            → ((recognise_leader args n).1.role ≡ follower)
              × ((recognise_leader args n).1.leader_id ≡ args.leader_id))
  unfolding recognise_leader become_follower persist
  recognise_leader_frame n args = ground arith

  pub advance_commit_index-SameButCommit : (n : Node D) → SameButCommit n (advance_commit_index n).1
  unfolding advance_commit_index
  advance_commit_index-SameButCommit n = ground arith

  overwrite-SameButLog :
      (n : Node D) (found : Bool) (e : Entry) (es : List Entry)
      → SameButLog n (overwrite found e es n).1
  unfolding overwrite persist
  overwrite-SameButLog n true e es = ground arith
  overwrite-SameButLog n false e es = ground arith

  overwrite-commit_index :
      (n : Node D) (found : Bool) (e : Entry) (es : List Entry)
      → (overwrite found e es n).1.commit_index ≡ n.commit_index
  unfolding overwrite persist
  overwrite-commit_index n true e es = ground arith
  overwrite-commit_index n false e es = ground arith

  pub store_entries-SameButLog :
      (es : List Entry) (n : Node D) → SameButLog n (store_entries es n).1
  unfolding store_entries
  store_entries-SameButLog [] n = ground arith
  store_entries-SameButLog (e ∷ es) n = ground (
    arith,
    store_entries-SameButLog es n,
    overwrite-SameButLog n true e es,
    overwrite-SameButLog n false e es,
  )

  pub accept_entries-SameButLog :
      (n : Node D) (args : AppendEntriesArgs) (t : ℕ) → SameButLog n (accept_entries args t n).1
  unfolding accept_entries
  accept_entries-SameButLog n args t = ground (arith, store_entries-SameButLog args.entries n)

  pub store_entries-commit_index :
      (es : List Entry) (n : Node D) → (store_entries es n).1.commit_index ≡ n.commit_index
  unfolding store_entries
  store_entries-commit_index [] n = refl
  store_entries-commit_index (e ∷ es) n = ground (
    arith,
    store_entries-commit_index es n,
    overwrite-commit_index n true e es,
    overwrite-commit_index n false e es,
  )
