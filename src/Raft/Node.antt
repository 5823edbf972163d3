-- ===== src/Raft/Node.antt =====
-- `Node` of raft/node.go, and its methods as actions on it: what the node's lock protects is the
-- state, and an action is what a goroutine does between taking and releasing the lock. What was
-- written before a panic stays written, so the node comes back beside the panic too.
-- The transport, the channels and the logger are not part of the state.
use fraud_scoring_platform.Prelude.{
  refl, ◌≡◌, ◌≡◌, ℕ, ◌+◌, ◌/◌, Bool, true, false, Option, List, [], ◌∷◌, ◌++◌, length, str_eq,
  if◌then◌else◌,
}
use fraud_scoring_platform.Prelude.Int.{ℤ}
use fraud_scoring_platform.Raft.Types.{
  NodeId, Role, PersistentState, Effect, reset_timer, Outcome, ok, panic, save_failed,
}
use fraud_scoring_platform.Raft.Log
use fraud_scoring_platform.Raft.Log.{RaftLog}
use fraud_scoring_platform.Raft.Storage.{Storage}

-- `Config`; a Boolean says whether an interface or channel was given, durations are nanoseconds.
pub record Config (D : Type 0) : Type 0 where
  pub id : NodeId
  pub peers : List NodeId
  pub has_transport : Bool
  pub storage : Option (Storage D × D)
  pub has_apply_ch : Bool
  pub election_timeout_min : ℤ
  pub election_timeout_max : ℤ
  pub heartbeat_interval : ℤ
  pub rpc_timeout : ℤ
  pub max_entries_per_append : ℤ

pub record Node (D : Type 0) : Type 0 where
  pub id : NodeId
  pub peers : List NodeId
  pub cfg : Config D
  pub storage : Storage D
  -- what the storage device holds
  pub disk : D
  pub current_term : ℕ
  pub voted_for : NodeId
  pub log : RaftLog
  pub commit_index : ℕ
  pub last_applied : ℕ
  -- maps that are only read at a key: a missing key reads as 0
  pub next_index : NodeId → ℕ
  pub match_index : NodeId → ℕ
  pub role : Role
  pub leader_id : NodeId
  -- none is the nil channel; otherwise whether its one slot is taken
  pub kick_ch : Option Bool
  pub started : Bool
  pub stopped : Bool
  pub effects : List Effect

abbrev pub Exec : Type 0 → Type 0 → Type 0
Exec D A = Node D → Outcome A × Node D

module _ {D A : Type 0} where
  abbrev pub pure : A → Exec D A
  pure a n = (ok a, n)

  abbrev pub lift : Outcome A → Exec D A
  lift o n = (o, n)

module _ {D A B : Type 0} where
  abbrev pub continue : Outcome A → (A → Exec D B) → Exec D B
  continue (ok a) f n = f a n
  continue (panic p) f n = (panic p, n)

  infixl 5 ◌>>=◌ ◌>>◌
  abbrev pub ◌>>=◌ : Exec D A → (A → Exec D B) → Exec D B
  ◌>>=◌ m f n = continue (m n).0 f (m n).1

  abbrev pub ◌>>◌ : Exec D A → Exec D B → Exec D B
  m >> k = m >>= λ _. k

abbrev pub saved : Bool → Outcome (Unit {0})
saved true = ok tt
saved false = panic save_failed

module _ {D : Type 0} where
  abbrev pub get : Exec D (Node D)
  get n = (ok n, n)

  abbrev pub modify : (Node D → Node D) → Exec D Unit
  modify f n = (ok tt, f n)

  abbrev pub when : Bool → Exec D Unit → Exec D Unit
  when true m = m
  when false m = pure tt

  abbrev pub emit : Effect → Exec D Unit
  emit e = modify (λ n. record n { effects = n.effects ++ e ∷ [] })

  abbrev pub reset_election_timer : Exec D Unit
  reset_election_timer = emit reset_timer

  -- A stopped node starts no goroutine.
  abbrev pub spawn : Effect → Exec D Unit
  spawn e n = if n.stopped then (ok tt, n) else emit e n

  abbrev pub spawn_all : List Effect → Exec D Unit
  spawn_all es n = if n.stopped then (ok tt, n) else (ok tt, record n { effects = n.effects ++ es })

  abbrev pub persistent : Node D → PersistentState
  persistent n = record {
    current_term = n.current_term;
    voted_for = n.voted_for;
    entries = Log.entries n.log;
  }

  unfoldable pub persist : Exec D Unit
  persist n =
      let (done, d) = n.storage.save (persistent n) n.disk in (saved done, record n { disk = d })

  unfoldable pub quorum : Node D → ℕ
  quorum n = (length n.peers + 1) / 2 + 1

-- An action whose result is dropped: what holds of the state after each success still holds.
pub discard_lem :
    {D A : Type 0} (o : Outcome A × Node D) (Q : Node D → Type 0)
    → ((a : A) → o.0 ≡ ok a → Q o.1)
    → (continue o.0 (λ _. pure {D = D} {A = Unit {0}} tt) o.1).0 ≡ ok tt
    → Q (continue o.0 (λ _. pure {D = D} {A = Unit {0}} tt) o.1).1
discard_lem (ok a, n) Q f h = f a refl
discard_lem (panic p, n) Q f h = cc

-- `m[k] = v`
abbrev pub update : (NodeId → ℕ) → NodeId → ℕ → NodeId → ℕ
update m k v j = if str_eq j k then v else m j
