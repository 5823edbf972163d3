-- ===== src/Raft/Create.antt =====
-- `New` of raft/node.go with `withDefaults` and `validate`, and `restoreState` of raft/persist.go.
pub mod Restart
pub mod First
use fraud_scoring_platform.Raft.Storage.{Storage}
use fraud_scoring_platform.Raft.Log
use fraud_scoring_platform.Raft.Types.{
  reset_timer, follower, PersistentState, Entry, NodeId, nobody,
}
use fraud_scoring_platform.Raft.Node.{Config, Node}
use fraud_scoring_platform.Prelude.{
  ◌&&◌, inc64, ◌==◌, false, ◌||◌, inr, true, inl, none, some, str_eq, Bool, not, if◌then◌else◌,
  Option, List, ◌⊎◌, ℕ, [], ◌∷◌,
}
use fraud_scoring_platform.Prelude.Int.{ℤ, pos, ltb_ℤ, leb_ℤ, eqb_ℤ}

-- In nanoseconds.
abbrev pub default_election_timeout_min : ℤ
default_election_timeout_min = pos 150_000_000

abbrev pub default_election_timeout_max : ℤ
default_election_timeout_max = pos 300_000_000

abbrev pub default_heartbeat_interval : ℤ
default_heartbeat_interval = pos 50_000_000

abbrev pub default_rpc_timeout : ℤ
default_rpc_timeout = pos 1_000_000_000

abbrev pub default_max_entries_per_append : ℤ
default_max_entries_per_append = pos 1000

abbrev pub or_default : ℤ → ℤ → ℤ
or_default x d = if eqb_ℤ x (pos 0) then d else x

unfoldable pub with_defaults : {D : Type 0} → Config D → Config D
with_defaults c = record c {
  election_timeout_min = or_default c.election_timeout_min default_election_timeout_min;
  election_timeout_max = or_default c.election_timeout_max default_election_timeout_max;
  heartbeat_interval = or_default c.heartbeat_interval default_heartbeat_interval;
  rpc_timeout = or_default c.rpc_timeout default_rpc_timeout;
  max_entries_per_append = or_default c.max_entries_per_append default_max_entries_per_append;
}

pub data ConfigError : Type 0 where
  empty_id empty_peer duplicate_peer missing_self no_transport no_storage no_apply_ch : ConfigError
  bad_election_timeout bad_heartbeat bad_rpc_timeout bad_max_entries : ConfigError

pub data NewError : Type 0 where
  invalid : ConfigError → NewError
  loading corrupt : NewError

abbrev pub contains : List NodeId → NodeId → Bool
contains [] a = false
contains (x ∷ xs) a = str_eq x a || contains xs a

-- The loop over the peers; `seen` holds those before.
unfoldable pub check_peers : List NodeId → List NodeId → Option ConfigError
check_peers seen [] = none
check_peers seen (p ∷ ps) =
    if str_eq p nobody
    then some empty_peer
    else if contains seen p
    then some duplicate_peer
    else check_peers (p ∷ seen) ps

abbrev pub is_none {ℓ} : {A : Type ℓ} → Option A → Bool
is_none none = true
is_none (some _) = false

-- The checks behind the loop.
unfoldable pub check_rest : {D : Type 0} → Config D → Option ConfigError
check_rest c =
    if not (contains c.peers c.id)
    then some missing_self
    else if not c.has_transport
    then some no_transport
    else if is_none c.storage
    then some no_storage
    else if not c.has_apply_ch
    then some no_apply_ch
    else if leb_ℤ c.election_timeout_min (pos 0)
        || leb_ℤ c.election_timeout_max c.election_timeout_min
    then some bad_election_timeout
    else if leb_ℤ c.heartbeat_interval (pos 0) || leb_ℤ c.election_timeout_min c.heartbeat_interval
    then some bad_heartbeat
    else if leb_ℤ c.rpc_timeout (pos 0)
    then some bad_rpc_timeout
    else if ltb_ℤ c.max_entries_per_append (pos 0)
    then some bad_max_entries
    else none

abbrev pub or_else : Option ConfigError → Option ConfigError → Option ConfigError
or_else none e = e
or_else (some e) _ = some e

-- none is the nil error.
unfoldable pub validate : {D : Type 0} → Config D → Option ConfigError
validate c =
    if str_eq c.id nobody then some empty_id else or_else (check_peers [] c.peers) (check_rest c)

abbrev pub others : NodeId → List NodeId → List NodeId
others id [] = []
others id (p ∷ ps) = if str_eq p id then others id ps else p ∷ others id ps

-- The loop of `restoreState`: each index is one more than the one before.
unfoldable pub is_gapless : Entry → List Entry → Bool
is_gapless e [] = true
is_gapless e (x ∷ xs) = x.index == inc64 e.index && is_gapless x xs

-- none is the error for a corrupt log.
unfoldable pub restore_log : List Entry → Option Log.RaftLog
restore_log [] = some Log.new_raft_log
restore_log (e ∷ es) = if is_gapless e es then some (record { first = e; rest = es }) else none

abbrev pub restored :
    {D : Type 0} → Config D → Storage D → D → PersistentState → Log.RaftLog → Node D
restored c s d state log = record {
  id = c.id;
  peers = others c.id c.peers;
  cfg = c;
  storage = s;
  disk = d;
  current_term = state.current_term;
  voted_for = state.voted_for;
  log = log;
  commit_index = 0;
  last_applied = 0;
  next_index = λ _. 0;
  match_index = λ _. 0;
  role = follower;
  leader_id = nobody;
  kick_ch = none;
  started = false;
  stopped = false;
  effects = reset_timer ∷ [];
}

abbrev pub create_from :
    {D : Type 0} → Config D → Storage D → D → Option PersistentState → NewError ⊎ Node D
create_from c s d none = inl loading
create_from c s d (some state) = elim (restore_log state.entries) [
  | none ↦ inl corrupt
  | some log ↦ inr (restored c s d state log)
]

-- `New` once the configuration has passed `validate`; the nil storage does not pass.
abbrev pub create_on : {D : Type 0} → Config D → Option (Storage D × D) → NewError ⊎ Node D
create_on c none = inl (invalid no_storage)
create_on c (some (s, d)) = create_from c s d (s.load d)

abbrev pub create_checked : {D : Type 0} → Config D → Option ConfigError → NewError ⊎ Node D
create_checked c (some e) = inl (invalid e)
create_checked c none = create_on c c.storage

-- `New`
unfoldable pub create : {D : Type 0} → Config D → NewError ⊎ Node D
create c = create_checked (with_defaults c) (validate (with_defaults c))
