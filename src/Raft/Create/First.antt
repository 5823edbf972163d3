-- ===== src/Raft/Create/First.antt =====
-- The first boot: `New` of raft/node.go over storage on which nothing has been saved, which is what
-- `Load` of raft/persist.go and of raft/filestorage.go return as the zero value.
use fraud_scoring_platform.Raft.Durable.{recalled, IsRestorable}
use fraud_scoring_platform.Raft.Types.{reset_timer, follower, nobody}
use fraud_scoring_platform.Raft.Storage.File.{
  decode_file, file_storage, state_file, opened_with, Files, load_file, new_file_storage,
}
use fraud_scoring_platform.Raft.Storage.Codec.{zero_state, Codec}
use fraud_scoring_platform.Raft.Storage.Memory.{
  new_memory_storage, memory_storage, MemoryStorage, load_memory,
}
use fraud_scoring_platform.Raft.Storage.Disk.{
  failed, not_exist, content, ReadResult, FilePath, FileSystem,
}
use fraud_scoring_platform.Raft.Node.{persistent, Node, Config}
use fraud_scoring_platform.Raft.Create.{
  restored, validate, restore_log, others, with_defaults, create,
}
use fraud_scoring_platform.Raft.Storage.{Storage}
use fraud_scoring_platform.Raft.Log
use fraud_scoring_platform.Prelude.{◌∙◌, ap, [], ◌∷◌, none, inr, some, ◌≡◌, arith, refl}

-- The interface's promise about fresh storage: it yields the zero value.
abbrev IsFresh : {D : Type 0} → Storage D → D → Type 0
IsFresh s d = s.load d ≡ some zero_state

-- A node that has seen nothing: a follower in term 0 without a vote, a leader or an entry, with
-- nothing committed, and with the timer set.
pub record IsNewborn {D : Type 0} (c : Config D) (n : Node D) : Type 0 where
  pub named : n.id ≡ c.id
  pub connected : n.peers ≡ others c.id c.peers
  pub state :
      persistent n
      ≡ record { current_term = 0; voted_for = nobody; entries = Log.sentinel 0 0 ∷ [] }
  pub role : n.role ≡ follower
  pub no_leader : n.leader_id ≡ nobody
  pub uncommitted : n.commit_index ≡ 0
  pub unapplied : n.last_applied ≡ 0
  pub timer : n.effects ≡ reset_timer ∷ []

create-IsNewborn :
    {D : Type 0} (s : Storage D) (d : D) (c : Config D)
    → IsFresh s d
    → c.storage ≡ some (s, d)
    → validate (with_defaults c) ≡ none
    → (n : Node D) × (create c ≡ inr n) × IsNewborn c n × IsRestorable s n
unfolding create with_defaults restore_log
create-IsNewborn s d c fresh at valid = (
  restored (with_defaults c) s d zero_state Log.new_raft_log,
  ground (arith, fresh, at, valid),
  record {
    named = refl;
    connected = refl;
    state = refl;
    role = refl;
    no_leader = refl;
    uncommitted = refl;
    unapplied = refl;
    timer = refl;
  },
  record { same = refl; synced = ap recalled fresh },
)

-- The first boot over what `NewMemoryStorage` returns: a node created over it with a valid
-- configuration is a follower of its own name, connected to all its other peers, in term 0, without
-- a vote, a leader or entries, with nothing committed or applied, and with its timer set. No error
-- comes from the storage, and a restart would read the node's term, vote and log from it.
pub create-first_memory :
    (codec : Codec) (c : Config MemoryStorage)
    → c.storage ≡ some (memory_storage codec, new_memory_storage)
    → validate (with_defaults c) ≡ none
    → (n : Node MemoryStorage) × (create c ≡ inr n)
      × IsNewborn c n
      × IsRestorable (memory_storage codec) n
unfolding load_memory
create-first_memory codec c at valid =
    create-IsNewborn (memory_storage codec) new_memory_storage c refl at valid

module _ (fs : FileSystem) (codec : Codec) where
  opened_with-dir :
      (dir : FilePath) (d : fs.Disk) (r : ReadResult) (f : Files fs)
      → opened_with {fs = fs} dir d r ≡ inr f
      → f.dir ≡ dir
  opened_with-dir dir d (content b) f h = cc h
  opened_with-dir dir d not_exist f h = cc h
  opened_with-dir dir d failed f h = cc h

  new_file_storage-dir :
      (dir : FilePath) (d : fs.Disk) (f : Files fs) → new_file_storage dir d ≡ inr f → f.dir ≡ dir
  unfolding new_file_storage
  new_file_storage-dir dir d f h = grind (arith, opened_with-dir dir (fs.mkdir_all dir d).1, h)

  -- The first boot over a file storage: if `NewFileStorage` opens a directory that then has no
  -- state file, a node created over it with a valid configuration is a follower of its own name,
  -- connected to all its other peers, in term 0, without a vote, a leader or entries, with nothing
  -- committed or applied, and with its timer set. No error comes from the storage, and a restart
  -- would read the node's term, vote and log from the disk.
  pub create-first_file :
      (dir : FilePath) (d : fs.Disk) (f : Files fs) (c : Config (Files fs))
      → new_file_storage dir d ≡ inr f
      → fs.read_file f.disk (fs.join dir state_file) ≡ not_exist
      → c.storage ≡ some (file_storage codec, f)
      → validate (with_defaults c) ≡ none
      → (n : Node (Files fs)) × (create c ≡ inr n)
        × IsNewborn c n
        × IsRestorable (file_storage codec) n
  unfolding load_file
  create-first_file dir d f c opened missing at valid =
      let absent : fs.read_file f.disk (fs.join f.dir state_file) ≡ not_exist =
        ap (λ p. fs.read_file f.disk (fs.join p state_file)) (new_file_storage-dir dir d f opened)
        ∙ missing in
      create-IsNewborn (file_storage codec) f c (ap (decode_file codec) absent) at valid
