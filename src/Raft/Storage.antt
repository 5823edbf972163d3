-- ===== src/Raft/Storage.antt =====
-- `Storage` of raft/persist.go: the interface through which a node saves its state. `D` is what
-- the storage device holds.
pub mod Codec
pub mod Memory
pub mod Disk
pub mod File
pub mod Crash
pub mod Kept
mod Tests
use fraud_scoring_platform.Prelude.{◌≡◌, ◌⊎◌, Bool, true, Option, some}
use fraud_scoring_platform.Raft.Types.{PersistentState}

pub record Storage (D : Type 0) : Type 0 where
  -- Whether the save succeeded, and the device afterwards.
  pub save : PersistentState → D → Bool × D
  -- none is an error; fresh storage yields the zero value.
  pub load : D → Option PersistentState

-- What the nodes rely on once something is saved. `load-save` is the promise of the interface that
-- `Load` returns the last saved state. What a save that fails leaves is open there: `atomic`, the old
-- state or the new one, is what the comments of raft/filestorage.go say of that storage. The zero
-- value on fresh storage is no part of this: it is in Create/First.
pub record IsStorage {D : Type 0} (s : Storage D) : Type 0 where
  pub load-save :
      (p : PersistentState) (d : D) → (s.save p d).0 ≡ true → s.load (s.save p d).1 ≡ some p
  pub atomic :
      (p : PersistentState) (d : D)
      → (s.load (s.save p d).1 ≡ s.load d) ⊎ (s.load (s.save p d).1 ≡ some p)
