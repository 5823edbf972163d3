-- ===== src/Raft/Storage/Disk.antt =====
-- The calls of package os on which raft/filestorage.go rests, as a parameter, and what a local file
-- system promises of them, also of a crash. A call returns whether it succeeded.
use fraud_scoring_platform.Raft.Storage.Codec.{Bytes}
use fraud_scoring_platform.Prelude.{String, Bool, true, false, [], ◌++◌, ◌≡◌, ◌≢◌, ◌⊎◌}

abbrev pub FilePath : Type 0
FilePath = String

pub data ReadResult : Type 0 where
  content : Bytes → ReadResult
  not_exist failed : ReadResult

pub record FileSystem : Type 1 where
  pub Disk : Type 0
  -- `filepath.Join`
  pub join : FilePath → FilePath → FilePath
  pub mkdir_all : FilePath → Disk → Bool × Disk
  -- The size, if the file exists.
  pub stat : Disk → FilePath → ReadResult
  pub read_file : Disk → FilePath → ReadResult
  -- `os.OpenFile` with O_WRONLY, O_CREATE and O_TRUNC. The calls on the open file name its path.
  pub open_trunc : FilePath → Disk → Bool × Disk
  pub write : FilePath → Bytes → Disk → Bool × Disk
  pub sync : FilePath → Disk → Bool × Disk
  pub close : FilePath → Disk → Bool × Disk
  pub rename : FilePath → FilePath → Disk → Bool × Disk
  pub open_dir : FilePath → Disk → Bool × Disk
  pub sync_dir : FilePath → Disk → Bool × Disk
  pub close_dir : FilePath → Disk → Bool × Disk
  -- After a crash the path may read so.
  pub MayRead : Disk → FilePath → ReadResult → Type 0
  -- The bytes of the file are on disk, though its name may not be.
  pub Synced : Disk → FilePath → Bytes → Type 0

-- A call that has nothing to do with the path `q`.
pub record Spares (fs : FileSystem) (q : FilePath) (call : fs.Disk → Bool × fs.Disk) : Type 0 where
  pub read : (d : fs.Disk) → fs.read_file (call d).1 q ≡ fs.read_file d q
  pub crash : (d : fs.Disk) (r : ReadResult) → fs.MayRead (call d).1 q r → fs.MayRead d q r

-- A rename that returns an error may still happen in a crash, and after one that succeeds the old
-- name may be back until the directory is synced.
pub record IsFileSystem (fs : FileSystem) : Type 0 where
  pub open_other : (p q : FilePath) → p ≢ q → Spares fs q (fs.open_trunc p)
  pub write_other : (p q : FilePath) (b : Bytes) → p ≢ q → Spares fs q (fs.write p b)
  pub sync_other : (p q : FilePath) → p ≢ q → Spares fs q (fs.sync p)
  pub close_other : (p q : FilePath) → Spares fs q (fs.close p)
  pub open_dir_other : (p q : FilePath) → Spares fs q (fs.open_dir p)
  pub sync_dir_other : (p q : FilePath) → Spares fs q (fs.sync_dir p)
  pub close_dir_other : (p q : FilePath) → Spares fs q (fs.close_dir p)
  pub opened :
      (p : FilePath) (d : fs.Disk)
      → (fs.open_trunc p d).0 ≡ true
      → fs.read_file (fs.open_trunc p d).1 p ≡ content []
  pub written :
      (p : FilePath) (b c : Bytes) (d : fs.Disk)
      → fs.read_file d p ≡ content c
      → (fs.write p b d).0 ≡ true
      → fs.read_file (fs.write p b d).1 p ≡ content (c ++ b)
  pub synced :
      (p : FilePath) (b : Bytes) (d : fs.Disk)
      → fs.read_file d p ≡ content b
      → (fs.sync p d).0 ≡ true
      → (fs.read_file (fs.sync p d).1 p ≡ content b) × fs.Synced (fs.sync p d).1 p b
  pub closed :
      (p q : FilePath) (b : Bytes) (d : fs.Disk) → fs.Synced d q b → fs.Synced (fs.close p d).1 q b
  pub renamed :
      (p q : FilePath) (b : Bytes) (d : fs.Disk)
      → fs.read_file d p ≡ content b
      → fs.Synced d p b
      → (fs.rename p q d).0 ≡ true
      → (fs.read_file (fs.rename p q d).1 q ≡ content b) × fs.Synced (fs.rename p q d).1 q b
  pub rename_failed :
      (p q : FilePath) (d : fs.Disk)
      → (fs.rename p q d).0 ≡ false
      → fs.read_file (fs.rename p q d).1 q ≡ fs.read_file d q
  pub rename_atomic :
      (p q : FilePath) (b : Bytes) (d : fs.Disk) (r : ReadResult)
      → fs.Synced d p b
      → fs.MayRead (fs.rename p q d).1 q r
      → fs.MayRead d q r ⊎ (r ≡ content b)
  pub opened_dir :
      (p q : FilePath) (b : Bytes) (d : fs.Disk)
      → fs.Synced d q b
      → fs.Synced (fs.open_dir p d).1 q b
  -- Syncing a directory makes the name of a file in it durable too.
  pub synced_dir :
      (dir name : FilePath) (b : Bytes) (d : fs.Disk) (r : ReadResult)
      → fs.Synced d (fs.join dir name) b
      → (fs.sync_dir dir d).0 ≡ true
      → fs.MayRead (fs.sync_dir dir d).1 (fs.join dir name) r
      → r ≡ content b
  pub join_apart : (dir : FilePath) → fs.join dir "state.tmp" ≢ fs.join dir "state"
