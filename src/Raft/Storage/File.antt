-- ===== src/Raft/Storage/File.antt =====
-- `FileStorage` of raft/filestorage.go over any file system. Its lock is held from before the first
-- call of package os to after the last.
use fraud_scoring_platform.Raft.Storage.{Storage}
use fraud_scoring_platform.Raft.Storage.Codec.{Bytes, Codec, zero_state}
use fraud_scoring_platform.Raft.Storage.Disk.{
  FileSystem, FilePath, ReadResult, content, not_exist, failed,
}
use fraud_scoring_platform.Raft.Types.{PersistentState}
use fraud_scoring_platform.Prelude.{
  ℕ, Bool, true, false, not, Option, none, some, List, [], ◌∷◌, length, if◌then◌else◌, ◌⊎◌, inl,
  inr,
}

abbrev pub state_file : FilePath
state_file = "state"

abbrev pub tmp_file : FilePath
tmp_file = "state.tmp"

-- A `FileStorage` with the disk that it writes to. `past` are the disks between the calls made so
-- far, the newest first: what a crash may come upon.
pub record Files (fs : FileSystem) : Type 0 where
  pub dir : FilePath
  pub size : ℕ
  pub disk : fs.Disk
  pub past : List fs.Disk

pub data SaveError : Type 0 where
  encoding writing replacing syncing : SaveError

abbrev pub Io : FileSystem → Type 0 → Type 0
Io fs A = Files fs → A × Files fs

-- none is an error.
abbrev pub decode_file : Codec → ReadResult → Option PersistentState
decode_file c (content b) = c.decode_gob b
decode_file c not_exist = some zero_state
decode_file c failed = none

abbrev pub is_nil_error : Option SaveError → Bool
is_nil_error none = true
is_nil_error (some _) = false

-- One call; true is the nil error.
unfoldable pub call : (fs : FileSystem) → (fs.Disk → Bool × fs.Disk) → Io fs Bool
call fs op f = let (done, d) = op f.disk in (done, record f { disk = d; past = d ∷ f.past })

module _ {fs : FileSystem} where
  abbrev pub pure : {A : Type 0} → A → Io fs A
  pure a f = (a, f)

  infixl 5 ◌>>=◌ ◌>>◌
  abbrev pub ◌>>=◌ : {A B : Type 0} → Io fs A → (A → Io fs B) → Io fs B
  ◌>>=◌ m k f = k (m f).0 (m f).1

  abbrev pub ◌>>◌ : {A B : Type 0} → Io fs A → Io fs B → Io fs B
  m >> k = m >>= λ _. k

  unfoldable pub write_and_sync : FilePath → Bytes → Io fs Bool
  write_and_sync path b = do
    opened ← call fs (fs.open_trunc path)
    if not opened then pure false else do
      wrote ← call fs (fs.write path b)
      if not wrote then (do call fs (fs.close path); pure false) else do
        synced ← call fs (fs.sync path)
        if not synced then (do call fs (fs.close path); pure false) else call fs (fs.close path)

  unfoldable pub sync_dir : FilePath → Io fs Bool
  sync_dir dir = do
    opened ← call fs (fs.open_dir dir)
    if not opened
        then pure false
        else do synced ← call fs (fs.sync_dir dir); call fs (fs.close_dir dir); pure synced

  abbrev pub tmp_path : Files fs → FilePath
  tmp_path f = fs.join f.dir tmp_file

  abbrev pub state_path : Files fs → FilePath
  state_path f = fs.join f.dir state_file

  abbrev set_size : ℕ → Io fs Unit
  set_size n f = (tt, record f { size = n })

  -- `Save` once the state is encoded; none is the nil error.
  unfoldable pub save_bytes : FilePath → Bytes → Io fs (Option SaveError)
  save_bytes dir b = do
    wrote ← write_and_sync (fs.join dir tmp_file) b
    if not wrote then pure (some writing) else do
      replaced ← call fs (fs.rename (fs.join dir tmp_file) (fs.join dir state_file))
      if not replaced then pure (some replacing) else do
        synced ← sync_dir dir
        if not synced then pure (some syncing) else do set_size (length b); pure none

  abbrev pub save_encoded : Option Bytes → Io fs (Option SaveError)
  save_encoded none f = (some encoding, f)
  save_encoded (some b) f = save_bytes f.dir b f

  unfoldable pub save_file : Codec → PersistentState → Io fs (Option SaveError)
  save_file c state = save_encoded (c.encode_gob state)

  unfoldable pub load_file : Codec → Files fs → Option PersistentState
  load_file c f = decode_file c (fs.read_file f.disk (state_path f))

  abbrev pub file_size : Files fs → ℕ
  file_size f = f.size

  abbrev pub file_storage : Codec → Storage (Files fs)
  file_storage c = record {
    save = λ p f. (is_nil_error (save_file c p f).0, (save_file c p f).1);
    load = load_file c;
  }

pub data OpenError : Type 0 where
  creating opening : OpenError

module _ {fs : FileSystem} where
  abbrev pub opened_with : FilePath → fs.Disk → ReadResult → OpenError ⊎ Files fs
  opened_with dir d (content b) = inr (record { dir = dir; size = length b; disk = d; past = [] })
  opened_with dir d not_exist = inr (record { dir = dir; size = 0; disk = d; past = [] })
  opened_with dir d failed = inl opening

  unfoldable pub new_file_storage : FilePath → fs.Disk → OpenError ⊎ Files fs
  new_file_storage dir d =
      let (made, d1) = fs.mkdir_all dir d in
      if not made then inl creating else opened_with dir d1 (fs.stat d1 (fs.join dir state_file))
