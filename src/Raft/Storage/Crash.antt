-- ===== src/Raft/Storage/Crash.antt =====
-- A crash in the middle of `Save` of raft/filestorage.go leaves the old state or the new one.
use fraud_scoring_platform.Raft.Storage.Codec.{Bytes}
use fraud_scoring_platform.Raft.Storage.Disk.{
  content, ReadResult, FilePath, FileSystem, IsFileSystem, Spares,
}
use fraud_scoring_platform.Raft.Storage.File.{
  save_bytes, state_file, tmp_file, Files, Io, call, write_and_sync, sync_dir,
}
use fraud_scoring_platform.Prelude.{
  Bool-cases, sym, subst, [], inr, ◌⊎◌, ◌≡◌, ◌≢◌, inl, true, All, Bool, arith,
}

-- An invariant of the storage that an action keeps.
abbrev Keeps : {fs : FileSystem} {A : Type 0} → (Files fs → Type 0) → Io fs A → Type 0
Keeps {fs} I m = (f : Files fs) → I f → I (m f).1

-- After a crash the path reads as it might have on the old disk, or has the new bytes.
abbrev pub OldOrNew : (fs : FileSystem) → fs.Disk → FilePath → Bytes → fs.Disk → Type 0
OldOrNew fs old path b d =
    (r : ReadResult) → fs.MayRead d path r → fs.MayRead old path r ⊎ (r ≡ content b)

module _ (fs : FileSystem) (law : IsFileSystem fs) (old : fs.Disk) (path : FilePath)
    (b : Bytes) where
  abbrev OnlyOld : fs.Disk → Type 0
  OnlyOld d = (r : ReadResult) → fs.MayRead d path r → fs.MayRead old path r

  -- Before the rename, and behind it.
  abbrev IsBefore : Files fs → Type 0
  IsBefore f = All (OldOrNew fs old path b) f.past × OnlyOld f.disk

  abbrev IsBehind : Files fs → Type 0
  IsBehind f = All (OldOrNew fs old path b) f.past × OldOrNew fs old path b f.disk

  IsBefore-call : (op : fs.Disk → Bool × fs.Disk) → Spares fs path op → Keeps IsBefore (call fs op)
  unfolding call
  IsBefore-call op s f (past, disk) =
      (((λ r m. inl (disk r (s.crash f.disk r m))), past), λ r m. disk r (s.crash f.disk r m))

  IsBehind-call : (op : fs.Disk → Bool × fs.Disk) → Spares fs path op → Keeps IsBehind (call fs op)
  unfolding call
  IsBehind-call op s f (past, disk) =
      (((λ r m. disk r (s.crash f.disk r m)), past), λ r m. disk r (s.crash f.disk r m))

  write-IsBefore : (p : FilePath) (c : Bytes) → p ≢ path → Keeps IsBefore (write_and_sync p c)
  unfolding write_and_sync
  write-IsBefore p c ne f i =
      let i1 = IsBefore-call (fs.open_trunc p) (law.open_other p path ne) f i in
      let f1 = (call fs (fs.open_trunc p) f).1 in
      let i2 = IsBefore-call (fs.write p c) (law.write_other p path c ne) f1 i1 in
      let f2 = (call fs (fs.write p c) f1).1 in
      let i3 = IsBefore-call (fs.sync p) (law.sync_other p path ne) f2 i2 in
      let f3 = (call fs (fs.sync p) f2).1 in
      let closed = IsBefore-call (fs.close p) (law.close_other p path) in
      elim (Bool-cases (call fs (fs.open_trunc p) f).0) [
        | inr broken ↦ rw broken i1
        | inl opened ↦ elim (Bool-cases (call fs (fs.write p c) f1).0) [
          | inr broken ↦ rw (opened, broken) (closed f2 i2)
          | inl wrote ↦ elim (Bool-cases (call fs (fs.sync p) f2).0) [
            | inr broken ↦ rw (opened, wrote, broken) (closed f3 i3)
            | inl synced ↦ rw (opened, wrote, synced) (closed f3 i3)
          ]
        ]
      ]

  sync-IsBehind : (dir : FilePath) → Keeps IsBehind (sync_dir dir)
  unfolding sync_dir
  sync-IsBehind dir f i =
      let i1 = IsBehind-call (fs.open_dir dir) (law.open_dir_other dir path) f i in
      let f1 = (call fs (fs.open_dir dir) f).1 in
      let i2 = IsBehind-call (fs.sync_dir dir) (law.sync_dir_other dir path) f1 i1 in
      let f2 = (call fs (fs.sync_dir dir) f1).1 in
      elim (Bool-cases (call fs (fs.open_dir dir) f).0) [
        | inr broken ↦ rw broken i1
        | inl opened ↦
            rw opened (IsBehind-call (fs.close_dir dir) (law.close_dir_other dir path) f2 i2)
      ]

  rename-IsBehind :
      (p : FilePath) (f : Files fs)
      → IsBefore f
      → fs.Synced f.disk p b
      → IsBehind (call fs (fs.rename p path) f).1
  unfolding call
  rename-IsBehind p f (past, disk) synced = ((new, past), new)
    where
      new : OldOrNew fs old path b (fs.rename p path f.disk).1
      new r m = elim (law.rename_atomic p path b f.disk r synced m) [
        | inl was ↦ inl (disk r was)
        | inr is ↦ inr is
      ]

-- What a write that succeeds leaves on disk.
pub written_lem :
    (fs : FileSystem) (law : IsFileSystem fs) (p : FilePath) (b : Bytes) (f : Files fs)
    → (write_and_sync p b f).0 ≡ true
    → (fs.read_file (write_and_sync p b f).1.disk p ≡ content b)
      × fs.Synced (write_and_sync p b f).1.disk p b
unfolding write_and_sync call
written_lem fs law p b f h =
    let d1 = (fs.open_trunc p f.disk).1 in
    let d2 = (fs.write p b d1).1 in
    let d3 = (fs.sync p d2).1 in
    ground (
      arith,
      law.opened p f.disk,
      law.written p b [] d1,
      law.synced p b d2,
      law.closed p p b d3,
      (law.close_other p p).read d3,
    )

module _ (fs : FileSystem) (law : IsFileSystem fs) (dir : FilePath) (b : Bytes) (f : Files fs) where
  abbrev tmp : FilePath
  tmp = fs.join dir tmp_file

  abbrev state : FilePath
  state = fs.join dir state_file

  abbrev f1 : Files fs
  f1 = (write_and_sync tmp b f).1

  abbrev f2 : Files fs
  f2 = (call fs (fs.rename tmp state) f1).1

  pub save_bytes-OldOrNew :
      f.past ≡ []
      → OldOrNew fs f.disk state b (save_bytes dir b f).1.disk
        × All (OldOrNew fs f.disk state b) (save_bytes dir b f).1.past
  unfolding save_bytes
  save_bytes-OldOrNew fresh =
      let before =
        write-IsBefore fs law f.disk state b tmp b (law.join_apart dir) f
          (subst (All (OldOrNew fs f.disk state b)) (sym fresh) tt, λ r m. m) in
      elim (Bool-cases (write_and_sync tmp b f).0) [
        | inr broken ↦ rw broken ((λ r m. inl (before.1 r m)), before.0)
        | inl wrote ↦
            let behind =
              rename-IsBehind fs law f.disk state b tmp f1 before
                (written_lem fs law tmp b f wrote).1 in
            elim (Bool-cases (call fs (fs.rename tmp state) f1).0) [
              | inr broken ↦ rw (wrote, broken) (behind.1, behind.0)
              | inl replaced ↦
                  let last = sync-IsBehind fs law f.disk state b dir f2 behind in
                  elim (Bool-cases (sync_dir dir f2).0) [
                    | inr broken ↦ rw (wrote, replaced, broken) (last.1, last.0)
                    | inl synced ↦ rw (wrote, replaced, synced) (last.1, last.0)
                  ]
            ]
      ]
