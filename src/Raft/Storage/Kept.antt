-- ===== src/Raft/Storage/Kept.antt =====
-- `FileStorage` of raft/filestorage.go keeps the promises of `Storage`, also in a crash.
use fraud_scoring_platform.Raft.Types.{PersistentState}
use fraud_scoring_platform.Raft.Storage.{IsStorage}
use fraud_scoring_platform.Raft.Storage.Codec.{Codec, IsCodec, Bytes}
use fraud_scoring_platform.Raft.Storage.Disk.{
  content, ReadResult, FilePath, FileSystem, IsFileSystem,
}
use fraud_scoring_platform.Raft.Storage.File.{
  is_nil_error, file_storage, tmp_file, encoding, state_path, state_file, save_file, load_file,
  Files, call, write_and_sync, sync_dir, save_bytes,
}
use fraud_scoring_platform.Raft.Storage.Crash.{written_lem, save_bytes-OldOrNew, OldOrNew}
use fraud_scoring_platform.Prelude.{
  inr, inl, Option-cases, [], ◌⊎◌, All, none, some, true, ◌≢◌, ◌≡◌, arith, ◌∷◌,
}

-- What `Save` does to the disk.
pub record SavedAtomically (fs : FileSystem) (c : Codec) (p : PersistentState) (f : Files fs)
    : Type 0 where
  -- Between any two calls, and behind the last.
  pub interrupted :
      (b : Bytes)
      → c.encode_gob p ≡ some b
      → All
          (OldOrNew fs f.disk (state_path f) b)
          ((save_file c p f).1.disk ∷ (save_file c p f).1.past)
  pub durable :
      (b : Bytes)
      → c.encode_gob p ≡ some b
      → (save_file c p f).0 ≡ none
      → (r : ReadResult) → fs.MayRead (save_file c p f).1.disk (state_path f) r
      → r ≡ content b
  pub not_encoded : c.encode_gob p ≡ none → save_file c p f ≡ (some encoding, f)

module _ (fs : FileSystem) (law : IsFileSystem fs) where
  write_and_sync-read :
      (p q : FilePath) (b : Bytes) (f : Files fs)
      → p ≢ q
      → fs.read_file (write_and_sync p b f).1.disk q ≡ fs.read_file f.disk q
  unfolding write_and_sync call
  write_and_sync-read p q b f ne =
      let d1 = (fs.open_trunc p f.disk).1 in
      let d2 = (fs.write p b d1).1 in
      let d3 = (fs.sync p d2).1 in
      ground (
        arith,
        (law.open_other p q ne).read f.disk,
        (law.write_other p q b ne).read d1,
        (law.sync_other p q ne).read d2,
        (law.close_other p q).read d2,
        (law.close_other p q).read d3,
      )

  sync_dir-read :
      (dir q : FilePath) (f : Files fs)
      → fs.read_file (sync_dir dir f).1.disk q ≡ fs.read_file f.disk q
  unfolding sync_dir call
  sync_dir-read dir q f =
      let d1 = (fs.open_dir dir f.disk).1 in
      let d2 = (fs.sync_dir dir d1).1 in
      ground (
        arith,
        (law.open_dir_other dir q).read f.disk,
        (law.sync_dir_other dir q).read d1,
        (law.close_dir_other dir q).read d2,
      )

  sync_dir_durable :
      (dir name : FilePath) (b : Bytes) (f : Files fs) (r : ReadResult)
      → fs.Synced f.disk (fs.join dir name) b
      → (sync_dir dir f).0 ≡ true
      → fs.MayRead (sync_dir dir f).1.disk (fs.join dir name) r
      → r ≡ content b
  unfolding sync_dir call
  sync_dir_durable dir name b f r k done m =
      let d1 = (fs.open_dir dir f.disk).1 in
      let d2 = (fs.sync_dir dir d1).1 in
      ground (
        arith,
        law.opened_dir dir (fs.join dir name) b f.disk,
        law.synced_dir dir name b d1 r,
        (law.close_dir_other dir (fs.join dir name)).crash d2 r,
      )

  write_and_sync-dir :
      (p : FilePath) (b : Bytes) (f : Files fs) → (write_and_sync p b f).1.dir ≡ f.dir
  unfolding write_and_sync call
  write_and_sync-dir p b f = ground arith

  sync_dir-dir : (dir : FilePath) (f : Files fs) → (sync_dir dir f).1.dir ≡ f.dir
  unfolding sync_dir call
  sync_dir-dir dir f = ground arith

  save_bytes-read :
      (dir : FilePath) (b : Bytes) (f : Files fs)
      → ((save_bytes dir b f).0 ≡ none
          → fs.read_file (save_bytes dir b f).1.disk (fs.join dir state_file) ≡ content b)
        × ((fs.read_file (save_bytes dir b f).1.disk (fs.join dir state_file)
              ≡ fs.read_file f.disk (fs.join dir state_file))
            ⊎ (fs.read_file (save_bytes dir b f).1.disk (fs.join dir state_file) ≡ content b))
        × ((save_bytes dir b f).1.dir ≡ f.dir)
  unfolding save_bytes call
  save_bytes-read dir b f =
      let tmp = fs.join dir tmp_file in
      let state = fs.join dir state_file in
      let f1 = (write_and_sync tmp b f).1 in
      let f2 = (call fs (fs.rename tmp state) f1).1 in
      ground (
        arith,
        write_and_sync-read tmp state b f (law.join_apart dir),
        write_and_sync-dir tmp b f,
        written_lem fs law tmp b f,
        law.renamed tmp state b f1.disk,
        law.rename_failed tmp state f1.disk,
        sync_dir-read dir state f2,
        sync_dir-dir dir f2,
      )

  save_bytes_durable :
      (dir : FilePath) (b : Bytes) (f : Files fs) (r : ReadResult)
      → (save_bytes dir b f).0 ≡ none
      → fs.MayRead (save_bytes dir b f).1.disk (fs.join dir state_file) r
      → r ≡ content b
  unfolding save_bytes call
  save_bytes_durable dir b f r done m =
      let tmp = fs.join dir tmp_file in
      let state = fs.join dir state_file in
      let f1 = (write_and_sync tmp b f).1 in
      let f2 = (call fs (fs.rename tmp state) f1).1 in
      ground (
        arith,
        written_lem fs law tmp b f,
        law.renamed tmp state b f1.disk,
        sync_dir_durable dir state_file b f2 r,
      )

  -- Over a file system that keeps its promises, saving a state that can be encoded, with no disk
  -- remembered from before: a crash before or after any of the calls of the save leaves a file that
  -- reads as before the save or as the new state, never anything else. If `Save` returns no error,
  -- only the new state can be read, whatever crash follows. A state that cannot be encoded changes
  -- nothing.
  pub save_file-SavedAtomically :
      (c : Codec) (p : PersistentState) (f : Files fs) → f.past ≡ [] → SavedAtomically fs c p f
  unfolding save_file
  save_file-SavedAtomically c p f fresh = record {
    interrupted = λ b e. rw e (save_bytes-OldOrNew fs law f.dir b f fresh);
    durable = λ b e. rw e (λ done r m. save_bytes_durable f.dir b f r done m);
    not_encoded = λ e. rw e;
  }

module _ (fs : FileSystem) (law : IsFileSystem fs) (c : Codec) (codec : IsCodec c) where
  saved-encoded :
      (p : PersistentState) (f : Files fs) (b : Bytes)
      → c.encode_gob p ≡ some b
      → (((save_file c p f).0 ≡ none) → load_file c (save_file c p f).1 ≡ some p)
        × ((load_file c (save_file c p f).1 ≡ load_file c f)
            ⊎ (load_file c (save_file c p f).1 ≡ some p))
  unfolding save_file load_file
  saved-encoded p f b e =
      ground (arith, e, save_bytes-read fs law f.dir b f, codec.decode-encode p b e)

  saved :
      (p : PersistentState) (f : Files fs)
      → (is_nil_error (save_file c p f).0 ≡ true → load_file c (save_file c p f).1 ≡ some p)
        × ((load_file c (save_file c p f).1 ≡ load_file c f)
            ⊎ (load_file c (save_file c p f).1 ≡ some p))
  saved p f = elim (Option-cases (c.encode_gob p)) [
    | inl fails ↦
        let e : save_file c p f ≡ (some encoding, f) = unfold save_file in rw fails in
        ground (arith, e)
    | inr (b, e) ↦ ground (arith, saved-encoded p f b e)
  ]

  -- Over a file system and an encoding that keep their promises, FileStorage is a storage in the
  -- sense of `Storage`: what a successful save was given is what `Load` returns, and a save that
  -- fails leaves the old state or the new one to be loaded.
  pub file_storage-IsStorage : IsStorage (file_storage {fs = fs} c)
  file_storage-IsStorage = record {
    load-save = λ p f. (saved p f).0;
    atomic = λ p f. (saved p f).1;
  }
