-- ===== src/Raft/Storage/Tests.antt =====
-- A file system on which the theorems about storage are applied.
use fraud_scoring_platform.Raft.Durable.{IsRestorable}
use fraud_scoring_platform.Raft.Create.First.{create-first_memory, create-first_file, IsNewborn}
use fraud_scoring_platform.Prelude.Int.{pos}
use fraud_scoring_platform.Raft.Create.{check_rest, check_peers, with_defaults, create, validate}
use fraud_scoring_platform.Raft.Node.{Config, Node}
use fraud_scoring_platform.Raft.Storage.Memory.{
  new_memory_storage, MemoryStorage, memory_storage-IsStorage, memory_storage,
}
use fraud_scoring_platform.Raft.Storage.Kept.{
  file_storage-IsStorage, save_file-SavedAtomically, SavedAtomically,
}
use fraud_scoring_platform.Raft.Storage.File.{
  new_file_storage, save_file, load_file, sync_dir, call, write_and_sync, save_bytes, file_storage,
  Files,
}
use fraud_scoring_platform.Raft.Types.{Entry, nobody, PersistentState}
use fraud_scoring_platform.Raft.Storage.{Storage, IsStorage}
use fraud_scoring_platform.Raft.Storage.Codec.{IsCodec, Codec, Bytes}
use fraud_scoring_platform.Raft.Storage.Disk.{
  not_exist, Spares, IsFileSystem, content, ReadResult, FilePath, FileSystem,
}
use fraud_scoring_platform.Prelude.{
  none, some, ◌∷◌, List, ℕ, Option, ap, ◌∙◌, sym, inr, eq_iff, refl, inl, arith, ◌≢◌, ◌⊎◌, ◌≡◌,
  ◌++◌, [], true, str_eq, if◌then◌else◌,
}

abbrev Contents : Type 0
Contents = FilePath → ReadResult

-- What programs see, and what the disk had when a directory was last synced.
abbrev PlainDisk : Type 0
PlainDisk = Contents × Contents

abbrev put : FilePath → ReadResult → Contents → Contents
put p r m q = if str_eq q p then r else m q

abbrev write_to : FilePath → Bytes → ReadResult → ReadResult
write_to p b (content c) = content (c ++ b)
write_to p b r = r

abbrev plain : FileSystem
plain = record {
  Disk = PlainDisk;
  join = λ dir name.
      if str_eq name "state"
      then "state"
      else if str_eq name "state.tmp"
      then "state.tmp"
      else "other";
  mkdir_all = λ dir d. (true, d);
  stat = λ d p. d.0 p;
  read_file = λ d p. d.0 p;
  open_trunc = λ p d. (true, (put p (content []) d.0, d.1));
  write = λ p b d. (true, (put p (write_to p b (d.0 p)) d.0, d.1));
  sync = λ p d. (true, d);
  close = λ p d. (true, d);
  rename = λ p q d. (true, (put q (d.0 p) d.0, d.1));
  open_dir = λ dir d. (true, d);
  sync_dir = λ dir d. (true, (d.0, d.0));
  close_dir = λ dir d. (true, d);
  MayRead = λ d p r. (r ≡ d.0 p) ⊎ (r ≡ d.1 p);
  Synced = λ d p b. d.0 p ≡ content b;
}

put_other : (p q : FilePath) (r : ReadResult) (m : Contents) → p ≢ q → put p r m q ≡ m q
put_other p q r m ne = ground (arith, eq_iff q p, λ (e : q ≡ p). ne (sym e))

put_self : (p : FilePath) (r : ReadResult) (m : Contents) → put p r m p ≡ r
put_self p r m = ground (arith, eq_iff p p)

Spares-nothing : (q : FilePath) → Spares plain q (λ d. (true, d))
Spares-nothing q = record { read = λ d. refl; crash = λ d r m. m }

-- A call that writes only to `p`.
Spares-put :
    (p q : FilePath) (new : PlainDisk → ReadResult)
    → p ≢ q
    → Spares plain q (λ d. (true, (put p (new d) d.0, d.1)))
Spares-put p q new ne = record {
  read = λ d. put_other p q (new d) d.0 ne;
  crash = λ d r. elim [ inl e ↦ inl (e ∙ put_other p q (new d) d.0 ne) | inr e ↦ inr e ];
}

names_apart : ◌≢◌ {A = FilePath} "state.tmp" "state"
names_apart e = cc ((eq_iff "state.tmp" "state").1 e)

plain-IsFileSystem : IsFileSystem plain
plain-IsFileSystem = record {
  open_other = λ p q ne. Spares-put p q (λ d. content []) ne;
  write_other = λ p q b ne. Spares-put p q (λ d. write_to p b (d.0 p)) ne;
  sync_other = λ p q ne. Spares-nothing q;
  close_other = λ p q. Spares-nothing q;
  open_dir_other = λ p q. Spares-nothing q;
  sync_dir_other =
      λ p q. record { read = λ d. refl; crash = λ d r. elim [ inl e ↦ inl e | inr e ↦ inl e ] };
  close_dir_other = λ p q. Spares-nothing q;
  opened = λ p d h. put_self p (content []) d.0;
  written = λ p b c d e h. put_self p (write_to p b (d.0 p)) d.0 ∙ ap (write_to p b) e;
  synced = λ p b d e h. (e, e);
  closed = λ p q b d e. e;
  renamed = λ p q b d e k h. (put_self q (d.0 p) d.0 ∙ e, put_self q (d.0 p) d.0 ∙ e);
  rename_failed = λ p q d h. cc;
  rename_atomic =
      λ p q b d r e. elim [ inl m ↦ inr (m ∙ put_self q (d.0 p) d.0 ∙ e) | inr m ↦ inl (inr m) ];
  opened_dir = λ p q b d e. e;
  synced_dir = λ dir name b d r e h. elim [ inl m ↦ m ∙ e | inr m ↦ m ∙ e ];
  join_apart = λ dir e. names_apart e;
}

-- A codec for states with neither vote nor log; it fails on any other.
abbrev encode_short : PersistentState → List Entry → Option Bytes
encode_short p [] = if str_eq p.voted_for nobody then some (p.current_term ∷ []) else none
encode_short p (e ∷ es) = none

abbrev decode_short : Bytes → Option PersistentState
decode_short (t ∷ []) = some (record { current_term = t; voted_for = nobody; entries = [] })
decode_short _ = none

abbrev short : Codec
short = record { encode_gob = λ p. encode_short p p.entries; decode_gob = decode_short }

decode-encode_short :
    (p : PersistentState) (es : List Entry) (b : Bytes)
    → p.entries ≡ es
    → encode_short p es ≡ some b
    → decode_short b ≡ some p
decode-encode_short p [] b e h = ground (arith, eq_iff p.voted_for nobody)
decode-encode_short p (x ∷ es) b e h = cc

short-IsCodec : IsCodec short
short-IsCodec = record { decode-encode = λ p b h. decode-encode_short p p.entries b refl h }

abbrev state_of : ℕ → PersistentState
state_of t = record { current_term = t; voted_for = nobody; entries = [] }

abbrev old_files : Files plain
old_files = record {
  dir = "data";
  size = 1;
  disk = (
    put "state" (content (3 ∷ [])) (λ _. not_exist),
    put "state" (content (3 ∷ [])) (λ _. not_exist),
  );
  past = [];
}

saved_four : load_file short (save_file short (state_of 4) old_files).1 ≡ some (state_of 4)
unfolding load_file save_file save_bytes write_and_sync call sync_dir
saved_four = refl

memory_storage-IsStorage_example : IsStorage (memory_storage short)
memory_storage-IsStorage_example = memory_storage-IsStorage short short-IsCodec

file_storage-IsStorage_example : IsStorage (file_storage {fs = plain} short)
file_storage-IsStorage_example = file_storage-IsStorage plain plain-IsFileSystem short short-IsCodec

save_file-SavedAtomically_example : SavedAtomically plain short (state_of 4) old_files
save_file-SavedAtomically_example =
    save_file-SavedAtomically plain plain-IsFileSystem short (state_of 4) old_files refl

-- A valid configuration of a node over the given storage.
abbrev settings : {D : Type 0} → Storage D → D → Config D
settings s d = record {
  id = "a";
  peers = "a" ∷ "b" ∷ "c" ∷ [];
  has_transport = true;
  storage = some (s, d);
  has_apply_ch = true;
  election_timeout_min = pos 150;
  election_timeout_max = pos 300;
  heartbeat_interval = pos 50;
  rpc_timeout = pos 1000;
  max_entries_per_append = pos 2;
}

settings_valid :
    {D : Type 0} (s : Storage D) (d : D) → validate (with_defaults (settings s d)) ≡ none
unfolding validate with_defaults check_peers check_rest
settings_valid s d = refl

abbrev empty_disk : PlainDisk
empty_disk = (λ _. not_exist, λ _. not_exist)

abbrev new_files : Files plain
new_files = record { dir = "data"; size = 0; disk = empty_disk; past = [] }

new_files_opened : new_file_storage {fs = plain} "data" empty_disk ≡ inr new_files
unfolding new_file_storage
new_files_opened = refl

create-first_file_example :
    (n : Node (Files plain)) × (create (settings (file_storage short) new_files) ≡ inr n)
    × IsNewborn (settings (file_storage short) new_files) n
    × IsRestorable (file_storage short) n
create-first_file_example =
    create-first_file plain short "data" empty_disk new_files
      (settings (file_storage short) new_files) new_files_opened refl refl
      (settings_valid (file_storage short) new_files)

create-first_memory_example :
    (n : Node MemoryStorage) × (create (settings (memory_storage short) new_memory_storage) ≡ inr n)
    × IsNewborn (settings (memory_storage short) new_memory_storage) n
    × IsRestorable (memory_storage short) n
create-first_memory_example =
    create-first_memory short (settings (memory_storage short) new_memory_storage) refl
      (settings_valid (memory_storage short) new_memory_storage)
