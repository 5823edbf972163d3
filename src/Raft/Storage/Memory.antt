-- ===== src/Raft/Storage/Memory.antt =====
-- `MemoryStorage` of raft/persist.go. Its lock is held throughout each method, so a method is one
-- step.
use fraud_scoring_platform.Raft.Storage.{Storage, IsStorage}
use fraud_scoring_platform.Raft.Storage.Codec.{Bytes, Codec, IsCodec, zero_state}
use fraud_scoring_platform.Raft.Types.{PersistentState}
use fraud_scoring_platform.Prelude.{
  inr, inl, ◌⊎◌, Option-cases, ℕ, Bool, true, false, Option, none, some, length, ◌≡◌, arith,
}

-- none is the nil slice: nothing has been saved.
pub record MemoryStorage : Type 0 where
  pub state : Option Bytes

abbrev pub new_memory_storage : MemoryStorage
new_memory_storage = record { state = none }

module _ (c : Codec) where
  abbrev pub keep : Option Bytes → MemoryStorage → Bool × MemoryStorage
  keep none m = (false, m)
  keep (some st) m = (true, record { state = some st })

  unfoldable pub save_memory : PersistentState → MemoryStorage → Bool × MemoryStorage
  save_memory state m = keep (c.encode_gob state) m

  abbrev pub decode_memory : Option Bytes → Option PersistentState
  decode_memory none = some zero_state
  decode_memory (some st) = c.decode_gob st

  unfoldable pub load_memory : MemoryStorage → Option PersistentState
  load_memory m = decode_memory m.state

  abbrev pub memory_storage : Storage MemoryStorage
  memory_storage = record { save = save_memory; load = load_memory }

abbrev pub size_of : Option Bytes → ℕ
size_of none = 0
size_of (some st) = length st

unfoldable pub memory_size : MemoryStorage → ℕ
memory_size m = size_of m.state

-- `bytes.Clone`: bytes are values here, so the copy shares nothing.
unfoldable pub clone : MemoryStorage → MemoryStorage
clone m = record { state = m.state }

module _ (c : Codec) (law : IsCodec c) where
  load-save :
      (p : PersistentState) (m : MemoryStorage)
      → (save_memory c p m).0 ≡ true
      → load_memory c (save_memory c p m).1 ≡ some p
  unfolding load_memory save_memory
  load-save p m h = elim (Option-cases (c.encode_gob p)) [
    | inl failed ↦ ground (arith, failed)
    | inr (b, e) ↦ rw e (law.decode-encode p b e)
  ]

  atomic :
      (p : PersistentState) (m : MemoryStorage)
      → (load_memory c (save_memory c p m).1 ≡ load_memory c m)
        ⊎ (load_memory c (save_memory c p m).1 ≡ some p)
  unfolding load_memory save_memory
  atomic p m = elim (Option-cases (c.encode_gob p)) [
    | inl failed ↦ inl (rw failed)
    | inr (b, e) ↦ inr (rw e (law.decode-encode p b e))
  ]

  -- With an encoding whose results can be decoded, MemoryStorage is a storage in the sense of
  -- `Storage`: what a successful save was given is what `Load` returns, and a save that fails
  -- leaves the old state or the new one to be loaded.
  pub memory_storage-IsStorage : IsStorage (memory_storage c)
  memory_storage-IsStorage = record { load-save = load-save; atomic = atomic }
