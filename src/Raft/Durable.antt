-- ===== src/Raft/Durable.antt =====
-- What is on disk when a method of a node returns.
pub mod Held
use fraud_scoring_platform.Raft.Log.{new_raft_log, entries}
use fraud_scoring_platform.Raft.Action.{perform, Action}
use fraud_scoring_platform.Raft.Durable.Held.{perform-IsHeld, IsHeld, Sees}
use fraud_scoring_platform.Raft.Node.{Node}
use fraud_scoring_platform.Raft.Types.{ok, PersistentState, Entry}
use fraud_scoring_platform.Raft.Storage.{IsStorage, Storage}
use fraud_scoring_platform.Prelude.{◌≡◌, [], none, ◌∷◌, ap, some, Option, List, arith, refl}

-- The node saves through `s`, and the disk holds its term, vote and log.
abbrev pub IsDurable : {D : Type 0} → Storage D → Node D → Type 0
IsDurable s n = IsHeld s s.load n

-- What `restoreState` of raft/persist.go goes on with: without entries, with an empty log.
abbrev pub filled : List Entry → List Entry
filled [] = entries new_raft_log
filled (e ∷ es) = e ∷ es

abbrev pub recalled : Option PersistentState → Option PersistentState
recalled none = none
recalled (some p) = some (record p { entries = filled p.entries })

abbrev pub recall : {D : Type 0} → Storage D → D → Option PersistentState
recall s d = recalled (s.load d)

-- The node saves through `s`, and its term, vote and log are what a restart would go on with: they
-- are on the disk, or the disk is fresh, and the node too.
abbrev pub IsRestorable : {D : Type 0} → Storage D → Node D → Type 0
IsRestorable s n = IsHeld s (recall s) n

pub IsDurable-IsRestorable :
    {D : Type 0} (s : Storage D) (n : Node D) → IsDurable s n → IsRestorable s n
IsDurable-IsRestorable s n h = record { same = h.same; synced = ap recalled h.synced }

module _ {D : Type 0} (s : Storage D) (law : IsStorage s) where
  pub recalled-Sees : Sees s (recall s)
  recalled-Sees t v e es d h =
      ap recalled (law.load-save (record { current_term = t; voted_for = v; entries = e ∷ es }) d h)

  -- Over a storage that keeps its promises, from a node whose term, vote and log are on disk:
  -- whatever the node does, if it ends without a panic, the disk then holds the term, the vote and
  -- the log that the node goes on with.
  pub perform-IsDurable :
      (a : Action) (n : Node D)
      → IsDurable s n
      → (perform a n).0 ≡ ok tt
      → IsDurable s (perform a n).1
  perform-IsDurable =
      perform-IsHeld s s.load
        (λ t v e es. law.load-save (record { current_term = t; voted_for = v; entries = e ∷ es }))
