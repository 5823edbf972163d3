-- ===== src/Raft/Net/Added.antt =====
-- A log behind whose end one entry has been put (`Propose` of raft/node.go, `becomeLeader` of
-- raft/role.go).
use fraud_scoring_platform.Raft.Log.Edit.{last_index-append, view-append, append-IsLog}
use fraud_scoring_platform.Raft.Log.Shape.{last_entry-append, Follows, HasRoom}
use fraud_scoring_platform.Raft.Net.Origins.{Agree, IsWhole}
use fraud_scoring_platform.Raft.Types.{Entry}
use fraud_scoring_platform.Raft.Log.{last_entry, last_term, last_index, RaftLog}
use fraud_scoring_platform.Raft.Log
use fraud_scoring_platform.Prelude.{[], inc64-eq-add, ap, ◌∷◌, ◌+◌, ◌≤◌, inc64, ◌≡◌, arith}

module _ (l : RaftLog) (e : Entry) (w : IsWhole l) (room : HasRoom l)
    (at : e.index ≡ inc64 (last_index l)) (newer : last_term l ≤ e.term) where
  abbrev longer : RaftLog
  longer = Log.append l (e ∷ [])

  index-added : e.index ≡ last_index l + 1
  index-added = omega (arith, at, inc64-eq-add (last_index l) room)

  added-Follows : Follows (last_entry l.first l.rest) (e ∷ [])
  added-Follows = (index-added, newer, tt)

  pub added-IsWhole : IsWhole longer
  unfolding Log.append
  added-IsWhole = record { rooted = w.rooted; good = append-IsLog l w.good (e ∷ []) added-Follows }

  pub last_index-added : last_index longer ≡ last_index l + 1
  last_index-added = omega (arith, last_index-append l w.good (e ∷ []) added-Follows)

  pub last_term-added : last_term longer ≡ e.term
  unfolding Log.append
  last_term-added = ap (λ (x : Entry). x.term) (last_entry-append l.first l.rest (e ∷ []))

  pub added-Agree : Agree longer l (last_index l)
  added-Agree j le = ground (arith, view-append l w.good room (e ∷ []) added-Follows j)
