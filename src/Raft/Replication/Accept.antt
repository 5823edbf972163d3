-- ===== src/Raft/Replication/Accept.antt =====
-- `HandleAppendEntries` of raft/replication.go, on each of its branches.
use fraud_scoring_platform.Raft.Action.Frame.{store_entries-commit_index, OnlySave}
use fraud_scoring_platform.Raft.Log.Edit.{truncate_from-eq-cut}
use fraud_scoring_platform.Raft.Log
use fraud_scoring_platform.Raft.Log.Lookup.{
  matches_lem, view-eq-some, view-eq-none, term_of, log_term_lem,
}
use fraud_scoring_platform.Raft.Log.{last_index, snapshot_index, sentinel}
use fraud_scoring_platform.Raft.Node.{Node, persist}
use fraud_scoring_platform.Raft.Log.Shape.{view_in-eq-none, view, HasRoom, IsLog, Follows}
use fraud_scoring_platform.Raft.Replication.Merge.{skip-Continues, has_at, Continues, kept, merged}
use fraud_scoring_platform.Raft.Replication.{accept_entries, store_entries, overwrite}
use fraud_scoring_platform.Raft.Types.{reply, save_failed, panic, Entry, ok, AppendEntriesArgs}
use fraud_scoring_platform.Prelude.{
  add64-eq-add, min, max, ◌⊎◌, false, true, ℕ, le→ltb, lt→ltb, dec_lt, refl, inl, arith, inr,
  Bool-cases, ◌≡◌, u64_mod, ◌<◌, length, ◌+◌, List, [], ◌∷◌,
}

-- The entry before the new ones, as the request names it.
abbrev pub prev_entry : AppendEntriesArgs → Entry
prev_entry args = sentinel args.prev_log_index args.prev_log_term

-- A request whose entries follow the one before them, and end below 2 ^ 64.
pub record IsRequest (args : AppendEntriesArgs) : Type 0 where
  pub follow : Follows (prev_entry args) args.entries
  pub fits : args.prev_log_index + length args.entries < u64_mod

pub known-Continues :
    (l : Log.RaftLog)
    → IsLog l
    → HasRoom l
    → (args : AppendEntriesArgs) → IsRequest args
    → has_at l args.prev_log_index args.prev_log_term ≡ true
    → Continues l (prev_entry args) args.entries
known-Continues l good room args req h =
    let i = args.prev_log_index in
    let low = view_in-eq-none i l.first l.rest good in
    let high = view-eq-none l good i in
    record {
      above = ground (arith, low);
      inside = ground (arith, high);
      known = ground arith;
      follow = req.follow;
    }

module _ {D : Type 0} where
  overwrite-log :
      (n : Node D) (e : Entry) (es : List Entry)
      → IsLog n.log
      → HasRoom n.log
      → snapshot_index n.log < e.index
      → ((overwrite (term_of (view n.log e.index)).1 e es n).1.log
          ≡ Log.append (kept n.log e.index) (e ∷ es))
        × OnlySave (overwrite (term_of (view n.log e.index)).1 e es n).0
  unfolding overwrite persist kept
  overwrite-log n e es good room lo = elim (dec_lt (last_index n.log) e.index) [
    | yes past ↦ rw (view-eq-none n.log good e.index past, lt→ltb _ _ past) (refl, ground arith)
    | no inside ↦
        let (x, seen, _, _, _) = view-eq-some n.log good e.index (omega arith) (omega arith) in
        rw
          (
            seen,
            truncate_from-eq-cut n.log good room e.index lo (omega arith),
            le→ltb (last_index n.log) e.index (omega arith),
          )
          (refl, ground arith)
  ]

  pub store_entries_lem :
      (es : List Entry) (n : Node D) (p : Entry)
      → IsLog n.log
      → HasRoom n.log
      → Continues n.log p es
      → ((store_entries es n).1.log ≡ merged n.log es) × OnlySave (store_entries es n).0
  unfolding store_entries merged
  store_entries_lem [] n p good room c = (refl, tt)
  store_entries_lem (e ∷ es) n p good room c =
      rw (log_term_lem n.log good room e.index) (elim (Bool-cases (has_at n.log e.index e.term)) [
        | inr new ↦ rw new (overwrite-log n e es good room (omega (arith, c.above, c.follow)))
        | inl old ↦
            rw old
              (store_entries_lem es n e good room (skip-Continues n.log good room p e es c old))
      ])

  -- The answer to a request whose entries continue the log's: an unsaved log is a panic.
  pub accept_entries-known :
      (n : Node D) (args : AppendEntriesArgs) (t : ℕ)
      → IsLog n.log
      → HasRoom n.log
      → IsRequest args
      → has_at n.log args.prev_log_index args.prev_log_term ≡ true
      → ((accept_entries args t n).1.log ≡ merged n.log args.entries)
        × (((accept_entries args t n).0 ≡ panic save_failed)
            ⊎ (((accept_entries args t n).0 ≡ ok (reply (record { term = t; success = true })))
                × ((accept_entries args t n).1.commit_index
                    ≡ max n.commit_index
                        (min args.leader_commit (args.prev_log_index + length args.entries)))))
  unfolding accept_entries
  accept_entries-known n args t good room req h =
      let c = known-Continues n.log good room args req h in
      ground (
        arith,
        matches_lem n.log good room args.prev_log_index args.prev_log_term,
        store_entries_lem args.entries n (prev_entry args) good room c,
        store_entries-commit_index args.entries n,
        add64-eq-add args.prev_log_index (length args.entries) req.fits,
      )

  pub accept_entries-unknown :
      (n : Node D) (args : AppendEntriesArgs) (t : ℕ)
      → IsLog n.log
      → HasRoom n.log
      → has_at n.log args.prev_log_index args.prev_log_term ≡ false
      → accept_entries args t n ≡ (ok (reply (record { term = t; success = false })), n)
  unfolding accept_entries
  accept_entries-unknown n args t good room h =
      ground (arith, matches_lem n.log good room args.prev_log_index args.prev_log_term)
