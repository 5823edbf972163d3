-- ===== src/Raft/Log.antt =====
-- raft/log.go: the in-memory log, with its sentinel in front.
-- The slice is never empty (every constructor of a log puts a sentinel there), so it is kept as
-- its first entry and the rest. An int that indexes the slice is kept as its bit pattern: no slice
-- has 2 ^ 63 elements, so a negative one is out of range either way. A bound of a slice expression
-- is held against the length; the code never reslices into spare capacity.
pub mod Shape
pub mod Lookup
pub mod Edit
pub mod Order
use fraud_scoring_platform.Prelude.{
  ℕ, ◌-◌, Bool, true, false, ◌&&◌, ◌||◌, Option, none, some, List, [], ◌∷◌, ◌++◌, reverse, length,
  get_elem?, take, drop, ltb, leb, ◌==◌, not, if◌then◌else◌, inc64, sub64,
}
use fraud_scoring_platform.Raft.Types.{
  Entry, Outcome, ok, panic, compacted_read, compacted_truncate, out_of_range,
}

pub record RaftLog : Type 0 where
  pub first : Entry
  pub rest : List Entry

abbrev pub entries : RaftLog → List Entry
entries l = l.first ∷ l.rest

-- `Entry{Index: index, Term: term}`, whose command is nil.
abbrev pub sentinel : ℕ → ℕ → Entry
sentinel index term = record { index = index; term = term; command = [] }

abbrev pub new_raft_log : RaftLog
new_raft_log = record { first = sentinel 0 0; rest = [] }

abbrev pub last_entry : Entry → List Entry → Entry
last_entry e [] = e
last_entry e (x ∷ xs) = last_entry x xs

abbrev pub snapshot_index : RaftLog → ℕ
snapshot_index l = l.first.index

abbrev pub snapshot_term : RaftLog → ℕ
snapshot_term l = l.first.term

abbrev pub last_index : RaftLog → ℕ
last_index l = (last_entry l.first l.rest).index

abbrev pub last_term : RaftLog → ℕ
last_term l = (last_entry l.first l.rest).term

unfoldable pub log_pos : RaftLog → ℕ → ℕ
unfolding sub64
log_pos l i = sub64 i (snapshot_index l)

-- `l.entries[p].Term`
abbrev pub term_at : Option Entry → Outcome (ℕ × Bool)
term_at none = panic out_of_range
term_at (some e) = ok (e.term, true)

unfoldable pub log_term : RaftLog → ℕ → Outcome (ℕ × Bool)
unfolding log_pos
log_term l i =
    if ltb i (snapshot_index l) || ltb (last_index l) i
    then ok (0, false)
    else term_at (get_elem? (entries l) (log_pos l i))

unfoldable pub entries_from : RaftLog → ℕ → ℕ → Outcome (List Entry)
entries_from l lo limit =
    if leb lo (snapshot_index l)
    then panic compacted_read
    else if ltb (last_index l) lo
    then ok []
    else if ltb (length (entries l)) (log_pos l lo)
    then panic out_of_range
    else let src = drop (log_pos l lo) (entries l) in
      if ltb 0 limit && ltb limit (length src) then ok (take limit src) else ok src

unfoldable pub append : RaftLog → List Entry → RaftLog
append l es = record l { rest = l.rest ++ es }

-- The position is at least 1 past the first guard, so the sentinel stays.
unfoldable pub truncate_from : RaftLog → ℕ → Outcome RaftLog
truncate_from l i =
    if leb i (snapshot_index l)
    then panic compacted_truncate
    else if ltb (last_index l) i
    then ok l
    else if ltb (length (entries l)) (log_pos l i)
    then panic out_of_range
    else ok (record l { rest = take (log_pos l i - 1) l.rest })

abbrev pub same_term : ℕ → Outcome (ℕ × Bool) → Outcome Bool
same_term t (ok (u, found)) = ok (found && u == t)
same_term t (panic p) = panic p

unfoldable pub matches : RaftLog → ℕ → ℕ → Outcome Bool
unfolding log_term
matches l index t = same_term t (log_term l index)

unfoldable pub is_up_to_date : RaftLog → ℕ → ℕ → Bool
is_up_to_date l term index =
    if not (term == last_term l) then ltb (last_term l) term else leb (last_index l) index

-- The loop over positions from the last down to 1, on the entries in that order.
unfoldable pub scan_down : ℕ → List Entry → Option ℕ
scan_down t [] = none
scan_down t (e ∷ es) =
    if e.term == t then some e.index else if ltb e.term t then none else scan_down t es

unfoldable pub last_index_of_term : RaftLog → ℕ → Option ℕ
unfolding scan_down
last_index_of_term l t = scan_down t (reverse l.rest)

unfoldable pub compact_to : RaftLog → ℕ → ℕ → Outcome RaftLog
compact_to l index t =
    let from = inc64 (log_pos l index) in
    if ltb (length (entries l)) from
    then panic out_of_range
    else ok (record { first = sentinel index t; rest = drop from (entries l) })

unfoldable pub reset : RaftLog → ℕ → ℕ → RaftLog
reset l index t = record { first = sentinel index t; rest = [] }
