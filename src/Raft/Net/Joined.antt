-- ===== src/Raft/Net/Joined.antt =====
-- A log into which a follower has merged the entries that a leader sent (`HandleAppendEntries` of
-- raft/replication.go).
use fraud_scoring_platform.Raft.Replication.Accept.{known-Continues, prev_entry}
use fraud_scoring_platform.Raft.Log.Lookup.{term_of}
use fraud_scoring_platform.Raft.Replication.Splice.{
  merged-IsSpliced, AreSame, merged-same, IsSpliced,
}
use fraud_scoring_platform.Raft.Replication.Accept.{IsRequest}
use fraud_scoring_platform.Raft.Log.Shape.{Follows, view_in, HasRoom, view}
use fraud_scoring_platform.Raft.Net.Origins.{Agree, IsWhole}
use fraud_scoring_platform.Raft.Replication.Merge.{merged_lem, merged, Continues, has_at, HasAt}
use fraud_scoring_platform.Raft.Types.{Entry, AppendEntriesArgs}
use fraud_scoring_platform.Raft.Log.{last_index, RaftLog}
use fraud_scoring_platform.Prelude.{
  [], ◌∷◌, List, ap, ◌⊎◌, sym, ◌∙◌, dec_lt, none, true, Option, ◌<◌, some, ◌≡◌, ◌≤◌, length, ◌+◌, ℕ,
  arith, refl,
}

-- The entries of the request stand in the log `g`, and so does the one before them.
pub record IsCopied (g : RaftLog) (args : AppendEntriesArgs) : Type 0 where
  pub inside : args.prev_log_index + length args.entries ≤ last_index g
  pub known : HasAt g args.prev_log_index args.prev_log_term
  pub same :
      (j : ℕ)
      → args.prev_log_index < j
      → j ≤ args.prev_log_index + length args.entries
      → view_in j args.entries ≡ view g j

-- Entries of one index and term in the two logs have the same before them.
abbrev pub IsMatch : RaftLog → RaftLog → Type 0
IsMatch l g =
    (d : ℕ) (x y : Entry) → view l d ≡ some x → view g d ≡ some y → x.term ≡ y.term → Agree l g d

pub HasAt-inv :
    (l : RaftLog) (d t : ℕ) → HasAt l d t → (x : Entry) × (view l d ≡ some x) × (x.term ≡ t)
HasAt-inv l d t h = go (view l d) refl h
  where
    go :
        (o : Option Entry)
        → view l d ≡ o
        → term_of o ≡ (t, true)
        → (x : Entry) × (view l d ≡ some x) × (x.term ≡ t)
    go none a b = ground (arith, b)
    go (some x) a b = (x, a, ap (λ p. p.0) b)

copied-AreSame :
    (l g : RaftLog)
    → IsMatch l g
    → (p : Entry) (es : List Entry) → Follows p es
    → ((j : ℕ) → p.index < j → j ≤ p.index + length es → view_in j es ≡ view g j)
    → AreSame l es
unfolding view_in
copied-AreSame l g match p [] h same = tt
copied-AreSame l g match p (e ∷ es) h same = (
  λ there.
      let (x, at, t) = HasAt-inv l e.index e.term there in
      let sent : view g e.index ≡ some e = ground (arith, same e.index, h.0) in
      match e.index x e at sent t e.index (omega arith) ∙ sent,
  copied-AreSame l g match e es h.2 (λ j lo hi. ground (arith, same j, h.0)),
)

module _ (l g : RaftLog) (args : AppendEntriesArgs) (w : IsWhole l) (v : IsWhole g)
    (room : HasRoom l) (req : IsRequest args)
    (known : has_at l args.prev_log_index args.prev_log_term ≡ true) (copied : IsCopied g args)
    (match : IsMatch l g) where
  abbrev joined : RaftLog
  joined = merged l args.entries

  abbrev end : ℕ
  end = args.prev_log_index + length args.entries

  continues : Continues l (prev_entry args) args.entries
  continues = known-Continues l w.good room args req known

  before-Agree : Agree l g args.prev_log_index
  before-Agree =
      let (x, at_x, t) = HasAt-inv l args.prev_log_index args.prev_log_term (ground arith) in
      let (y, at_y, u) = HasAt-inv g args.prev_log_index args.prev_log_term copied.known in
      match args.prev_log_index x y at_x at_y (t ∙ sym u)

  alike : AreSame l args.entries
  alike = copied-AreSame l g match (prev_entry args) args.entries req.follow copied.same

  spliced : IsSpliced l (prev_entry args) args.entries joined
  spliced = merged-IsSpliced args.entries l (prev_entry args) w.good room continues alike

  pub joined-Agree : Agree joined g end
  joined-Agree j le = elim (dec_lt args.prev_log_index j) [
    | yes lo ↦ spliced.stored j lo le ∙ copied.same j lo le
    | no hi ↦
        (merged_lem args.entries l (prev_entry args) w.good room continues).before j (omega arith)
        ∙ before-Agree j (omega arith)
  ]

  pub joined-beyond : (j : ℕ) → end < j → (view joined j ≡ none) ⊎ Agree joined l j
  joined-beyond = spliced.beyond

  pub joined-IsWhole : IsWhole joined
  joined-IsWhole = record {
    rooted = spliced.first ∙ w.rooted;
    good = (merged_lem args.entries l (prev_entry args) w.good room continues).good;
  }

  -- As far as the two logs are the same, nothing changes.
  pub joined-kept :
      (k : ℕ)
      → k ≤ last_index l
      → ((j : ℕ) → j ≤ k → j ≤ last_index g → view l j ≡ view g j)
      → Agree joined l k
  joined-kept k le same =
      merged-same l (prev_entry args) args.entries k w.good room continues alike le
        (λ j lo hi below. same j below (omega (arith, copied.inside)) ∙ sym (copied.same j lo hi))
