-- ===== src/Raft/Net/Remember.antt =====
-- What a member has stored it keeps until a later leader overwrites it (`HandleAppendEntries` of
-- raft/replication.go).
use fraud_scoring_platform.Raft.Net.Complete.{HasAt-Agree}
use fraud_scoring_platform.Raft.Replication.Accept.{IsRequest}
use fraud_scoring_platform.Raft.Log.Lookup.{view-inv}
use fraud_scoring_platform.Raft.Net.Joined.{joined-kept, IsMatch, IsCopied, HasAt-inv}
use fraud_scoring_platform.Raft.Net.Growth.{LogMerged}
use fraud_scoring_platform.Raft.Net.Matched.{MemberWell}
use fraud_scoring_platform.Raft.Net.Fresh.{PastWell, Covers, IsBroken}
use fraud_scoring_platform.Raft.Replication.Merge.{has_at, HasAt}
use fraud_scoring_platform.Raft.Node.{Node}
use fraud_scoring_platform.Raft.Types.{Entry, AppendEntriesArgs, NodeId}
use fraud_scoring_platform.Raft.Log.Shape.{view, HasRoom, IsLog}
use fraud_scoring_platform.Raft.Net.Origins.{
  IsWhole-start, logs_match, Agree, AreChained, LedWell, Led, IsMade-IsPast, Led-IsPast, IsPast,
}
use fraud_scoring_platform.Raft.Net.{Past}
use fraud_scoring_platform.Raft.Log.{last_index, last_term, RaftLog}
use fraud_scoring_platform.Prelude.{
  zero, ◌∙◌, suc, sym, Bool-cases, subst, some, ◌+◌, ◌⊎◌, inl, ◌≡◌, dec_lt, inr, ◌∷◌, ◌≤◌, ℕ, List,
  arith,
}

pub IsBroken-IsPast :
    {D : Type 0} (ps qs : List (Past D))
    → IsPast ps qs
    → (i t u w : ℕ) → u ≤ w
    → IsBroken ps i t u
    → IsBroken qs i t w
IsBroken-IsPast ps qs sub i t u w le b = record {
  owner = b.owner;
  node = b.node;
  led = Led-IsPast ps qs sub b.owner b.node b.led;
  above = b.above;
  below = omega (arith, b.below);
  lacks = b.lacks;
}

pub PastWell-IsPast :
    {D : Type 0} (ps qs : List (Past D))
    → IsPast ps qs
    → (p : Node D) → PastWell ps p
    → PastWell qs p
PastWell-IsPast ps qs sub p w = record {
  whole = w.whole;
  made = IsMade-IsPast ps qs sub p.log w.made;
}

-- What a log has is no more up to date than its end.
pub HasAt-Covers :
    (l : RaftLog) (i t : ℕ) → IsLog l → HasAt l i t → Covers (last_term l) (last_index l) t i
HasAt-Covers l i t good has =
    let (x, seen, same) = HasAt-inv l i t has in
    let (_, hi, _, _, low) = view-inv l good i x seen in
    elim (dec_lt t (last_term l)) [ yes lt ↦ inl lt | no ge ↦ inr (omega (arith, low, same), hi) ]

module _ {D : Type 0} (past : List (Past D)) (i : NodeId) (n m : Node D)
    (old : MemberWell past i n) where
  abbrev longer : List (Past D)
  longer = record { owner = i; node = m } ∷ past

  later : IsPast past longer
  later p e = inr e

  module _ (args : AppendEntriesArgs) (k : LogMerged n m args) (room : HasRoom n.log) (g : Node D)
      (led : Led past args.leader_id g) (well : LedWell past g) (term : g.current_term ≡ args.term)
      (req : IsRequest args) (copied : IsCopied g.log args) (chain : AreChained past) where
    match : IsMatch n.log g.log
    match = logs_match past chain n.log g.log old.whole well.whole old.made well.made

    -- The log stays as far as it is the leader's.
    pub merged-kept :
        (e : ℕ)
        → e ≤ last_index n.log
        → ((j : ℕ) → j ≤ e → j ≤ last_index g.log → view n.log j ≡ view g.log j)
        → Agree m.log n.log e
    merged-kept =
        subst
          (λ l.
            (e : ℕ)
            → e ≤ last_index n.log
            → ((j : ℕ) → j ≤ e → j ≤ last_index g.log → view n.log j ≡ view g.log j)
            → Agree l n.log e)
          (sym k.log)
          (joined-kept n.log g.log args old.whole well.whole room req k.known copied match)

    -- An entry of the leader's term is the leader's.
    same-term :
        (e : ℕ) (x : Entry)
        → view n.log e ≡ some x
        → x.term ≡ g.current_term
        → (j : ℕ) → j ≤ e
        → j ≤ last_index g.log
        → view n.log j ≡ view g.log j
    same-term zero x seen own j le _ = IsWhole-start n.log g.log old.whole well.whole j le
    same-term (suc e) x seen own j le inside =
        let o = old.made (suc e) x (omega arith) seen in
        o.agree j le
        ∙ chain o.owner args.leader_id o.node g o.led led (o.term ∙ own) j (omega (arith, o.index))
            inside j (omega arith)

    pub merged-remembers :
        (e t : ℕ)
        → t ≤ n.current_term
        → HasAt n.log e t
        → HasAt m.log e t ⊎ IsBroken longer e t (m.current_term + 1)
    merged-remembers e t le has =
        let (x, seen, own) = HasAt-inv n.log e t has in
        let (_, inside, _, _, _) = view-inv n.log old.whole.good e x seen in
        elim (dec_lt t g.current_term) [
          | no same ↦ inl (
              HasAt-Agree m.log n.log e e t
                (merged-kept e inside
                  (same-term e x seen (omega (arith, own, same, le, k.current, term))))
                (omega arith) has)
          | yes above ↦ elim (Bool-cases (has_at g.log e t)) [
            | inl there ↦
                let (y, at, t_y) = HasAt-inv g.log e t (ground (arith, there)) in
                inl (
                  HasAt-Agree m.log n.log e e t
                    (merged-kept e inside (λ j lt _. match e x y seen at (own ∙ sym t_y) j lt))
                    (omega arith) has)
            | inr lacks ↦ inr (record {
              owner = args.leader_id;
              node = g;
              led = Led-IsPast past longer later args.leader_id g led;
              above = above;
              below = omega (arith, term, k.term);
              lacks = lacks;
            })
          ]
        ]
