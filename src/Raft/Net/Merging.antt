-- ===== src/Raft/Net/Merging.antt =====
-- A follower has merged the entries of a request into its log (`HandleAppendEntries` of
-- raft/replication.go): that is a move that keeps the logs matched.
use fraud_scoring_platform.Raft.Net.Moves.{IsBehind-longer, IsMove}
use fraud_scoring_platform.Raft.Net.Joined.{
  joined-beyond, joined-IsWhole, joined-Agree, IsMatch, IsCopied,
}
use fraud_scoring_platform.Raft.Replication.Accept.{IsRequest}
use fraud_scoring_platform.Raft.Replication.Merge.{last-view}
use fraud_scoring_platform.Raft.Log.Lookup.{view-inv}
use fraud_scoring_platform.Raft.Log.Shape.{view, HasRoom}
use fraud_scoring_platform.Raft.Log.{last_entry, RaftLog, last_term, last_index}
use fraud_scoring_platform.Raft.Net.Growth.{LogMerged}
use fraud_scoring_platform.Raft.Net.Origins.{
  logs_match, Origin, AreChained, Agree-trans, IsMade-IsPast, IsMade, IsWhole, Agree, LedWell, Led,
  IsPast,
}
use fraud_scoring_platform.Raft.Net.Matched.{IsBehind, MemberWell}
use fraud_scoring_platform.Raft.Node.{Node}
use fraud_scoring_platform.Raft.Types.{AppendEntriesArgs, Entry, NodeId}
use fraud_scoring_platform.Raft.Net.{Past}
use fraud_scoring_platform.Prelude.{
  none, length, ℕ, some, dec_lt, ◌+◌, ◌∙◌, ◌<◌, sym, subst, ◌≤◌, ◌⊎◌, inl, inr, ◌≡◌, ◌∷◌, List,
  arith, refl,
}

module _ {D : Type 0} (past : List (Past D)) (i : NodeId) (n m : Node D)
    (old : MemberWell past i n) where
  abbrev longer : List (Past D)
  longer = record { owner = i; node = m } ∷ past

  longer-IsPast : IsPast past longer
  longer-IsPast p e = inr e

  module _ (args : AppendEntriesArgs) (k : LogMerged n m args) (room : HasRoom n.log) (g : Node D)
      (led : Led past args.leader_id g) (well : LedWell past g) (term : g.current_term ≡ args.term)
      (req : IsRequest args) (copied : IsCopied g.log args) (chain : AreChained past) where
    match : IsMatch n.log g.log
    match = logs_match past chain n.log g.log old.whole well.whole old.made well.made

    abbrev end : ℕ
    end = args.prev_log_index + length args.entries

    pub merged-Agree : Agree m.log g.log end
    merged-Agree =
        subst (λ l. Agree l g.log end) (sym k.log)
          (joined-Agree n.log g.log args old.whole well.whole room req k.known copied match)

    merged-beyond : (j : ℕ) → end < j → (view m.log j ≡ none) ⊎ Agree m.log n.log j
    merged-beyond =
        subst (λ l. (j : ℕ) → end < j → (view l j ≡ none) ⊎ Agree l n.log j) (sym k.log)
          (joined-beyond n.log g.log args old.whole well.whole room req k.known copied match)

    merged-IsWhole : IsWhole m.log
    merged-IsWhole =
        subst IsWhole (sym k.log)
          (joined-IsWhole n.log g.log args old.whole well.whole room req k.known copied match)

    -- An entry of the new log comes from the leader's log, or from the old one.
    merged-from :
        (d : ℕ) (x : Entry)
        → view m.log d ≡ some x
        → (Agree m.log g.log d × (view g.log d ≡ some x))
          ⊎ (Agree m.log n.log d × (view n.log d ≡ some x))
    merged-from d x at = elim (dec_lt end d) [
      | no within ↦
          inl ((λ j le. merged-Agree j (omega arith)), sym (merged-Agree d (omega arith)) ∙ at)
      | yes past_end ↦ elim (merged-beyond d past_end) [
        | inl nothing ↦ absurd (cc (nothing, at))
        | inr same ↦ inr (same, sym (same d (omega arith)) ∙ at)
      ]
    ]

    merged-IsMade : IsMade longer m.log
    merged-IsMade d x lt at = elim (merged-from d x at) [
      | inl (agree, seen) ↦
          moved g.log (IsMade-IsPast past longer longer-IsPast g.log well.made d x lt seen) agree
      | inr (agree, seen) ↦
          moved n.log (IsMade-IsPast past longer longer-IsPast n.log old.made d x lt seen) agree
    ]
      where
        moved :
            (l : RaftLog)
            → Origin longer l d x.term
            → Agree m.log l d
            → Origin longer m.log d x.term
        moved l o agree = record {
          owner = o.owner;
          node = o.node;
          led = o.led;
          index = o.index;
          term = o.term;
          agree = Agree-trans m.log l o.node.log d d (omega arith) agree o.agree;
        }

    merged-newest : last_term m.log ≤ m.current_term
    merged-newest =
        let x = last_entry m.log.first m.log.rest in
        elim (merged-from (last_index m.log) x (last-view m.log merged-IsWhole.good)) [
          | inl (agree, seen) ↦
              let (_, _, _, _, low) = view-inv g.log well.whole.good (last_index m.log) x seen in
              omega (arith, low, well.own, term, k.term)
          | inr (agree, seen) ↦
              let (_, _, _, _, low) = view-inv n.log old.whole.good (last_index m.log) x seen in
              omega (arith, low, old.newest, k.current, k.term)
        ]

    merged-IsBehind : (h : Node D) → Led past i h → IsBehind h m
    merged-IsBehind h l = ground (arith, old.behind h l, k.current, k.term, k.role)

    pub LogMerged-IsMove : IsMove past i n m
    LogMerged-IsMove = record {
      now = record {
        whole = merged-IsWhole;
        made = merged-IsMade;
        newest = merged-newest;
        some_term = λ r. absurd (r k.role);
        present = λ r. inl refl;
        behind = IsBehind-longer past i n m old merged-IsBehind;
      };
      lead = λ r. cc (r, k.role);
      ahead = λ r. cc (r, k.role);
    }
