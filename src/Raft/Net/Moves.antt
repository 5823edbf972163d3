-- ===== src/Raft/Net/Moves.antt =====
-- A member moves on, and its new state is added to the past (raft/*.go): each way in which its log
-- may change keeps what Matched.antt says of it.
use fraud_scoring_platform.Raft.Replication.Merge.{last-view}
use fraud_scoring_platform.Raft.Log.Lookup.{view-inv}
use fraud_scoring_platform.Raft.Net.Added.{
  last_index-added, last_term-added, added-IsWhole, added-Agree,
}
use fraud_scoring_platform.Raft.Log.Shape.{view, HasRoom}
use fraud_scoring_platform.Raft.Log.{last_entry, RaftLog, last_term, last_index}
use fraud_scoring_platform.Raft.Net.Growth.{LogGrown, LogKept}
use fraud_scoring_platform.Raft.Net.Origins.{
  Agree-trans, IsMade-IsPast, IsMade, IsWhole, Agree, LedWell, Led, IsPast,
}
use fraud_scoring_platform.Raft.Net.Matched.{IsBehind, MemberWell}
use fraud_scoring_platform.Raft.Node.{Node}
use fraud_scoring_platform.Raft.Types.{Entry, leader, NodeId}
use fraud_scoring_platform.Raft.Net.{Past}
use fraud_scoring_platform.Raft.Log
use fraud_scoring_platform.Prelude.{
  some, [], dec_lt, ◌+◌, ◌∙◌, ◌<◌, sym, subst, ap, ◌≤◌, inl, Elem, inr, ◌≡◌, ◌∷◌, List, arith, refl,
}

-- What a member's move must do to keep the logs matched; `here` is its new state as one of the past.
pub record IsMove {D : Type 0} (past : List (Past D)) (i : NodeId) (n m : Node D) : Type 0 where
  pub now : MemberWell (record { owner = i; node = m } ∷ past) i m
  pub lead : m.role ≡ leader → LedWell (record { owner = i; node = m } ∷ past) m
  -- who led as the same member in the same term had a part of the log
  pub ahead :
      m.role ≡ leader
      → (g : Node D) → Led past i g
      → g.current_term ≡ m.current_term
      → (last_index g.log ≤ last_index m.log) × Agree m.log g.log (last_index g.log)

module _ {D : Type 0} (past : List (Past D)) (i : NodeId) (n m : Node D)
    (old : MemberWell past i n) where
  abbrev longer : List (Past D)
  longer = record { owner = i; node = m } ∷ past

  pub longer-IsPast : IsPast past longer
  longer-IsPast p e = inr e

  self-Led : m.role ≡ leader → Led longer i m
  self-Led r = record { was = inl refl; role = r }

  -- The new state is behind itself.
  pub IsBehind-longer :
      ((g : Node D) → Led past i g → IsBehind g m) → (g : Node D) → Led longer i g → IsBehind g m
  IsBehind-longer h g l = go l.was
    where
      go : Elem (record { owner = i; node = g }) longer → IsBehind g m
      go (inl e) =
          let same : m ≡ g = ap (λ (p : Past D). p.node) e in
          subst (λ k. IsBehind k m) same
            (inr (refl, (λ c. cc (c, same, l.role)), (λ r. (omega arith, (λ j le. refl)))))
      go (inr e) = h g (record { was = e; role = l.role })

  ahead-of :
      ((g : Node D) → Led past i g → IsBehind g m)
      → m.role ≡ leader
      → (g : Node D) → Led past i g
      → g.current_term ≡ m.current_term
      → (last_index g.log ≤ last_index m.log) × Agree m.log g.log (last_index g.log)
  ahead-of h r g l same = elim (h g l) [
    | inl older ↦ absurd (omega (arith, older, same))
    | inr (_, _, has) ↦ has r
  ]

  module _ (k : LogKept n m) where
    kept-IsBehind : (g : Node D) → Led past i g → IsBehind g m
    kept-IsBehind g l = ground (arith, old.behind g l, k.term, k.leads, k.stands, k.log)

    pub LogKept-IsMove : (n.role ≡ leader → LedWell past n) → IsMove past i n m
    LogKept-IsMove led = record {
      now = record {
        whole = subst IsWhole (sym k.log) old.whole;
        made =
            subst (IsMade longer) (sym k.log)
              (IsMade-IsPast past longer longer-IsPast n.log old.made);
        newest = ground (arith, old.newest, k.log, k.term);
        some_term = λ r. ground (arith, old.some_term, k.term, k.stands, k.leads);
        present = λ r. inl refl;
        behind = IsBehind-longer kept-IsBehind;
      };
      lead = λ r.
          let (led_before, same) = k.leads r in
          let w = led led_before in
          record {
            whole = subst IsWhole (sym k.log) w.whole;
            made =
                subst (IsMade longer) (sym k.log)
                  (IsMade-IsPast past longer longer-IsPast n.log w.made);
            own = ground (arith, w.own, k.log, same);
            some_term = omega (arith, w.some_term, same);
            some_index = ground (arith, w.some_index, k.log);
          };
      ahead = ahead-of kept-IsBehind;
    }

  module _ (k : LogGrown n m) (room : HasRoom n.log) where
    grown-newer : last_term n.log ≤ k.entry.term
    grown-newer = ground (arith, old.newest, k.own, k.from)

    abbrev grown : RaftLog
    grown = Log.append n.log (k.entry ∷ [])

    pub grown-last : last_index m.log ≡ last_index n.log + 1
    grown-last =
        ap last_index k.log ∙ last_index-added n.log k.entry old.whole room k.index grown-newer

    pub grown-Agree : Agree m.log n.log (last_index n.log)
    grown-Agree =
        subst (λ l. Agree l n.log (last_index n.log)) (sym k.log)
          (added-Agree n.log k.entry old.whole room k.index grown-newer)

    grown-own : last_term m.log ≡ m.current_term
    grown-own =
        ap last_term k.log
        ∙ last_term-added n.log k.entry old.whole room k.index grown-newer
        ∙ k.own

    grown-IsWhole : IsWhole m.log
    grown-IsWhole =
        subst IsWhole (sym k.log) (added-IsWhole n.log k.entry old.whole room k.index grown-newer)

    grown-IsBehind : (g : Node D) → Led past i g → IsBehind g m
    grown-IsBehind g l = elim (old.behind g l) [
      | inl older ↦ inl (ground (arith, older, k.from))
      | inr (same, stands, has) ↦ elim k.from [
        | inl newer ↦ inl (omega (arith, same, newer))
        | inr (term, inr stood) ↦ absurd (stands stood)
        | inr (term, inl led) ↦ inr (
          same ∙ term,
          (λ c. cc (c, k.role)),
          λ r.
              let (le, agree) = has led in
              (
                omega (arith, le, grown-last),
                Agree-trans m.log n.log g.log (last_index g.log) (last_index n.log) le grown-Agree
                    agree,
              ),
        )
      ]
    ]

    grown-last-term : (x : Entry) → view m.log (last_index m.log) ≡ some x → x.term ≡ m.current_term
    grown-last-term x at = ground (arith, last-view m.log grown-IsWhole.good, at, grown-own)

    grown-IsMade : IsMade longer m.log
    grown-IsMade d x lt at = elim (dec_lt (last_index n.log) d) [
      | no inside ↦
          let o =
            IsMade-IsPast past longer longer-IsPast n.log old.made d x lt
              (sym (grown-Agree d (omega arith)) ∙ at) in
          record {
            owner = o.owner;
            node = o.node;
            led = o.led;
            index = o.index;
            term = o.term;
            agree =
                Agree-trans m.log n.log o.node.log d (last_index n.log) (omega arith) grown-Agree
                  o.agree;
          }
      | yes new ↦
          let (_, hi, _, index, term) = view-inv m.log grown-IsWhole.good d x at in
          record {
            owner = i;
            node = m;
            led = self-Led k.role;
            index = omega (arith, grown-last, hi);
            term = sym (
                grown-last-term x
                  (subst (λ j. view m.log j ≡ some x) (omega (arith, grown-last, hi)) at));
            agree = λ j le. refl;
          }
    ]

    grown-some_term : 0 < m.current_term
    grown-some_term = ground (arith, k.from, old.some_term)

    pub LogGrown-IsMove : IsMove past i n m
    LogGrown-IsMove = record {
      now = record {
        whole = grown-IsWhole;
        made = grown-IsMade;
        newest = omega (arith, grown-own);
        some_term = λ r. grown-some_term;
        present = λ r. inl refl;
        behind = IsBehind-longer grown-IsBehind;
      };
      lead = λ r. record {
        whole = grown-IsWhole;
        made = grown-IsMade;
        own = grown-own;
        some_term = grown-some_term;
        some_index = omega (arith, grown-last);
      };
      ahead = ahead-of grown-IsBehind;
    }
