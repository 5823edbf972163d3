-- ===== src/Raft/Net/Stepped.antt =====
-- The invariant of Matched.antt after a member has moved on.
use fraud_scoring_platform.Raft.Log.{last_index}
use fraud_scoring_platform.Raft.Net.Origins.{
  LedWell-IsPast, Agree, IsMade-IsPast, IsPast, AreChained, Led,
}
use fraud_scoring_platform.Raft.Net.Moves.{IsMove}
use fraud_scoring_platform.Raft.Cluster.Ledger.{
  set_node-others, Backed-unique, Backed-Subset, Backed, Subset,
}
use fraud_scoring_platform.Raft.Cluster.Moves.{set_node_self, IsSound}
use fraud_scoring_platform.Raft.Cluster.{set_node, Cluster}
use fraud_scoring_platform.Raft.Node.{Node}
use fraud_scoring_platform.Raft.Net.Matched.{RequestWell-IsPast, LeaderWell, MemberWell, IsMatched}
use fraud_scoring_platform.Raft.Net.{AppendAnswer, Past, Net}
use fraud_scoring_platform.Raft.Types.{leader, nobody, NodeId}
use fraud_scoring_platform.Raft.Storage.{IsStorage, Storage}
use fraud_scoring_platform.Prelude.{
  ◌≤◌, sym, inl, ◌∙◌, inr, ◌⊎◌, subst, ◌∷◌, ap, ◌≡◌, ◌≢◌, Elem, List, arith, refl,
}

module _ {D : Type 0} (s : Storage D) (law : IsStorage s) (members : List NodeId)
    (real : (i : NodeId) → Elem i members → i ≢ nobody) (c : Net D) (k : IsMatched s members c)
    (i : NodeId) (at : Elem i members) (m : Node D) (d : Cluster D)
    (node : d.node ≡ set_node c.base.node i m) (sound : IsSound s members d)
    (sub : Subset c.base.history d.history) (mv : IsMove c.past i (c.base.node i) m) where
  abbrev longer : List (Past D)
  longer = record { owner = i; node = m } ∷ c.past

  node-moved : d.node i ≡ m
  node-moved = ap (λ f. f i) node ∙ set_node_self s law members real c.base.node i m

  later : IsPast c.past longer
  later p e = inr e

  -- A member of the past with the new state is the old one, or the one that moved.
  pub Led-cases : (j : NodeId) (g : Node D) → Led longer j g → ((i ≡ j) × (m ≡ g)) ⊎ Led c.past j g
  Led-cases j g l = go l.was
    where
      go : Elem (record { owner = j; node = g }) longer → ((i ≡ j) × (m ≡ g)) ⊎ Led c.past j g
      go (inl e) = inl (ap (λ (p : Past D). p.owner) e, ap (λ (p : Past D). p.node) e)
      go (inr e) = inr (record { was = e; role = l.role })

  other-MemberWell : (j : NodeId) → Elem j members → j ≢ i → MemberWell longer j (c.base.node j)
  other-MemberWell j e ne =
      let old = k.member j e in
      record {
        whole = old.whole;
        made = IsMade-IsPast c.past longer later (c.base.node j).log old.made;
        newest = old.newest;
        some_term = old.some_term;
        present = λ r. inr (old.present r);
        behind = λ g l. elim (Led-cases j g l) [
          | inl (same, _) ↦ absurd (ne (sym same))
          | inr before ↦ old.behind g before
        ];
      }

  pub new-Backed : m.role ≡ leader → Backed members d.history m.current_term i
  new-Backed r =
      subst (λ n. Backed members d.history n.current_term i) node-moved
        (sound.leads i at (ap (λ n. n.role) node-moved ∙ r))

  pub stepped-leader :
      (j : NodeId) (g : Node D) → Led longer j g → LeaderWell s members d.history longer j g
  stepped-leader j g l = elim (Led-cases j g l) [
    | inl (own, new) ↦ subst (LeaderWell s members d.history longer j) new (
        subst (λ o. LeaderWell s members d.history longer o m) own
          (let lead : m.role ≡ leader = ap (λ (n : Node D). n.role) new ∙ l.role in
            record { member = at; backed = new-Backed lead; well = mv.lead lead }))
    | inr before ↦
        let old = k.leader j g before in
        record {
          member = old.member;
          backed = Backed-Subset members c.base.history d.history sub g.current_term j old.backed;
          well = LedWell-IsPast c.past longer later g old.well;
        }
  ]

  -- A leader of the past of the same term is the same member, and had a part of the log.
  beside :
      m.role ≡ leader
      → (j : NodeId) (g : Node D) → Led c.past j g
      → g.current_term ≡ m.current_term
      → (last_index g.log ≤ last_index m.log) × Agree m.log g.log (last_index g.log)
  beside r j g l same =
      let old = k.leader j g l in
      let one =
        Backed-unique members d.node d.history m.current_term j i sound.ledger
          (subst (λ t. Backed members d.history t j) same
            (Backed-Subset members c.base.history d.history sub g.current_term j old.backed))
          (new-Backed r) in
      mv.ahead r g (subst (λ o. Led c.past o g) one l) same

  pub stepped-AreChained : AreChained longer
  stepped-AreChained a b x y lx ly same e le_x le_y = elim (Led-cases a x lx) [
    | inl (_, new_x) ↦ elim (Led-cases b y ly) [
      | inl (_, new_y) ↦ subst (λ z. Agree x.log z.log e) {x = x} (sym new_x ∙ new_y) (λ j le. refl)
      | inr old_y ↦
          let (_, agree) = beside (cc (new_x, lx.role)) b y old_y (cc (new_x, same)) in
          subst (λ z. Agree z.log y.log e) new_x (λ j le. agree j (omega arith))
    ]
    | inr old_x ↦ elim (Led-cases b y ly) [
      | inl (_, new_y) ↦
          let (_, agree) = beside (cc (new_y, ly.role)) a x old_x (cc (new_y, same)) in
          subst (λ z. Agree x.log z.log e) new_y (λ j le. sym (agree j (omega arith)))
      | inr old_y ↦ k.chained a b x y old_x old_y same e le_x le_y
    ]
  ]

  pub stepped-IsMatched :
      (rs : List AppendAnswer)
      → IsMatched s members
          (record { base = d; requests = c.requests; replies = rs; past = longer })
  stepped-IsMatched rs = record {
    sound = sound;
    member =
        subst (λ f. (j : NodeId) → Elem j members → MemberWell longer j (f j)) (sym node)
          (set_node-others members c.base.node i m (MemberWell longer) mv.now other-MemberWell);
    leader = stepped-leader;
    chained = stepped-AreChained;
    request = λ args e. RequestWell-IsPast c.past longer later args (k.request args e);
  }
