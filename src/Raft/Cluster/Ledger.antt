-- ===== src/Raft/Cluster/Ledger.antt =====
-- The votes that the nodes of a cluster have given, and who has a majority of them.
use fraud_scoring_platform.Raft.Vote.{VoteKept}
use fraud_scoring_platform.Raft.Cluster.{Grant, VoteAnswer, Tally, set_node}
use fraud_scoring_platform.Raft.Cluster.Majority.{Distinct, IsMajority, majorities_meet}
use fraud_scoring_platform.Raft.Types.{nobody, NodeId}
use fraud_scoring_platform.Raft.Node.{Node}
use fraud_scoring_platform.Prelude.{
  Elem, Elem-All, ◌∙◌, ap, inr, eq_iff, sym, subst, inl, str_eq, length, arith, true, Bool-cases,
  ◌≡◌, All, ◌⊎◌, ◌<◌, ◌≢◌, List, ℕ, [], ◌∷◌,
}

abbrev pub grant : NodeId → ℕ → NodeId → Grant
grant v t c = record { voter = v; term = t; candidate = c }

-- The node's vote in term `t` is `c`, or it has left that term.
abbrev pub Gave : {D : Type 0} → Node D → ℕ → NodeId → Type 0
Gave n t c = (t < n.current_term) ⊎ ((n.current_term ≡ t) × (n.voted_for ≡ c))

Gave-kept :
    {D : Type 0} (n m : Node D) (t : ℕ) (c : NodeId)
    → c ≢ nobody
    → VoteKept n m
    → Gave n t c
    → Gave m t c
Gave-kept n m t c real k g = ground arith

abbrev pub Subset : List Grant → List Grant → Type 0
Subset h k = (g : Grant) → Elem g h → Elem g k

-- After one node is replaced, what holds of it and of the others holds of all members.
pub set_node-others :
    {D : Type 0} (members : List NodeId) (f : NodeId → Node D) (i : NodeId) (n : Node D)
    (P : NodeId → Node D → Type 0)
    → P i n
    → ((j : NodeId) → Elem j members → j ≢ i → P j (f j))
    → (j : NodeId) → Elem j members
    → P j (set_node f i n j)
set_node-others members f i n P new old j e = elim (Bool-cases (str_eq j i)) [
  | inl same ↦ rw same (subst (λ k. P k n) (sym ((eq_iff j i).0 same)) new)
  | inr other ↦ rw other (old j e (λ k. cc (other, (eq_iff j i).1 k)))
]

pub set_node-all :
    {D : Type 0} (members : List NodeId) (f : NodeId → Node D) (i : NodeId) (n : Node D)
    (P : NodeId → Node D → Type 0)
    → P i n
    → ((j : NodeId) → Elem j members → P j (f j))
    → (j : NodeId) → Elem j members
    → P j (set_node f i n j)
set_node-all members f i n P new old j e =
    set_node-others members f i n P new (λ k at ne. old k at) j e

module _ (members : List NodeId) where
  -- A majority has voted for `c` in term `t`.
  pub record Backed (h : List Grant) (t : ℕ) (c : NodeId) : Type 0 where
    pub voters : List NodeId
    pub majority : IsMajority members voters
    pub gave : All (λ v. Elem (grant v t c) h) voters

  pub record TallyOk (h : List Grant) (t : Tally) : Type 0 where
    pub owner : Elem t.args.candidate_id members
    pub counts : t.votes ≡ length t.voters
    pub distinct : Distinct t.voters
    pub inside : All (λ v. Elem v members) t.voters
    pub gave : All (λ v. Elem (grant v t.args.term t.args.candidate_id) h) t.voters
    pub apart : (p : NodeId) → Elem p t.waiting → Elem p members × (¬ Elem p t.voters)

  pub record AnswerOk (h : List Grant) (a : VoteAnswer) : Type 0 where
    pub granted :
        a.answer.vote_granted ≡ true
        → Elem a.voter members × Elem (grant a.voter a.args.term a.args.candidate_id) h
    pub owner : Elem a.args.candidate_id members

  -- What the ledger says of a vote is what its voter remembers.
  pub record GrantOk {D : Type 0} (f : NodeId → Node D) (g : Grant) : Type 0 where
    pub voter : Elem g.voter members
    pub candidate : Elem g.candidate members
    pub gave : Gave (f g.voter) g.term g.candidate

  -- Nobody votes twice in a term.
  pub record IsLedger {D : Type 0} (f : NodeId → Node D) (h : List Grant) : Type 0 where
    pub kept : All (GrantOk f) h
    pub single :
        (v : NodeId) (t : ℕ) (a b : NodeId) → Elem (grant v t a) h → Elem (grant v t b) h → a ≡ b

  module _ (h k : List Grant) (sub : Subset h k) where
    gave-Subset :
        (t : ℕ) (c : NodeId) (vs : List NodeId)
        → All (λ v. Elem (grant v t c) h) vs
        → All (λ v. Elem (grant v t c) k) vs
    gave-Subset t c [] x = tt
    gave-Subset t c (v ∷ vs) x = (sub (grant v t c) x.0, gave-Subset t c vs x.1)

    pub Backed-Subset : (t : ℕ) (c : NodeId) → Backed h t c → Backed k t c
    Backed-Subset t c b = record {
      voters = b.voters;
      majority = b.majority;
      gave = gave-Subset t c b.voters b.gave;
    }

    pub TallyOk-Subset : (t : Tally) → TallyOk h t → TallyOk k t
    TallyOk-Subset t x = record {
      owner = x.owner;
      counts = x.counts;
      distinct = x.distinct;
      inside = x.inside;
      gave = gave-Subset t.args.term t.args.candidate_id t.voters x.gave;
      apart = x.apart;
    }

    pub AnswerOk-Subset : (a : VoteAnswer) → AnswerOk h a → AnswerOk k a
    AnswerOk-Subset a x = record {
      granted = λ e.
          let (inside, gave) = x.granted e in
          (inside, sub (grant a.voter a.args.term a.args.candidate_id) gave);
      owner = x.owner;
    }

  -- Two nodes that majorities have backed in one term are one.
  pub Backed-unique :
      {D : Type 0} (f : NodeId → Node D) (h : List Grant) (t : ℕ) (a b : NodeId)
      → IsLedger f h
      → Backed h t a
      → Backed h t b
      → a ≡ b
  Backed-unique f h t a b l x y =
      let (v, in_x, in_y) = majorities_meet members x.voters y.voters x.majority y.majority in
      l.single v t a b (Elem-All (λ w. Elem (grant w t a) h) x.voters v x.gave in_x)
        (Elem-All (λ w. Elem (grant w t b) h) y.voters v y.gave in_y)

  module _ {D : Type 0} where
    -- The ledger stays true when nodes move on and keep their votes.
    pub IsLedger-kept :
        (real : (i : NodeId) → Elem i members → i ≢ nobody) (f g : NodeId → Node D)
        → ((i : NodeId) → Elem i members → VoteKept (f i) (g i))
        → (h : List Grant) → IsLedger f h
        → IsLedger g h
    IsLedger-kept real f g ev h l = record { kept = all h l.kept; single = l.single }
      where
        all : (k : List Grant) → All (GrantOk f) k → All (GrantOk g) k
        all [] x = tt
        all (r ∷ k) x = (
          record {
            voter = x.0.voter;
            candidate = x.0.candidate;
            gave =
                Gave-kept (f r.voter) (g r.voter) r.term r.candidate
                  (real r.candidate x.0.candidate) (ev r.voter x.0.voter) x.0.gave;
          },
          all k x.1,
        )

    -- A node's vote of its current term can be entered.
    pub IsLedger-add :
        (f : NodeId → Node D) (h : List Grant) (i : NodeId) (t : ℕ) (c : NodeId)
        → IsLedger f h
        → Elem i members
        → Elem c members
        → (f i).current_term ≡ t
        → (f i).voted_for ≡ c
        → IsLedger f (grant i t c ∷ h)
    IsLedger-add f h i t c l in_i in_c at for = record {
      kept = (record { voter = in_i; candidate = in_c; gave = inr (at, for) }, l.kept);
      single = one;
    }
      where
        -- An older entry of the same term is for the same node.
        same :
            (v : NodeId) (u : ℕ) (a b : NodeId)
            → grant i t c ≡ grant v u a
            → Elem (grant v u b) h
            → a ≡ b
        same v u a b e old =
            let k = Elem-All (GrantOk f) h (grant v u b) l.kept old in
            let gave = subst (λ w. Gave (f w) u b) (sym (ap (λ g. g.voter) e)) k.gave in
            ground (arith, gave, ap (λ g. g.term) e, ap (λ g. g.candidate) e)

        one :
            (v : NodeId) (u : ℕ) (a b : NodeId)
            → Elem (grant v u a) (grant i t c ∷ h)
            → Elem (grant v u b) (grant i t c ∷ h)
            → a ≡ b
        one v u a b (inl x) (inl y) = ap (λ g. g.candidate) (sym x ∙ y)
        one v u a b (inl x) (inr y) = same v u a b x y
        one v u a b (inr x) (inl y) = sym (same v u b a y x)
        one v u a b (inr x) (inr y) = l.single v u a b x y
