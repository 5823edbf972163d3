-- ===== src/Raft/Net/Won.antt =====
-- A member that moves on may have won an election (raft/election.go, `becomeLeader` of
-- raft/role.go).
use fraud_scoring_platform.Raft.Replication.Merge.{last-view}
use fraud_scoring_platform.Raft.Net.Remember.{IsBroken-IsPast, PastWell-IsPast}
use fraud_scoring_platform.Raft.Net.Complete.{last_term-start}
use fraud_scoring_platform.Raft.Net.Stepped.{new-Backed, Led-cases}
use fraud_scoring_platform.Raft.Net.Matching.{LogMove-IsMove}
use fraud_scoring_platform.Raft.Log.{last_entry, last_index, last_term}
use fraud_scoring_platform.Raft.Net.Origins.{IsMade-IsPast, Agree, Led}
use fraud_scoring_platform.Raft.Net.Moves.{grown-Agree, grown-last, IsMove}
use fraud_scoring_platform.Raft.Net.Onward.{
  onward-Remembers, onward-Elected, Elem-cases, longer, onward,
}
use fraud_scoring_platform.Raft.Cluster.Ledger.{Backed-Subset, Backed, Backed-unique, Subset}
use fraud_scoring_platform.Raft.Cluster.Moves.{IsSound}
use fraud_scoring_platform.Raft.Cluster.{VoteAnswer, Tally, set_node, Cluster}
use fraud_scoring_platform.Raft.Net.Growth.{LogGrown, LogMove}
use fraud_scoring_platform.Raft.Net.Fresh.{
  Remembers, TallyFresh, Elected, VoteFresh, PastWell, IsComplete,
}
use fraud_scoring_platform.Raft.Net.Matched.{IsMatched}
use fraud_scoring_platform.Raft.Net.{Past, AppendAnswer, HaveRoom, Net}
use fraud_scoring_platform.Raft.Cluster.Majority.{IsMajority, Distinct}
use fraud_scoring_platform.Raft.Types.{leader, nobody, candidate, NodeId}
use fraud_scoring_platform.Raft.Node.{Node}
use fraud_scoring_platform.Raft.Storage.{IsStorage, Storage}
use fraud_scoring_platform.Prelude.{
  [], ◌∙◌, true, ◌∷◌, inr, ap, sym, ◌≤◌, inl, dec_lt, ◌+◌, subst, All, ℕ, ◌≢◌, Elem, ◌≡◌, ◌⊎◌, List,
  ◌<◌, arith, refl,
}

-- The member has not led in its term before.
abbrev pub IsNewLeader : {D : Type 0} → Node D → Node D → Type 0
IsNewLeader n m =
    (n.current_term < m.current_term) ⊎ ((n.current_term ≡ m.current_term) × (n.role ≡ candidate))

module _ {D : Type 0} (s : Storage D) (law : IsStorage s) (members : List NodeId)
    (apart : Distinct members) (real : (i : NodeId) → Elem i members → i ≢ nobody) (c : Net D)
    (k : IsMatched s members c) (full : IsComplete members c) (room : HaveRoom s members c.base)
    (i : NodeId) (at : Elem i members) (m : Node D) (move : LogMove c.requests (c.base.node i) m)
    (d : Cluster D) (node : d.node ≡ set_node c.base.node i m) (sound : IsSound s members d)
    (sub : Subset c.base.history d.history) where
  abbrev n : Node D
  n = c.base.node i

  abbrev past' : List (Past D)
  past' = longer s members c k full room i at m move

  abbrev next : NodeId → Node D
  next = onward s members c k full room i at m move

  mv : IsMove c.past i n m
  mv = LogMove-IsMove s law members apart real c k room i at m move

  -- Nobody has led in the term that the member comes to lead in.
  no_leader :
      m.role ≡ leader
      → IsNewLeader n m
      → (w : NodeId) (g : Node D) → Led c.past w g
      → g.current_term ≢ m.current_term
  no_leader r new w g led same =
      let old = k.leader w g led in
      let one =
        Backed-unique members d.node d.history m.current_term w i sound.ledger
          (subst (λ t. Backed members d.history t w) same
            (Backed-Subset members c.base.history d.history sub g.current_term w old.backed))
          (new-Backed s law members real c k i at m d node sound sub mv r) in
      ground (arith, (k.member i at).behind g (subst (λ o. Led c.past o g) one led), new, same)

  strict :
      (last_t last_i : ℕ) (v : NodeId)
      → m.role ≡ leader
      → IsNewLeader n m
      → VoteFresh c.past next m.current_term (m.current_term + 1) last_t last_i v
      → VoteFresh past' next m.current_term m.current_term last_t last_i v
  strict last_t last_i v r new h = record {
    reached = h.reached;
    fresh = λ p e lt j has. elim (Elem-cases s members c k full room i at m move v p e) [
      | inl (_, same) ↦ absurd (omega (arith, lt, ap (λ (q : Node D). q.current_term) same))
      | inr old ↦ elim (h.fresh p old lt j has) [
        | inl covers ↦ inl covers
        | inr b ↦
            let apart_from = no_leader r new b.owner b.node b.led in
            let low = b.below in
            inr (
              IsBroken-IsPast c.past past' (λ q x. inr x) j p.current_term m.current_term
                m.current_term (omega arith)
                (record {
                  owner = b.owner;
                  node = b.node;
                  led = b.led;
                  above = b.above;
                  below = ground (arith, low, apart_from);
                  lacks = b.lacks;
                }))
      ]
    ];
  }

  strict-votes :
      (last_t last_i : ℕ) (vs : List NodeId)
      → m.role ≡ leader
      → IsNewLeader n m
      → All (VoteFresh c.past next m.current_term (m.current_term + 1) last_t last_i) vs
      → All (VoteFresh past' next m.current_term m.current_term last_t last_i) vs
  strict-votes last_t last_i [] r new h = tt
  strict-votes last_t last_i (v ∷ vs) r new h =
      (strict last_t last_i v r new h.0, strict-votes last_t last_i vs r new h.1)

  -- The log has no entry of the term yet.
  older : m.role ≡ leader → IsNewLeader n m → last_term n.log < m.current_term
  older r new = elim (dec_lt (last_term n.log) m.current_term) [
    | yes lt ↦ lt
    | no ge ↦
        let old = k.member i at in
        let some_term = (mv.lead r).some_term in
        let own : last_term n.log ≡ m.current_term = ground (arith, ge, old.newest, new) in
        elim (dec_lt 0 (last_index n.log)) [
          | no empty ↦
              absurd (omega (arith, some_term, own, last_term-start n.log old.whole (omega arith)))
          | yes some_left ↦
              let o =
                old.made (last_index n.log) (last_entry n.log.first n.log.rest) some_left
                  (last-view n.log old.whole.good) in
              absurd (no_leader r new o.owner o.node o.led (o.term ∙ own))
        ]
  ]

  pub won-Elected :
      (grown : LogGrown n m)
      → IsNewLeader n m
      → (voters : List NodeId) → IsMajority members voters
      → All
          (VoteFresh c.past next m.current_term
            (m.current_term + 1)
            (last_term n.log)
            (last_index n.log))
          voters
      → Elected members past' next m.log m.current_term
  won-Elected grown new voters majority votes = record {
    base = n.log;
    whole = (k.member i at).whole;
    made = IsMade-IsPast c.past past' (λ q x. inr x) n.log (k.member i at).made;
    shorter = omega (arith, grown-last c.past i n m (k.member i at) grown (room i at));
    agree = grown-Agree c.past i n m (k.member i at) grown (room i at);
    older = older grown.role new;
    voters = voters;
    majority = majority;
    votes = strict-votes (last_term n.log) (last_index n.log) voters grown.role new votes;
  }

  -- Who led already goes on from the same election.
  led-Elected :
      n.role ≡ leader
      → n.current_term ≡ m.current_term
      → Agree m.log n.log (last_index n.log)
      → last_index n.log ≤ last_index m.log
      → Elected members past' next m.log m.current_term
  led-Elected r same agree le = subst (Elected members past' next m.log) same (
      onward-Elected s members c k full room i at m move n.log m.log n.current_term agree le
        (full.elected i n (record { was = (k.member i at).present r; role = r })))

  abbrev pub HasWon : Type 0
  HasWon = LogGrown n m → IsNewLeader n m → Elected members past' next m.log m.current_term

  new-Elected : HasWon → m.role ≡ leader → Elected members past' next m.log m.current_term
  new-Elected won r = elim move [
    | inl kept ↦
        let (led, same) = kept.leads r in
        led-Elected led (sym same)
          (subst (λ l. Agree l n.log (last_index n.log)) (sym kept.log) (λ j le. refl))
          (ground (arith, kept.log))
    | inr (inl grown) ↦ elim grown.from [
      | inl newer ↦ won grown (inl newer)
      | inr (same, inl led) ↦
          led-Elected led same (grown-Agree c.past i n m (k.member i at) grown (room i at))
            (omega (arith, grown-last c.past i n m (k.member i at) grown (room i at)))
      | inr (same, inr stood) ↦ won grown (inr (same, stood))
    ]
    | inr (inr (args, sent, joined)) ↦ cc (r, joined.role)
  ]

  elected-on :
      HasWon
      → (j : NodeId) (g : Node D) → Led past' j g
      → Elected members past' next g.log g.current_term
  elected-on won j g l = elim (Led-cases s law members real c k i at m d node sound sub mv j g l) [
    | inl (_, same) ↦
        let r : m.role ≡ leader = ap (λ (q : Node D). q.role) same ∙ l.role in
        subst (λ q. Elected members past' next q.log q.current_term) same (new-Elected won r)
    | inr old ↦
        onward-Elected s members c k full room i at m move g.log g.log g.current_term (λ x le. refl)
          (omega arith) (full.elected j g old)
  ]

  PastWell-on :
      (v : NodeId) (p : Node D) → Elem (record { owner = v; node = p }) past' → PastWell past' p
  PastWell-on v p e = elim (Elem-cases s members c k full room i at m move v p e) [
    | inl (_, same) ↦
        subst (PastWell past') same (record { whole = mv.now.whole; made = mv.now.made })
    | inr old ↦ PastWell-IsPast c.past past' (λ q x. inr x) p (full.past_well v p old)
  ]

  pub stepped-IsComplete :
      (rs : List AppendAnswer)
      → HasWon
      → ((t : Tally) → Elem t d.tallies → TallyFresh past' next t)
      → ((a : VoteAnswer)
          → Elem a d.answers
          → a.answer.vote_granted ≡ true
          → VoteFresh past' next a.args.term
              (a.args.term + 1)
              a.args.last_log_term
              a.args.last_log_index
              a.voter)
      → IsComplete members (record { base = d; requests = c.requests; replies = rs; past = past' })
  stepped-IsComplete rs won tally answer = record {
    past_well = PastWell-on;
    remembers =
        subst
          (λ f.
            (v : NodeId)
            → Elem v members
            → (p : Node D) → Elem (record { owner = v; node = p }) past'
            → Remembers past' (f v) p)
          (sym node) (onward-Remembers s members c k full room i at m move);
    tally = subst (λ f. (t : Tally) → Elem t d.tallies → TallyFresh past' f t) (sym node) tally;
    answer =
        subst
          (λ f.
            (a : VoteAnswer)
            → Elem a d.answers
            → a.answer.vote_granted ≡ true
            → VoteFresh past' f a.args.term (a.args.term + 1) a.args.last_log_term
                a.args.last_log_index a.voter)
          (sym node) answer;
    elected =
        subst
          (λ f.
            (j : NodeId) (g : Node D)
            → Led past' j g
            → Elected members past' f g.log g.current_term)
          (sym node) (elected-on won);
  }
