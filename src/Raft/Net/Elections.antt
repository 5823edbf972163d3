-- ===== src/Raft/Net/Elections.antt =====
-- Each kind of step of the cluster keeps what Fresh.antt says of votes, tallies and leaders
-- (raft/election.go).
use fraud_scoring_platform.Raft.Net.Remember.{IsBroken-IsPast, HasAt-Covers}
use fraud_scoring_platform.Raft.Net.Won.{HasWon, stepped-IsComplete}
use fraud_scoring_platform.Raft.Cluster.Leads.{StillLeads}
use fraud_scoring_platform.Raft.Log.Shape.{IsLog}
use fraud_scoring_platform.Raft.Cluster.Ledger.{Subset}
use fraud_scoring_platform.Raft.Log.{last_index, last_term}
use fraud_scoring_platform.Raft.Cluster.Moves.{IsSound, set_node_self}
use fraud_scoring_platform.Raft.Net.Onward.{
  move-term, onward-VoteFresh, onward-TallyFresh, moved-Remembers, onward-term, longer, onward,
}
use fraud_scoring_platform.Raft.Cluster.{VoteAnswer, Tally, set_node, Cluster}
use fraud_scoring_platform.Raft.Net.Growth.{LogMove}
use fraud_scoring_platform.Raft.Node.{Node}
use fraud_scoring_platform.Raft.Net.Matched.{IsMatched}
use fraud_scoring_platform.Raft.Net.{AppendAnswer, Past, HaveRoom, Net}
use fraud_scoring_platform.Raft.Cluster.Majority.{Distinct}
use fraud_scoring_platform.Raft.Types.{RequestVoteReply, RequestVoteArgs, nobody, NodeId}
use fraud_scoring_platform.Raft.Net.Fresh.{TallyFresh, VoteFresh, IsComplete, Covers}
use fraud_scoring_platform.Raft.Storage.{IsStorage, Storage}
use fraud_scoring_platform.Prelude.{
  inr, subst, true, inl, ap, [], ◌<◌, ◌+◌, ◌∷◌, All, ◌≡◌, ◌≤◌, ◌≢◌, Elem, List, ℕ, arith,
}

Covers-trans :
    (last_t last_i t i u j : ℕ)
    → Covers last_t last_i t i
    → Covers t i u j
    → Covers last_t last_i u j
Covers-trans last_t last_i t i u j a b = ground (arith, a, b)

module _ {D : Type 0} (s : Storage D) (law : IsStorage s) (members : List NodeId)
    (apart : Distinct members) (real : (i : NodeId) → Elem i members → i ≢ nobody) (c : Net D)
    (k : IsMatched s members c) (full : IsComplete members c) (room : HaveRoom s members c.base)
    (i : NodeId) (at : Elem i members) (m : Node D)
    (move : LogMove c.requests (c.base.node i) m) where
  abbrev n : Node D
  n = c.base.node i

  abbrev past' : List (Past D)
  past' = longer s members c k full room i at m move

  abbrev next : NodeId → Node D
  next = onward s members c k full room i at m move

  pub next_self : next i ≡ m
  next_self = set_node_self s law members real c.base.node i m

  -- The vote of the member itself for a log that is at least as up to date as its own.
  pub own-VoteFresh :
      (u top last_t last_i : ℕ)
      → u ≤ m.current_term
      → m.current_term < top
      → Covers last_t last_i (last_term m.log) (last_index m.log)
      → IsLog m.log
      → VoteFresh past' next u top last_t last_i i
  own-VoteFresh u top last_t last_i le lt covers good = record {
    reached = omega (arith, le, ap (λ (q : Node D). q.current_term) next_self);
    fresh = λ p e low j has.
        elim ((moved-Remembers s members c k full room i at m move p e).kept j has) [
          | inl still_has ↦ inl (
              Covers-trans last_t last_i (last_term m.log) (last_index m.log) p.current_term j
                covers (HasAt-Covers m.log j p.current_term good still_has))
          | inr broken ↦ inr (
              IsBroken-IsPast past' past' (λ q x. x) j p.current_term (m.current_term + 1) top
                (omega (arith, lt)) broken)
        ];
  }

  -- The vote for the log that it had before.
  pub base-VoteFresh :
      VoteFresh c.past next m.current_term
        (m.current_term + 1)
        (last_term n.log)
        (last_index n.log)
        i
  base-VoteFresh = record {
    reached = omega (arith, ap (λ (q : Node D). q.current_term) next_self);
    fresh = λ p e low j has. elim ((full.remembers i at p e).kept j has) [
      | inl still_has ↦
          inl (HasAt-Covers n.log j p.current_term (k.member i at).whole.good still_has)
      | inr broken ↦ inr (
          IsBroken-IsPast c.past c.past (λ q x. x) j p.current_term (n.current_term + 1)
            (m.current_term + 1) (omega (arith, move-term s members c k full room i at m move))
            broken)
    ];
  }

  pub votes-next :
      (u top last_t last_i : ℕ) (vs : List NodeId)
      → All (VoteFresh c.past c.base.node u top last_t last_i) vs
      → All (VoteFresh c.past next u top last_t last_i) vs
  votes-next u top last_t last_i [] h = tt
  votes-next u top last_t last_i (v ∷ vs) h = (
    record {
      reached = omega (arith, h.0.reached, onward-term s members c k full room i at m move v);
      fresh = h.0.fresh;
    },
    votes-next u top last_t last_i vs h.1,
  )

  module _ (d : Cluster D) (node : d.node ≡ set_node c.base.node i m) (sound : IsSound s members d)
      (sub : Subset c.base.history d.history) where
    -- Who led already has won nothing new.
    pub unwon :
        StillLeads n m → HasWon s law members apart real c k full room i at m move d node sound sub
    unwon still grown new =
        let (led, same) = still grown.role in absurd (ground (arith, new, led, same))

    -- A step that counts no vote and gives none.
    pub quiet-IsComplete :
        (rs : List AppendAnswer)
        → StillLeads n m
        → d.tallies ≡ c.base.tallies
        → d.answers ≡ c.base.answers
        → IsComplete members
            (record { base = d; requests = c.requests; replies = rs; past = past' })
    quiet-IsComplete rs still tallies answers =
        stepped-IsComplete s law members apart real c k full room i at m move d node sound sub rs
          (unwon still)
          (λ t e.
            onward-TallyFresh s members c k full room i at m move t
              (full.tally t (subst (Elem t) tallies e)))
          (λ a e g.
            onward-VoteFresh s members c k full room i at m move a.args.term (a.args.term + 1)
              a.args.last_log_term a.args.last_log_index a.voter
              (full.answer a (subst (Elem a) answers e) g))

    pub vote-IsComplete :
        (rs : List AppendAnswer) (args : RequestVoteArgs) (r : RequestVoteReply)
        → StillLeads n m
        → d.tallies ≡ c.base.tallies
        → d.answers ≡ record { voter = i; args = args; answer = r } ∷ c.base.answers
        → (r.vote_granted ≡ true
            → VoteFresh past' next args.term
                (args.term + 1)
                args.last_log_term
                args.last_log_index
                i)
        → IsComplete members
            (record { base = d; requests = c.requests; replies = rs; past = past' })
    vote-IsComplete rs args r still tallies answers given =
        stepped-IsComplete s law members apart real c k full room i at m move d node sound sub rs
          (unwon still)
          (λ t e.
            onward-TallyFresh s members c k full room i at m move t
              (full.tally t (subst (Elem t) tallies e)))
          (λ a e. with_answer a (subst (Elem a) answers e))
      where
        with_answer :
            (a : VoteAnswer)
            → Elem a (record { voter = i; args = args; answer = r } ∷ c.base.answers)
            → a.answer.vote_granted ≡ true
            → VoteFresh past' next a.args.term
                (a.args.term + 1)
                a.args.last_log_term
                a.args.last_log_index
                a.voter
        with_answer a (inl e) g =
            subst
              (λ (b : VoteAnswer).
                b.answer.vote_granted ≡ true
                → VoteFresh past' next b.args.term (b.args.term + 1) b.args.last_log_term
                    b.args.last_log_index b.voter)
              e given g
        with_answer a (inr e) g =
            onward-VoteFresh s members c k full room i at m move a.args.term (a.args.term + 1)
              a.args.last_log_term a.args.last_log_index a.voter (full.answer a e g)

    pub tally-IsComplete :
        (rs : List AppendAnswer) (u : Tally)
        → HasWon s law members apart real c k full room i at m move d node sound sub
        → d.tallies ≡ u ∷ c.base.tallies
        → d.answers ≡ c.base.answers
        → TallyFresh past' next u
        → IsComplete members
            (record { base = d; requests = c.requests; replies = rs; past = past' })
    tally-IsComplete rs u won tallies answers new =
        stepped-IsComplete s law members apart real c k full room i at m move d node sound sub rs
          won (λ t e. with_tally t (subst (Elem t) tallies e))
          (λ a e g.
            onward-VoteFresh s members c k full room i at m move a.args.term (a.args.term + 1)
              a.args.last_log_term a.args.last_log_index a.voter
              (full.answer a (subst (Elem a) answers e) g))
      where
        with_tally : (t : Tally) → Elem t (u ∷ c.base.tallies) → TallyFresh past' next t
        with_tally t (inl e) = subst (TallyFresh past' next) e new
        with_tally t (inr e) =
            onward-TallyFresh s members c k full room i at m move t (full.tally t e)
