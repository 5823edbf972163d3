-- ===== src/Raft/Cluster/Safety.antt =====
-- Election safety: of each term at most one node is ever the leader.
use fraud_scoring_platform.Raft.Cluster.Count.{deliver-IsSound}
use fraud_scoring_platform.Raft.Cluster.Votes.{vote-IsSound}
use fraud_scoring_platform.Raft.Cluster.Ledger.{
  Backed-Subset, Backed, Backed-unique, IsLedger, Subset,
}
use fraud_scoring_platform.Raft.Cluster.Moves.{IsSound}
use fraud_scoring_platform.Raft.Cluster.{
  restart, deliver, vote, here, next, elect, act, Steps, Step, IsStart, Cluster,
}
use fraud_scoring_platform.Raft.Cluster.Majority.{Distinct}
use fraud_scoring_platform.Raft.Types.{leader, nobody, NodeId}
use fraud_scoring_platform.Raft.Storage.{IsStorage, Storage}
use fraud_scoring_platform.Raft.Cluster.Sound.{restart-IsSound, elect-IsSound, act-IsSound}
use fraud_scoring_platform.Prelude.{Elem, inl, Bool-cases, inr, sym, ◌≡◌, subst, ℕ, ◌≢◌, List}

module _ {D : Type 0} (s : Storage D) (law : IsStorage s) (members : List NodeId)
    (apart : Distinct members) (real : (i : NodeId) → Elem i members → i ≢ nobody) where
  pub IsStart-IsSound : (c : Cluster D) → IsStart s members c → IsSound s members c
  IsStart-IsSound c h = record {
    member = λ i e. record {
      named = h.named i e;
      connected = h.connected i e;
      restorable = h.restorable i e;
    };
    ledger =
        subst (IsLedger members c.node) (sym h.no_history)
          (record { kept = tt; single = λ v t a b x y. elim x [ ] });
    tally = λ t e. absurd (subst (Elem t) h.no_tallies e);
    answer = λ a e. absurd (subst (Elem a) h.no_answers e);
    leads = λ i e r. cc (r, h.no_leader i e);
  }

  pub Step-IsSound :
      (c d : Cluster D) → IsSound s members c → Step s members c d → IsSound s members d
  Step-IsSound c d k (act i a at l done) = act-IsSound s law members apart real c k i at a l done
  Step-IsSound c d k (elect i v at room up idle done) =
      elect-IsSound s law members apart real c k i at v room done
  Step-IsSound c d k (vote i t r at known done) =
      vote-IsSound s law members apart real c k i t r at known done
  Step-IsSound c d k (deliver i t a v known sent same mine waits done) =
      deliver-IsSound s law members apart real c k i t a v known sent same mine waits done
  Step-IsSound c d k (restart i g m at name all disk made) =
      restart-IsSound s law members apart real c k i at g m name all disk made

  -- The ledger never forgets.
  pub Step-Subset : (c d : Cluster D) → Step s members c d → Subset c.history d.history
  Step-Subset c d (act i a at l done) g e = e
  Step-Subset c d (elect i v at room up idle done) g e = inr e
  Step-Subset c d (vote i t r at known done) g e = elim (Bool-cases r.vote_granted) [
    | inl given ↦ rw given (inr e)
    | inr denied ↦ rw denied e
  ]
  Step-Subset c d (deliver i t a v known sent same mine waits done) g e = e
  Step-Subset c d (restart i g m at name all disk made) r e = e

  Steps-IsSound :
      (c d : Cluster D)
      → IsSound s members c
      → Steps s members c d
      → IsSound s members d × Subset c.history d.history
  Steps-IsSound c d k here = (k, λ g e. e)
  Steps-IsSound c e k (next {d} more last) =
      let (kd, sub) = Steps-IsSound c d k more in
      (Step-IsSound d e kd last, λ g x. Step-Subset d e last g (sub g x))

  -- Election safety, over a storage that keeps its promises: take a cluster of distinct, nonempty
  -- names that starts with nothing sent, each member a follower that is connected to all others and
  -- that has the term, vote and log that `create` would read from its disk, be it fresh or not. In
  -- whatever order its members then act without a panic, begin elections in terms below 2 ^ 64,
  -- hear of each other, crash between actions and restart, and whatever messages are lost, late or
  -- repeated, a member that leads in a term and a member that leads in the same term then or later
  -- are the same member.
  pub leader_unique :
      (c d e : Cluster D) (t : ℕ) (a b : NodeId)
      → IsStart s members c
      → Steps s members c d
      → Steps s members d e
      → Elem a members
      → Elem b members
      → ((d.node a).role ≡ leader) × ((d.node a).current_term ≡ t)
      → ((e.node b).role ≡ leader) × ((e.node b).current_term ≡ t)
      → a ≡ b
  leader_unique c d e t a b start before after in_a in_b lead_a lead_b =
      let (kd, _) = Steps-IsSound c d (IsStart-IsSound c start) before in
      let (ke, sub) = Steps-IsSound d e kd after in
      Backed-unique members e.node e.history t a b ke.ledger
        (subst (λ x. Backed members e.history x a) lead_a.1
          (Backed-Subset members d.history e.history sub (d.node a).current_term a
            (kd.leads a in_a lead_a.0)))
        (subst (λ x. Backed members e.history x b) lead_b.1 (ke.leads b in_b lead_b.0))
