-- ===== src/Raft/Cluster/Moves.antt =====
-- What holds of a cluster whatever happens, kept by each kind of step.
use fraud_scoring_platform.Raft.Durable.{IsRestorable}
use fraud_scoring_platform.Raft.Cluster.Leads.{StillLeads}
use fraud_scoring_platform.Raft.Create.{others}
use fraud_scoring_platform.Raft.Types.{nobody, leader, NodeId}
use fraud_scoring_platform.Raft.Vote.{NeedsTerm, VoteKept}
use fraud_scoring_platform.Raft.Action.{Action}
use fraud_scoring_platform.Raft.Storage.{IsStorage, Storage}
use fraud_scoring_platform.Raft.Node.{Node}
use fraud_scoring_platform.Raft.Cluster.Ledger.{
  grant, Backed, TallyOk, AnswerOk, IsLedger, Subset, set_node-all, Backed-Subset, IsLedger-kept,
  IsLedger-add,
}
use fraud_scoring_platform.Raft.Cluster.{IsLocal, Cluster, set_node, Tally, VoteAnswer, Grant}
use fraud_scoring_platform.Prelude.{
  Elem, ap, sym, ◌∷◌, subst, ◌∙◌, ℕ, eq_iff, ◌≡◌, ◌≢◌, List, arith,
}

pub record IsMember {D : Type 0} (s : Storage D) (members : List NodeId) (i : NodeId) (n : Node D)
    : Type 0 where
  pub named : n.id ≡ i
  pub connected : n.peers ≡ others i members
  pub restorable : IsRestorable s n

-- Each member goes on with what its disk holds, the ledger is true, tallies and answers count only
-- votes of the ledger, and who leads has a majority of them.
pub record IsSound {D : Type 0} (s : Storage D) (members : List NodeId) (c : Cluster D)
    : Type 0 where
  pub member : (i : NodeId) → Elem i members → IsMember s members i (c.node i)
  pub ledger : IsLedger members c.node c.history
  pub tally : (t : Tally) → Elem t c.tallies → TallyOk members c.history t
  pub answer : (a : VoteAnswer) → Elem a c.answers → AnswerOk members c.history a
  pub leads :
      (i : NodeId)
      → Elem i members
      → (c.node i).role ≡ leader
      → Backed members c.history (c.node i).current_term i

pub VoteKept-refl : {D : Type 0} (n : Node D) → VoteKept n n
VoteKept-refl n = ground arith

pub IsLocal-NeedsTerm : {D : Type 0} (a : Action) (n : Node D) → IsLocal a → NeedsTerm a n
IsLocal-NeedsTerm a n l = ground arith

module _ {D : Type 0} (s : Storage D) (law : IsStorage s) (members : List NodeId)
    (real : (i : NodeId) → Elem i members → i ≢ nobody) where
  pub set_node_self : (f : NodeId → Node D) (i : NodeId) (n : Node D) → set_node f i n i ≡ n
  set_node_self f i n = ground (arith, eq_iff i i)

  pub IsMember-kept :
      (i : NodeId) (n m : Node D)
      → IsMember s members i n
      → VoteKept n m
      → IsRestorable s m
      → IsMember s members i m
  IsMember-kept i n m h k d = record {
    named = k.id ∙ h.named;
    connected = k.peers ∙ h.connected;
    restorable = d;
  }

  module _ (c : Cluster D) (sound : IsSound s members c) (i : NodeId) (at : Elem i members)
      (n : Node D) where
    -- A node moves, and the ledger may grow.
    pub moved :
        (ts : List Tally) (xs : List VoteAnswer) (h : List Grant)
        → IsMember s members i n
        → Subset c.history h
        → IsLedger members (set_node c.node i n) h
        → ((t : Tally) → Elem t ts → TallyOk members h t)
        → ((a : VoteAnswer) → Elem a xs → AnswerOk members h a)
        → (n.role ≡ leader → Backed members h n.current_term i)
        → IsSound s members
            (record { node = set_node c.node i n; tallies = ts; answers = xs; history = h })
    moved ts xs h mem sub ledger tally answer leads = record {
      member = set_node-all members c.node i n (IsMember s members) mem sound.member;
      ledger = ledger;
      tally = tally;
      answer = answer;
      leads =
          set_node-all members c.node i n
            (λ j m. m.role ≡ leader → Backed members h m.current_term j) leads
            (λ j e r.
              Backed-Subset members c.history h sub (c.node j).current_term j (sound.leads j e r));
    }

    pub kept-IsLedger : VoteKept (c.node i) n → IsLedger members (set_node c.node i n) c.history
    kept-IsLedger k =
        IsLedger-kept members real c.node (set_node c.node i n)
          (set_node-all members c.node i n (λ j m. VoteKept (c.node j) m) k
            (λ j e. VoteKept-refl (c.node j)))
          c.history sound.ledger

    -- The node's vote of its term is entered into the ledger.
    pub voted-IsLedger :
        (t : ℕ) (w : NodeId)
        → VoteKept (c.node i) n
        → Elem w members
        → n.current_term ≡ t
        → n.voted_for ≡ w
        → IsLedger members (set_node c.node i n) (grant i t w ∷ c.history)
    voted-IsLedger t w k in_w term for =
        IsLedger-add members (set_node c.node i n) c.history i t w (kept-IsLedger k) at in_w
          (ap (λ m. m.current_term) (set_node_self c.node i n) ∙ term)
          (ap (λ m. m.voted_for) (set_node_self c.node i n) ∙ for)

    -- Who leads after the step led before it, in the same term.
    pub still :
        StillLeads (c.node i) n → n.role ≡ leader → Backed members c.history n.current_term i
    still k r =
        let (led, same) = k r in
        subst (λ t. Backed members c.history t i) (sym same) (sound.leads i at led)

    -- A step that has no part in counting votes.
    pub stayed :
        VoteKept (c.node i) n
        → IsRestorable s n
        → StillLeads (c.node i) n
        → IsSound s members (record c { node = set_node c.node i n })
    stayed k d l =
        moved c.tallies c.answers c.history (IsMember-kept i (c.node i) n (sound.member i at) k d)
          (λ g e. e) (kept-IsLedger k) sound.tally sound.answer (still l)
