-- ===== src/Raft/Cluster/Sound.antt =====
-- Each kind of step keeps the invariant of Cluster/Moves.
use fraud_scoring_platform.Raft.Durable.{recalled-Sees, recall}
use fraud_scoring_platform.Raft.Durable.Held.{perform-IsHeld, start_election-IsHeld}
use fraud_scoring_platform.Raft.Cluster.Leads.{start_election_lem, perform-StillLeads}
use fraud_scoring_platform.Raft.Create.Restart.{create-inv}
use fraud_scoring_platform.Raft.Create.{with_defaults, restored, create, others}
use fraud_scoring_platform.Raft.Election.{vote_request, start_election}
use fraud_scoring_platform.Raft.Vote.{VoteKept, start_election-VoteKept, perform-VoteKept, HasTerm}
use fraud_scoring_platform.Raft.Action.{perform, Action}
use fraud_scoring_platform.Raft.Node.{persistent, Node, quorum, Config}
use fraud_scoring_platform.Raft.Types.{ok, nobody, NodeId}
use fraud_scoring_platform.Raft.Storage.{IsStorage, Storage}
use fraud_scoring_platform.Raft.Cluster.Moves.{
  IsLocal-NeedsTerm, IsSound, IsMember-kept, moved, voted-IsLedger, stayed,
}
use fraud_scoring_platform.Raft.Cluster.Ledger.{
  TallyOk, Subset, grant, TallyOk-Subset, AnswerOk-Subset,
}
use fraud_scoring_platform.Raft.Cluster.Majority.{Elem-others, Distinct, length-others}
use fraud_scoring_platform.Raft.Cluster.{IsLocal, Cluster, set_node, Tally, Grant}
use fraud_scoring_platform.Prelude.{
  Elem, sym, subst, inl, ◌∙◌, ap, ◌+◌, [], ◌/◌, length, some, ◌≡◌, inr, ℕ, ◌∷◌, ◌≢◌, List, arith,
  refl,
}

module _ {D : Type 0} (s : Storage D) (law : IsStorage s) (members : List NodeId)
    (apart : Distinct members) (real : (i : NodeId) → Elem i members → i ≢ nobody) where
  -- The votes that make a leader are a majority of the members.
  pub quorum-majority :
      (i : NodeId) (n : Node D)
      → Elem i members
      → n.peers ≡ others i members
      → quorum n ≡ length members / 2 + 1
  unfolding quorum
  quorum-majority i n e k = ground (arith, length-others i members apart e, ap length k)

  module _ (c : Cluster D) (sound : IsSound s members c) (i : NodeId) (at : Elem i members) where
    pub act-IsSound :
        (a : Action)
        → IsLocal a
        → (perform a (c.node i)).0 ≡ ok tt
        → IsSound s members (record c { node = set_node c.node i (perform a (c.node i)).1 })
    act-IsSound a l k =
        stayed s law members real c sound i at (perform a (c.node i)).1
          (perform-VoteKept a (c.node i) (IsLocal-NeedsTerm a (c.node i) l))
          (perform-IsHeld s (recall s) (recalled-Sees s law) a (c.node i)
            (sound.member i at).restorable k)
          (perform-StillLeads a (c.node i) l k)

    reborn :
        (g : Config D)
        → g.id ≡ i
        → g.peers ≡ members
        → VoteKept
            (c.node i)
            (restored (with_defaults g) s (c.node i).disk (persistent (c.node i)) (c.node i).log)
    unfolding with_defaults
    reborn g name all = record {
      id = name ∙ sym (sound.member i at).named;
      peers =
          ap (λ p. others p g.peers) name ∙ ap (others i) all ∙ sym (sound.member i at).connected;
      term = omega arith;
      vote = λ e real. refl;
    }

    pub restart-IsSound :
        (g : Config D) (m : Node D)
        → g.id ≡ i
        → g.peers ≡ members
        → g.storage ≡ some (s, (c.node i).disk)
        → create g ≡ inr m
        → IsSound s members (record c { node = set_node c.node i m })
    restart-IsSound g m name all disk made =
        let n = c.node i in
        let old = sound.member i at in
        let again = restored (with_defaults g) s n.disk (persistent n) n.log in
        subst (λ k. IsSound s members (record c { node = set_node c.node i k }))
          (sym (create-inv s n m g old.restorable disk made))
          (stayed s law members real c sound i at again (reborn g name all)
            (record { same = refl; synced = old.restorable.synced }) cc)

    -- The tallies when one is added and the ledger grows.
    pub with_tally :
        (h : List Grant)
        → Subset c.history h
        → (new : Tally) → TallyOk members h new
        → (t : Tally) → Elem t (new ∷ c.tallies)
        → TallyOk members h t
    with_tally h sub new k t (inl e) = subst (TallyOk members h) e k
    with_tally h sub new k t (inr e) = TallyOk-Subset members c.history h sub t (sound.tally t e)

    -- An entry of the ledger that is there already stays there.
    pub older : (g : Grant) → Subset c.history (g ∷ c.history)
    older g r e = inr e

    pub elect-IsSound :
        (v : ℕ)
        → HasTerm (c.node i)
        → (start_election (c.node i)).0 ≡ ok v
        → IsSound s members (record c {
          node = set_node c.node i (start_election (c.node i)).1;
          tallies =
              record {
                args = vote_request (start_election (c.node i)).1;
                waiting = (c.node i).peers;
                voters = i ∷ [];
                votes = v;
              }
              ∷ c.tallies;
          history = grant i (start_election (c.node i)).1.current_term i ∷ c.history;
        })
    elect-IsSound v room done =
        let n = c.node i in
        let m = (start_election n).1 in
        let kept = start_election-VoteKept n room in
        let old = sound.member i at in
        let (one, self, lead) = start_election_lem n v room done in
        let mem =
          IsMember-kept s law members real i n m old kept
            (start_election-IsHeld s (recall s) (recalled-Sees s law) n v old.restorable done) in
        let h = grant i m.current_term i ∷ c.history in
        let new : Tally = record {
          args = vote_request m;
          waiting = n.peers;
          voters = i ∷ [];
          votes = v;
        } in
        moved s law members real c sound i at m (new ∷ c.tallies) c.answers h mem
          (older (grant i m.current_term i))
          (voted-IsLedger s law members real c sound i at m m.current_term i kept at refl
            (self ∙ old.named))
          (with_tally h (older (grant i m.current_term i)) new (record {
            owner = subst (λ w. Elem w members) (sym mem.named) at;
            counts = one;
            distinct = ((λ e. e), tt);
            inside = (at, tt);
            gave = (inl (ap (grant i m.current_term) (sym mem.named)), tt);
            apart = λ p e.
                let (inside, ne) = Elem-others i p members (subst (Elem p) old.connected e) in
                (inside, elim [ inl k ↦ ne (sym k) | inr k ↦ k ]);
          }))
          (λ a e.
            AnswerOk-Subset members c.history h (older (grant i m.current_term i)) a
              (sound.answer a e))
          (λ r. record {
            voters = i ∷ [];
            majority = record {
              distinct = ((λ e. e), tt);
              inside = (at, tt);
              most = omega (arith, lead r, quorum-majority i n at old.connected);
            };
            gave = (inl refl, tt);
          })
