-- ===== src/Raft/Net/Storers.antt =====
-- The peers that `advanceCommitIndex` (raft/replication.go) counts, and the leader: a majority.
use fraud_scoring_platform.Raft.Role.Majority.{length-storers, quorum_iff, storers}
use fraud_scoring_platform.Raft.Cluster.Sound.{quorum-majority}
use fraud_scoring_platform.Raft.Net.Complete.{HasAt-Agree, HasStored, IsStored}
use fraud_scoring_platform.Raft.Role.Commit.{IsCommittable}
use fraud_scoring_platform.Raft.Net.Committed.{MatchOk}
use fraud_scoring_platform.Raft.Net.Origins.{Led}
use fraud_scoring_platform.Raft.Create.{others}
use fraud_scoring_platform.Raft.Node.{Node}
use fraud_scoring_platform.Raft.Net.{Past}
use fraud_scoring_platform.Raft.Cluster.Majority.{others-Distinct, Elem-others, Distinct}
use fraud_scoring_platform.Raft.Types.{nobody, NodeId}
use fraud_scoring_platform.Raft.Storage.{IsStorage, Storage}
use fraud_scoring_platform.Prelude.{
  sym, ◌<◌, inr, subst, leb, [], inl, Bool-cases, ◌≡◌, ◌≢◌, ◌≤◌, All, Elem, ◌∷◌, List, ℕ, arith,
  refl,
}

Elem-storers :
    (f : NodeId → ℕ) (e : ℕ) (ps : List NodeId) (q : NodeId)
    → Elem q (storers f e ps)
    → Elem q ps × (e ≤ f q)
unfolding storers
Elem-storers f e [] q h = elim h [ ]
Elem-storers f e (p ∷ ps) q h = elim (Bool-cases (leb e (f p))) [
  | inl far ↦ elim (rw far at h) [
    | inl same ↦ (inl same, subst (λ x. e ≤ f x) same (ground (arith, far)))
    | inr more ↦ let (inside, le) = Elem-storers f e ps q more in (inr inside, le)
  ]
  | inr near ↦ let (inside, le) = Elem-storers f e ps q (rw near at h) in (inr inside, le)
]

storers-Distinct :
    (f : NodeId → ℕ) (e : ℕ) (ps : List NodeId) → Distinct ps → Distinct (storers f e ps)
unfolding storers
storers-Distinct f e [] h = tt
storers-Distinct f e (p ∷ ps) h = elim (Bool-cases (leb e (f p))) [
  | inl far ↦ rw far ((λ k. h.0 (Elem-storers f e ps p k).0), storers-Distinct f e ps h.1)
  | inr near ↦ rw near (storers-Distinct f e ps h.1)
]

All-from : (P : NodeId → Type 0) (xs : List NodeId) → ((x : NodeId) → Elem x xs → P x) → All P xs
All-from P [] h = tt
All-from P (x ∷ xs) h = (h x (inl refl), All-from P xs (λ y e. h y (inr e)))

module _ {D : Type 0} (s : Storage D) (law : IsStorage s) (members : List NodeId)
    (apart : Distinct members) (real : (i : NodeId) → Elem i members → i ≢ nobody) where
  -- A majority has stored what the leader may commit to.
  pub committable-IsStored :
      (past : List (Past D)) (i : NodeId) (m : Node D)
      → Elem i members
      → m.peers ≡ others i members
      → Led past i m
      → ((q : NodeId) → MatchOk past m q)
      → (e : ℕ) → 0 < e
      → IsCommittable m e
      → IsStored members past e m.current_term
  committable-IsStored past i m at connected led matched e positive h =
      let ws = storers m.match_index e m.peers in
      record {
        voters = i ∷ ws;
        majority = record {
          distinct = (
            (λ k. (others-only i (Elem-storers m.match_index e m.peers i k).0).1 refl),
            storers-Distinct m.match_index e m.peers
                (subst Distinct (sym connected) (others-Distinct i members apart)),
          );
          inside = (
            at,
            All-from (λ q. Elem q members) ws
                (λ q k. (others-only q (Elem-storers m.match_index e m.peers q k).0).0),
          );
          most = omega (
            arith,
            (quorum_iff m e).1 h.majority,
            length-storers m.match_index e m.peers,
            quorum-majority s law members apart real i m at connected,
          );
        };
        stored = (
          record { node = m; was = led.was; term = refl; has = h.own_term },
          All-from (HasStored past e m.current_term) ws
              (λ q k. has-stored q (Elem-storers m.match_index e m.peers q k).1),
        );
      }
    where
      others-only : (q : NodeId) → Elem q m.peers → Elem q members × (q ≢ i)
      others-only q k = Elem-others i q members (subst (Elem q) connected k)

      has-stored : (q : NodeId) → e ≤ m.match_index q → HasStored past e m.current_term q
      has-stored q le = elim (matched q) [
        | inl none_known ↦ absurd (omega (arith, positive, le, none_known))
        | inr known ↦ record {
          node = known.node;
          was = known.was;
          term = known.term;
          has =
              HasAt-Agree known.node.log m.log (m.match_index q) e m.current_term known.agree le
                h.own_term;
        }
      ]
