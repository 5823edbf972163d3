-- ===== src/Raft/Role/Majority.antt =====
-- When a majority of the cluster has stored an entry, and how `advanceCommitIndex` of
-- raft/replication.go counts it.
use fraud_scoring_platform.Raft.Role.{count_stored}
use fraud_scoring_platform.Raft.Node.{Node, quorum}
use fraud_scoring_platform.Raft.Types.{NodeId}
use fraud_scoring_platform.Prelude.{
  inr, inl, ◌*◌, ◌↔◌, leb, ◌<◌, Bool-cases, ◌≡◌, if◌then◌else◌, ◌+◌, ◌≤◌, length, All, ◌∷◌, ℕ, [],
  List, arith, refl,
}

-- `Sublist qs ps`: `qs` is `ps` with some of its elements left out.
pub data Sublist : List NodeId → List NodeId → Type 0 where
  none_left : Sublist [] []
  keep : (p : NodeId) {qs ps : List NodeId} → Sublist qs ps → Sublist (p ∷ qs) (p ∷ ps)
  skip : (p : NodeId) {qs ps : List NodeId} → Sublist qs ps → Sublist qs (p ∷ ps)

-- More than half of a leader and its peers have stored what is at index `i`: the leader itself, and
-- those peers that are known to have stored as much.
pub record IsMajority (match_index : NodeId → ℕ) (i : ℕ) (peers : List NodeId) : Type 0 where
  pub holders : List NodeId
  pub some_peers : Sublist holders peers
  pub stored : All (λ p. i ≤ match_index p) holders
  pub most : 1 + length peers < 2 * (1 + length holders)

-- The peers whose recorded match index reaches `e`.
unfoldable pub storers : (NodeId → ℕ) → ℕ → List NodeId → List NodeId
storers f e [] = []
storers f e (p ∷ ps) = if leb e (f p) then p ∷ storers f e ps else storers f e ps

pub length-storers :
    (f : NodeId → ℕ) (e : ℕ) (ps : List NodeId) → length (storers f e ps) ≡ count_stored f e ps
unfolding storers count_stored
length-storers f e [] = refl
length-storers f e (p ∷ ps) = ground (arith, length-storers f e ps)

storers-Sublist : (f : NodeId → ℕ) (e : ℕ) (ps : List NodeId) → Sublist (storers f e ps) ps
unfolding storers
storers-Sublist f e [] = none_left
storers-Sublist f e (p ∷ ps) = elim (Bool-cases (leb e (f p))) [
  | inl far ↦ rw far (keep p (storers-Sublist f e ps))
  | inr near ↦ rw near (skip p (storers-Sublist f e ps))
]

storers-All : (f : NodeId → ℕ) (e : ℕ) (ps : List NodeId) → All (λ p. e ≤ f p) (storers f e ps)
unfolding storers
storers-All f e [] = tt
storers-All f e (p ∷ ps) = elim (Bool-cases (leb e (f p))) [
  | inl far ↦ rw far (ground (arith, far), storers-All f e ps)
  | inr near ↦ rw near (storers-All f e ps)
]

-- No more peers have stored an entry than are counted.
length-le-count :
    (f : NodeId → ℕ) (e : ℕ) {qs ps : List NodeId}
    → Sublist qs ps
    → All (λ p. e ≤ f p) qs
    → length qs ≤ count_stored f e ps
unfolding count_stored
length-le-count f e none_left h = omega arith
length-le-count f e (keep p s) h = let le = length-le-count f e s h.1 in ground (arith, le, h.0)
length-le-count f e (skip p s) h = let le = length-le-count f e s h in ground (arith, le)

-- The test of the scan is whether a majority has stored the entry.
pub quorum_iff :
    {D : Type 0} (n : Node D) (i : ℕ)
    → (quorum n ≤ 1 + count_stored n.match_index i n.peers) ↔ IsMajority n.match_index i n.peers
unfolding quorum
quorum_iff n i = (
  λ h. record {
    holders = storers n.match_index i n.peers;
    some_peers = storers-Sublist n.match_index i n.peers;
    stored = storers-All n.match_index i n.peers;
    most = omega (arith, h, length-storers n.match_index i n.peers);
  },
  λ h. omega (arith, h.most, length-le-count n.match_index i h.some_peers h.stored),
)
