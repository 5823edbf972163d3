-- ===== src/Raft/Valid.antt =====
-- `validate` of raft/node.go: which configurations it accepts.
use fraud_scoring_platform.Prelude.Int.{leb_ℤ, pos, ltb_ℤ}
use fraud_scoring_platform.Raft.Node.{Config}
use fraud_scoring_platform.Raft.Types.{nobody, NodeId}
use fraud_scoring_platform.Raft.Cluster.Majority.{Distinct}
use fraud_scoring_platform.Raft.Create.{is_none, validate, check_peers, check_rest, contains}
use fraud_scoring_platform.Prelude.{
  Elem, some, false, Option, subst, sym, inl, inr, eq_iff, [], ◌∷◌, ◌↔◌, ◌≢◌, true, none, ◌≡◌, All,
  List, arith, refl,
}

contains_iff : (xs : List NodeId) (a : NodeId) → (contains xs a ≡ true) ↔ Elem a xs
contains_iff [] a = ((λ e. cc e), (λ h. elim h [ ]))
contains_iff (x ∷ xs) a = ground (arith, eq_iff x a, contains_iff xs a)

-- Distinct nonempty names, none of which has been seen.
abbrev AreNew : List NodeId → List NodeId → Type 0
AreNew seen ps = All (λ p. (p ≢ nobody) × (¬ Elem p seen)) ps × Distinct ps

-- Names that differ from what has been seen and from `p`.
new_tail :
    (p : NodeId) (seen ps : List NodeId)
    → All (λ q. (q ≢ nobody) × (¬ Elem q (p ∷ seen))) ps
    → All (λ q. (q ≢ nobody) × (¬ Elem q seen)) ps × (¬ Elem p ps)
new_tail p seen [] h = (tt, λ e. e)
new_tail p seen (q ∷ ps) h =
    let (rest, out) = new_tail p seen ps h.1 in
    (((h.0.0, λ e. h.0.1 (inr e)), rest), elim [ inl e ↦ h.0.1 (inl (sym e)) | inr e ↦ out e ])

new_cons :
    (p : NodeId) (seen ps : List NodeId)
    → All (λ q. (q ≢ nobody) × (¬ Elem q seen)) ps
    → ¬ Elem p ps
    → All (λ q. (q ≢ nobody) × (¬ Elem q (p ∷ seen))) ps
new_cons p seen [] h out = tt
new_cons p seen (q ∷ ps) h out = (
  (h.0.0, elim [ inl e ↦ out (inl (sym e)) | inr e ↦ h.0.1 e ]),
  new_cons p seen ps h.1 (λ e. out (inr e)),
)

check_peers_sound : (ps seen : List NodeId) → check_peers seen ps ≡ none → AreNew seen ps
unfolding check_peers
check_peers_sound [] seen h = (tt, tt)
check_peers_sound (p ∷ ps) seen h =
    let (named, fresh, rest) = first in
    let (tail, d) = check_peers_sound ps (p ∷ seen) rest in
    let (old, out) = new_tail p seen ps tail in (((named, fresh), old), (out, d))
  where
    first : (p ≢ nobody) × (¬ Elem p seen) × (check_peers (p ∷ seen) ps ≡ none)
    first = ground (arith, h, eq_iff p nobody, contains_iff seen p)

check_peers_complete : (ps seen : List NodeId) → AreNew seen ps → check_peers seen ps ≡ none
unfolding check_peers
check_peers_complete [] seen h = refl
check_peers_complete (p ∷ ps) seen h = ground (
  arith,
  eq_iff p nobody,
  contains_iff seen p,
  h.0.0.0,
  h.0.0.1,
  check_peers_complete ps (p ∷ seen) (new_cons p seen ps h.0.1 h.1.0, h.1.1),
)

-- A configuration with which a node can run. Durations are in nanoseconds.
pub record IsValid {D : Type 0} (c : Config D) : Type 0 where
  pub distinct : Distinct c.peers
  pub named : ¬ Elem nobody c.peers
  pub self : Elem c.id c.peers
  pub transport : c.has_transport ≡ true
  pub storage : c.storage ≢ none
  pub apply_ch : c.has_apply_ch ≡ true
  pub election_min : ltb_ℤ (pos 0) c.election_timeout_min ≡ true
  pub election_max : ltb_ℤ c.election_timeout_min c.election_timeout_max ≡ true
  pub heartbeat : ltb_ℤ (pos 0) c.heartbeat_interval ≡ true
  pub heartbeat_max : ltb_ℤ c.heartbeat_interval c.election_timeout_min ≡ true
  pub rpc : ltb_ℤ (pos 0) c.rpc_timeout ≡ true
  pub entries : leb_ℤ (pos 0) c.max_entries_per_append ≡ true

is_none_iff : {A : Type 0} (o : Option A) → (is_none o ≡ false) ↔ (o ≢ none)
is_none_iff none = ((λ e. cc e), (λ h. absurd (h refl)))
is_none_iff (some a) = ((λ e k. cc k), (λ h. refl))

named_iff : (ps : List NodeId) → (¬ Elem nobody ps) ↔ All (λ p. (p ≢ nobody) × (¬ Elem p [])) ps
named_iff [] = ((λ h. tt), (λ h e. e))
named_iff (p ∷ ps) = (
  λ h. ((λ e. h (inl e), λ e. e), (named_iff ps).0 (λ e. h (inr e))),
  λ h. elim [ inl e ↦ h.0.0 e | inr e ↦ (named_iff ps).1 h.1 e ],
)

check_rest_sound :
    {D : Type 0} (c : Config D)
    → Distinct c.peers
    → ¬ Elem nobody c.peers
    → check_rest c ≡ none
    → IsValid c
unfolding check_rest
check_rest_sound c d n h = ground (arith, contains_iff c.peers c.id, is_none_iff c.storage)

check_rest_complete : {D : Type 0} (c : Config D) → IsValid c → check_rest c ≡ none
unfolding check_rest
check_rest_complete c h = ground (
  arith,
  contains_iff c.peers c.id,
  is_none_iff c.storage,
  h.self,
  h.storage,
  h.transport,
  h.apply_ch,
  h.election_min,
  h.election_max,
  h.heartbeat,
  h.heartbeat_max,
  h.rpc,
  h.entries,
)

-- `validate` accepts exactly the configurations with distinct, nonempty peers that include the node
-- itself, with a transport, a storage and an apply channel, with 0 < minimal < maximal election
-- timeout, a heartbeat above 0 and below the minimal election timeout, a positive RPC timeout and
-- no negative limit on entries.
pub validate_iff : {D : Type 0} (c : Config D) → (validate c ≡ none) ↔ IsValid c
unfolding validate
validate_iff c = (accepts, complete)
  where
    accepts : validate c ≡ none → IsValid c
    accepts h =
        let peers : check_peers [] c.peers ≡ none = ground (arith, h) in
        let rest : check_rest c ≡ none = ground (arith, h, peers) in
        let (named, d) = check_peers_sound c.peers [] peers in
        check_rest_sound c d ((named_iff c.peers).1 named) rest

    complete : IsValid c → validate c ≡ none
    complete h = ground (
      arith,
      eq_iff c.id nobody,
      check_peers_complete c.peers [] ((named_iff c.peers).0 h.named, h.distinct),
      check_rest_complete c h,
      self,
    )
      where
        self : c.id ≢ nobody
        self e = h.named (subst (λ x. Elem x c.peers) e h.self)
