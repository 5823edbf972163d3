-- ===== src/Raft/Net/Origins.antt =====
-- Log matching (raft/log.go, raft/replication.go): the entries of every log were made by leaders,
-- each behind the entries that its leader had then.
use fraud_scoring_platform.Raft.Node.{Node}
use fraud_scoring_platform.Raft.Types.{leader, NodeId, Entry}
use fraud_scoring_platform.Raft.Log.Shape.{view_in, view, IsLog}
use fraud_scoring_platform.Raft.Net.{Past}
use fraud_scoring_platform.Raft.Log.{last_index, last_term, RaftLog}
use fraud_scoring_platform.Raft.Log
use fraud_scoring_platform.Prelude.{zero, suc, some, ◌∙◌, ◌<◌, sym, ◌≤◌, Elem, ℕ, ◌≡◌, List, arith}

-- The logs have the same up to index `k`.
abbrev pub Agree : RaftLog → RaftLog → ℕ → Type 0
Agree l m k = (j : ℕ) → j ≤ k → view l j ≡ view m j

-- A log without gaps that starts at index 0.
pub record IsWhole (l : RaftLog) : Type 0 where
  pub rooted : l.first ≡ Log.sentinel 0 0
  pub good : IsLog l

-- A member that led when it had been in state `node`.
pub record Led {D : Type 0} (past : List (Past D)) (owner : NodeId) (node : Node D) : Type 0 where
  pub was : Elem (record { owner = owner; node = node }) past
  pub role : node.role ≡ leader

-- The entry at index `d` of the log has been the last one of a leader that had the same before it.
pub record Origin {D : Type 0} (past : List (Past D)) (l : RaftLog) (d t : ℕ) : Type 0 where
  pub owner : NodeId
  pub node : Node D
  pub led : Led past owner node
  pub index : last_index node.log ≡ d
  pub term : node.current_term ≡ t
  pub agree : Agree l node.log d

abbrev pub IsMade : {D : Type 0} → List (Past D) → RaftLog → Type 0
IsMade past l = (d : ℕ) (x : Entry) → 0 < d → view l d ≡ some x → Origin past l d x.term

-- A leader of the past: its last entry is of its term, and of no other leader of the term.
pub record LedWell {D : Type 0} (past : List (Past D)) (node : Node D) : Type 0 where
  pub whole : IsWhole node.log
  pub made : IsMade past node.log
  pub own : last_term node.log ≡ node.current_term
  pub some_term : 0 < node.current_term
  pub some_index : 0 < last_index node.log

-- Two leaders of a term have the same as far as both logs go.
abbrev pub AreChained : {D : Type 0} → List (Past D) → Type 0
AreChained {D = D} past =
    (i j : NodeId) (n m : Node D)
    → Led past i n
    → Led past j m
    → n.current_term ≡ m.current_term
    → (k : ℕ) → k ≤ last_index n.log
    → k ≤ last_index m.log
    → Agree n.log m.log k

abbrev pub IsPast : {D : Type 0} → List (Past D) → List (Past D) → Type 0
IsPast {D = D} ps qs = (p : Past D) → Elem p ps → Elem p qs

pub Agree-trans : (l m n : RaftLog) (j k : ℕ) → j ≤ k → Agree l m k → Agree m n j → Agree l n j
Agree-trans l m n j k le a b i at = a i (omega arith) ∙ b i at

pub Agree-sym : (l m : RaftLog) (k : ℕ) → Agree l m k → Agree m l k
Agree-sym l m k a i at = sym (a i at)

pub IsWhole-start : (l m : RaftLog) → IsWhole l → IsWhole m → Agree l m 0
unfolding view_in
IsWhole-start l m a b j le = ground (arith, a.rooted, b.rooted)

module _ {D : Type 0} (past : List (Past D)) where
  -- Two logs whose entries at an index are of one term have the same up to there.
  pub logs_match :
      AreChained past
      → (l m : RaftLog) → IsWhole l
      → IsWhole m
      → IsMade past l
      → IsMade past m
      → (d : ℕ) (x y : Entry) → view l d ≡ some x
      → view m d ≡ some y
      → x.term ≡ y.term
      → Agree l m d
  logs_match chain l m wl wm ml mm zero x y a b t = IsWhole-start l m wl wm
  logs_match chain l m wl wm ml mm (suc d) x y a b t =
      let p = ml (suc d) x (omega arith) a in
      let q = mm (suc d) y (omega arith) b in
      Agree-trans l p.node.log m (suc d) (suc d) (omega arith) p.agree (
        Agree-trans p.node.log q.node.log m (suc d) (suc d) (omega arith)
          (chain p.owner q.owner p.node q.node p.led q.led (p.term ∙ t ∙ sym q.term) (suc d)
            (omega (arith, p.index)) (omega (arith, q.index)))
          (Agree-sym m q.node.log (suc d) q.agree))

  pub Led-IsPast :
      (qs : List (Past D)) → IsPast past qs → (i : NodeId) (n : Node D) → Led past i n → Led qs i n
  Led-IsPast qs sub i n h = record {
    was = sub (record { owner = i; node = n }) h.was;
    role = h.role;
  }

  pub IsMade-IsPast :
      (qs : List (Past D)) → IsPast past qs → (l : RaftLog) → IsMade past l → IsMade qs l
  IsMade-IsPast qs sub l h d x lt at =
      let o = h d x lt at in
      record {
        owner = o.owner;
        node = o.node;
        led = Led-IsPast qs sub o.owner o.node o.led;
        index = o.index;
        term = o.term;
        agree = o.agree;
      }

  pub LedWell-IsPast :
      (qs : List (Past D)) → IsPast past qs → (n : Node D) → LedWell past n → LedWell qs n
  LedWell-IsPast qs sub n h = record {
    whole = h.whole;
    made = IsMade-IsPast qs sub n.log h.made;
    own = h.own;
    some_term = h.some_term;
    some_index = h.some_index;
  }
