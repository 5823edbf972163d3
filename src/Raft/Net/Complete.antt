-- ===== src/Raft/Net/Complete.antt =====
-- Leader completeness: what a majority has stored in a term, every leader of a later term has.
use fraud_scoring_platform.Raft.Net.Joined.{HasAt-inv}
use fraud_scoring_platform.Raft.Log.Shape.{view_in}
use fraud_scoring_platform.Raft.Log.Lookup.{view-inv, term_of}
use fraud_scoring_platform.Raft.Net.Fresh.{VoteFresh, Covers, PastWell, IsComplete}
use fraud_scoring_platform.Raft.Replication.Merge.{last-view, HasAt}
use fraud_scoring_platform.Raft.Net.Matched.{IsMatched}
use fraud_scoring_platform.Raft.Node.{Node}
use fraud_scoring_platform.Raft.Net.Origins.{Agree-sym, IsWhole-start, IsMade, Led, IsWhole, Agree}
use fraud_scoring_platform.Raft.Cluster.Majority.{majorities_meet, IsMajority}
use fraud_scoring_platform.Raft.Net.{Net, Past}
use fraud_scoring_platform.Raft.Types.{NodeId}
use fraud_scoring_platform.Raft.Log.{last_entry, last_index, last_term, RaftLog}
use fraud_scoring_platform.Raft.Storage.{Storage}
use fraud_scoring_platform.Prelude.{
  zero, inr, inl, sym, subst, dec_lt, Elem-All, ◌+◌, ◌∙◌, suc, ◌<◌, ap, ◌≡◌, Elem, ◌≤◌, All, ℕ,
  List, arith,
}

pub HasAt-Agree : (l m : RaftLog) (k i t : ℕ) → Agree l m k → i ≤ k → HasAt m i t → HasAt l i t
HasAt-Agree l m k i t agree le h = ap term_of (agree i le) ∙ h

pub last_term-start : (l : RaftLog) → IsWhole l → last_index l ≡ 0 → last_term l ≡ 0
unfolding view_in
last_term-start l w empty = ground (arith, last-view l w.good, w.rooted)

-- The member has been in term `t` with an entry of that term at `i`.
pub record HasStored {D : Type 0} (past : List (Past D)) (i t : ℕ) (v : NodeId) : Type 0 where
  pub node : Node D
  pub was : Elem (record { owner = v; node = node }) past
  pub term : node.current_term ≡ t
  pub has : HasAt node.log i t

-- A majority has.
pub record IsStored {D : Type 0} (members : List NodeId) (past : List (Past D)) (i t : ℕ)
    : Type 0 where
  pub voters : List NodeId
  pub majority : IsMajority members voters
  pub stored : All (HasStored past i t) voters

module _ {D : Type 0} (s : Storage D) (members : List NodeId) (c : Net D)
    (k : IsMatched s members c) (full : IsComplete members c) (i t : ℕ)
    (stored : IsStored members c.past i t) where
  -- A leader of the entry's term whose log goes on behind it has it.
  shared :
      (d : ℕ) (p : Node D)
      → PastWell c.past p
      → HasAt p.log d t
      → (v : NodeId) (g : Node D) → Led c.past v g
      → g.current_term ≡ t
      → d ≤ last_index g.log
      → HasAt g.log d t
  shared zero p well has v g led term le =
      HasAt-Agree g.log p.log 0 0 t
        (IsWhole-start g.log p.log (k.leader v g led).well.whole well.whole) (omega arith) has
  shared (suc d) p well has v g led term le =
      let (x, seen, same) = HasAt-inv p.log (suc d) t has in
      let o = well.made (suc d) x (omega arith) seen in
      HasAt-Agree g.log o.node.log (suc d) (suc d) t
        (k.chained v o.owner g o.node led o.led (term ∙ sym (o.term ∙ same)) (suc d) le
          (omega (arith, o.index)))
        (omega arith)
        (HasAt-Agree o.node.log p.log (suc d) (suc d) t (Agree-sym p.log o.node.log (suc d) o.agree)
          (omega arith) has)

  -- The log of the election has the entry, since its last entry is of a leader that has it.
  base-HasAt :
      (b : RaftLog)
      → IsWhole b
      → IsMade c.past b
      → (p : Node D) → PastWell c.past p
      → HasAt p.log i t
      → ((v : NodeId) (g : Node D)
          → Led c.past v g
          → t < g.current_term
          → g.current_term ≡ last_term b
          → HasAt g.log i t)
      → Covers (last_term b) (last_index b) t i
      → (i ≤ last_index b) × HasAt b i t
  base-HasAt b w made p well has known covers = elim (dec_lt 0 (last_index b)) [
    | no empty ↦ elim covers [
      | inl above ↦ absurd (omega (arith, above, last_term-start b w (omega arith)))
      | inr (same, le) ↦ (
        le,
        HasAt-Agree b p.log 0 i t (IsWhole-start b p.log w well.whole) (omega (arith, le)) has,
      )
    ]
    | yes some_left ↦
        let last = last_entry b.first b.rest in
        let o = made (last_index b) last some_left (last-view b w.good) in
        elim covers [
          | inl above ↦
              let there = known o.owner o.node o.led (omega (arith, above, o.term)) o.term in
              let (x, seen, _) = HasAt-inv o.node.log i t there in
              let (_, le, _, _, _) =
                view-inv o.node.log (k.leader o.owner o.node o.led).well.whole.good i x seen in
              (
                omega (arith, le, o.index),
                HasAt-Agree b o.node.log (last_index b) i t o.agree (omega (arith, le, o.index))
                    there,
              )
          | inr (same, le) ↦ (
            le,
            HasAt-Agree b o.node.log (last_index b) i t o.agree le (
                shared i p well has o.owner o.node o.led (o.term ∙ sym same)
                  (omega (arith, o.index, le))),
          )
        ]
  ]

  complete :
      (bound : ℕ) (v : NodeId) (g : Node D)
      → Led c.past v g
      → t < g.current_term
      → g.current_term < bound
      → HasAt g.log i t
  complete zero v g led above lt = absurd (omega arith)
  complete (suc bound) v g led above lt =
      let e = full.elected v g led in
      let (w, in_stored, in_votes) =
        majorities_meet members stored.voters e.voters stored.majority e.majority in
      let p = Elem-All (HasStored c.past i t) stored.voters w stored.stored in_stored in
      let vote =
        Elem-All
          (VoteFresh c.past c.base.node g.current_term g.current_term (last_term e.base)
            (last_index e.base))
          e.voters w e.votes in_votes in
      elim (vote.fresh p.node p.was (omega (arith, p.term)) i
        (subst (HasAt p.node.log i) (sym p.term) p.has)) [
          | inl covers ↦
              let (le, has) =
                base-HasAt e.base e.whole e.made p.node (full.past_well w p.node p.was) p.has
                  (λ u h l up at. complete bound u h l up (omega (arith, at, e.older)))
                  (subst (λ x. Covers (last_term e.base) (last_index e.base) x i) p.term covers) in
              HasAt-Agree g.log e.base (last_index e.base) i t e.agree le has
          | inr broken ↦
              let h =
                complete bound broken.owner broken.node broken.led
                  (omega (arith, broken.above, p.term)) (omega (arith, broken.below)) in
              absurd (ground (arith, h, broken.lacks, p.term))
        ]

  -- What a majority has stored in a term, every leader of a later term has.
  pub leader_complete :
      (v : NodeId) (g : Node D) → Led c.past v g → t < g.current_term → HasAt g.log i t
  leader_complete v g led above = complete (g.current_term + 1) v g led above (omega arith)
