-- ===== src/Raft/Net/Delivery.antt =====
-- What the appliers of the cluster's members (raft/apply.go) send to their services.
use fraud_scoring_platform.Raft.Service.{apply_msg, messages, next_batch}
use fraud_scoring_platform.Raft.Net.Committed.{committed-inside}
use fraud_scoring_platform.Raft.Node.{Node}
use fraud_scoring_platform.Raft.Service.Batch.{next_batch-IsDelivered, IsApplier}
use fraud_scoring_platform.Raft.Log.Shape.{view, HasRoom}
use fraud_scoring_platform.Raft.Net.Agreement.{
  state_machine_safety, IsNetStart-IsSafe, NetSteps-IsSafe, IsSafe,
}
use fraud_scoring_platform.Raft.Net.{NetSteps, IsNetStart, Net}
use fraud_scoring_platform.Raft.Cluster.Majority.{Distinct}
use fraud_scoring_platform.Raft.Types.{ApplyMsg, ok, Entry, nobody, NodeId}
use fraud_scoring_platform.Raft.Storage.{IsStorage, Storage}
use fraud_scoring_platform.Prelude.{
  sym, ◌∙◌, get_elem?, ℕ, some, ◌≡◌, ap, ◌^◌, ◌<◌, ◌≢◌, Elem, List, arith,
}

module _ {D : Type 0} (s : Storage D) (law : IsStorage s) (members : List NodeId)
    (apart : Distinct members) (real : (i : NodeId) → Elem i members → i ≢ nobody) where
  IsSafe-IsApplier :
      (c : Net D)
      → IsSafe s law members apart real c
      → (v : NodeId) → Elem v members
      → HasRoom (c.base.node v).log
      → (c.base.node v).commit_index < 2 ^ 63
      → IsApplier (c.base.node v)
  IsSafe-IsApplier c k v in_v room small =
      let w = (k.logs.member v in_v).whole in
      record {
        good = w.good;
        room = room;
        above = omega (arith, ap (λ (e : Entry). e.index) w.rooted);
        within =
            committed-inside members c.past (c.base.node v) w
              (λ j g l. (k.logs.leader j g l).well.whole) (k.commits.commit v in_v);
        small = small;
      }

  module _ (c d e : Net D) (start : IsNetStart s members c) (before : NetSteps s members c d)
      (after : NetSteps s members d e) where
    IsSafe-then : IsSafe s law members apart real d
    IsSafe-then =
        NetSteps-IsSafe s law members apart real c d
          (IsNetStart-IsSafe s law members apart real c start) before

    IsSafe-now : IsSafe s law members apart real e
    IsSafe-now = NetSteps-IsSafe s law members apart real d e IsSafe-then after

    -- Services are never sent different messages. Take a run, over a storage that keeps its
    -- promises, of a cluster of distinct, nonempty names that starts with empty logs, nothing
    -- committed and nothing sent, each member a follower that is connected to all others and that
    -- has the term, vote and log that `create` would read from its disk, be it fresh or not. Each
    -- step is an action of a member that does not panic, an election in a term below 2 ^ 64, the
    -- handling of a message that was sent, be it late or again, or a crash between actions with a
    -- restart, and no log gets so long that its next index is no uint64. Take a batch that a
    -- member's applier may have taken at some time, and one that a member's applier may take then
    -- or later, both while the member's next index is a uint64 and its commit index an int.
    -- Messages of the two batches with the same index are the same, term and command included.
    pub delivery_safety :
        (a b : NodeId)
        → Elem a members
        → Elem b members
        → HasRoom (d.base.node a).log
        → HasRoom (e.base.node b).log
        → (d.base.node a).commit_index < 2 ^ 63
        → (e.base.node b).commit_index < 2 ^ 63
        → (es fs : List Entry) (m m' : Node D) → next_batch (d.base.node a) ≡ (ok (some es), m)
        → next_batch (e.base.node b) ≡ (ok (some fs), m')
        → (p q : ℕ) (x y : ApplyMsg) → get_elem? (messages es) p ≡ some x
        → get_elem? (messages fs) q ≡ some y
        → x.index ≡ y.index
        → x ≡ y
    delivery_safety a b in_a in_b room room' small small' es fs m m' took took' p q x y at at'
          same =
        let g =
          next_batch-IsDelivered (d.base.node a) m
            (IsSafe-IsApplier d IsSafe-then a in_a room small) es took p x at in
        let h =
          next_batch-IsDelivered (e.base.node b) m'
            (IsSafe-IsApplier e IsSafe-now b in_b room' small') fs took' q y at' in
        let agree : view (d.base.node a).log x.index ≡ view (e.base.node b).log x.index =
          state_machine_safety s law members apart real c d e start before after a b x.index in_a
            in_b g.upto (omega (arith, h.upto, same)) in
        let here : view (e.base.node b).log x.index ≡ some h.entry =
          ap (view (e.base.node b).log) same ∙ h.seen in
        g.made ∙ ap apply_msg (cc (g.seen, agree, here)) ∙ sym h.made
