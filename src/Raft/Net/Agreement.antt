-- ===== src/Raft/Net/Agreement.antt =====
-- What Raft promises of the log, over every run of the cluster (raft/*.go): a leader only appends,
-- every later leader has what is committed, and no two members commit to different entries.
use fraud_scoring_platform.Raft.Cluster.Ledger.{Backed, Backed-unique}
use fraud_scoring_platform.Raft.Log.Lookup.{view-inv}
use fraud_scoring_platform.Raft.Net.Complete.{leader_complete}
use fraud_scoring_platform.Raft.Net.Joined.{HasAt-inv}
use fraud_scoring_platform.Raft.Log.{RaftLog, last_index}
use fraud_scoring_platform.Raft.Log.Shape.{view}
use fraud_scoring_platform.Raft.Net.Commit.{
  NetStep-IsReplicated, IsNetStart-IsReplicated, CommitOk-IsPast,
}
use fraud_scoring_platform.Raft.Net.Safety.{NetStep-IsComplete, IsNetStart-IsComplete}
use fraud_scoring_platform.Raft.Net.Origins.{Led, IsWhole-start, IsPast}
use fraud_scoring_platform.Raft.Net.Committed.{
  IsCommitted, ahead-Agree, committed-Agree, IsReplicated, CommitOk,
}
use fraud_scoring_platform.Raft.Net.Fresh.{IsComplete}
use fraud_scoring_platform.Raft.Net.Matching.{NetStep-IsMatched, IsNetStart-IsMatched}
use fraud_scoring_platform.Raft.Net.Matched.{IsMatched}
use fraud_scoring_platform.Raft.Net.{send, step, here, next, NetSteps, NetStep, IsNetStart, Net}
use fraud_scoring_platform.Raft.Cluster.Majority.{Distinct}
use fraud_scoring_platform.Raft.Types.{leader, nobody, NodeId}
use fraud_scoring_platform.Raft.Storage.{IsStorage, Storage}
use fraud_scoring_platform.Prelude.{
  subst, dec_lt, ◌∙◌, sym, inl, inr, ◌≤◌, ℕ, ◌≡◌, ◌≢◌, Elem, List, arith,
}

module _ {D : Type 0} (s : Storage D) (law : IsStorage s) (members : List NodeId)
    (apart : Distinct members) (real : (i : NodeId) → Elem i members → i ≢ nobody) where
  -- The log of a member that leads reaches what has been committed up to its term.
  leader-inside :
      (c : Net D) (k : IsMatched s members c)
      → IsComplete members c
      → (l : RaftLog) (e u : ℕ) (h : IsCommitted members c.past l e u) (v : NodeId) → Elem v members
      → (c.base.node v).role ≡ leader
      → h.node.current_term ≤ (c.base.node v).current_term
      → h.index ≤ last_index (c.base.node v).log
  leader-inside c k full l e u h v in_v leads up =
      let n = c.base.node v in
      let led : Led c.past v n = record { was = (k.member v in_v).present leads; role = leads } in
      let own = k.leader v n led in
      elim (dec_lt h.node.current_term n.current_term) [
        | yes above ↦
            let (x, seen, _) = HasAt-inv n.log h.index h.node.current_term (
              leader_complete s members c k full h.index h.node.current_term h.stored v n led
                above) in
            let (_, hi, _, _, _) = view-inv n.log own.well.whole.good h.index x seen in hi
        | no same ↦
            let one =
              Backed-unique members c.base.node c.base.history n.current_term h.owner v
                k.sound.ledger
                (subst (λ t. Backed members c.base.history t h.owner) (omega (arith, up, same))
                  (k.leader h.owner h.node h.led).backed)
                own.backed in
            elim ((k.member v in_v).behind h.node (subst (λ o. Led c.past o h.node) one h.led)) [
              | inl older ↦ absurd (omega (arith, older, same))
              | inr (_, _, has) ↦ omega (arith, (has leads).0, h.inside)
            ]
      ]

  pub record IsSafe (c : Net D) : Type 0 where
    pub logs : IsMatched s members c
    pub leaders : IsComplete members c
    pub commits : IsReplicated members c

  pub NetSteps-IsSafe : (c d : Net D) → IsSafe c → NetSteps s members c d → IsSafe d
  NetSteps-IsSafe c d k here = k
  NetSteps-IsSafe c e k (next {d} more last) =
      let h = NetSteps-IsSafe c d k more in
      record {
        logs = NetStep-IsMatched s law members apart real d e h.logs last;
        leaders = NetStep-IsComplete s law members apart real d e h.logs h.leaders last;
        commits = NetStep-IsReplicated s law members apart real d e h.logs h.leaders h.commits last;
      }

  pub IsNetStart-IsSafe : (c : Net D) → IsNetStart s members c → IsSafe c
  IsNetStart-IsSafe c h = record {
    logs = IsNetStart-IsMatched s law members apart real c h;
    leaders = IsNetStart-IsComplete s law members apart real c h;
    commits = IsNetStart-IsReplicated s law members apart real c h;
  }

  NetStep-IsPast : (c d : Net D) → NetStep s members c d → IsPast c.past d.past
  NetStep-IsPast c d (step b st room after honest) p e = inr e
  NetStep-IsPast c d (send i peer t args at room sent) p e = e

  NetSteps-IsPast : (c d : Net D) → NetSteps s members c d → IsPast c.past d.past
  NetSteps-IsPast c d here p e = e
  NetSteps-IsPast c e (next {d} more last) p h =
      NetStep-IsPast d e last p (NetSteps-IsPast c d more p h)

  module _ (c d e : Net D) (start : IsNetStart s members c) (before : NetSteps s members c d)
      (after : NetSteps s members d e) where
    IsSafe-then : IsSafe d
    IsSafe-then = NetSteps-IsSafe c d (IsNetStart-IsSafe c start) before

    IsSafe-now : IsSafe e
    IsSafe-now = NetSteps-IsSafe d e IsSafe-then after

    earlier : IsPast d.past e.past
    earlier = NetSteps-IsPast d e after

    committed-then : (a : NodeId) → Elem a members → CommitOk members e.past (d.base.node a)
    committed-then a in_a =
        CommitOk-IsPast members d.past e.past earlier (d.base.node a)
          (IsSafe-then.commits.commit a in_a)

    -- A leader only appends. Take a run, over a storage that keeps its promises, of a cluster of
    -- distinct, nonempty names that starts with empty logs, nothing committed and nothing sent,
    -- each member a follower that is connected to all others and that has the term, vote and log
    -- that `create` would read from its disk, be it fresh or not. Each step is an action of a
    -- member that does not panic, an election in a term below 2 ^ 64, the handling of a message
    -- that was sent, be it late or again, or a crash between actions with a restart, and no log
    -- gets so long that its next index is no uint64. The log of a member that leads at some time,
    -- and then or later again in the same term, has only grown: all its entries are where they
    -- were.
    pub leader_append_only :
        (a : NodeId)
        → Elem a members
        → (d.base.node a).role ≡ leader
        → (e.base.node a).role ≡ leader
        → (e.base.node a).current_term ≡ (d.base.node a).current_term
        → (last_index (d.base.node a).log ≤ last_index (e.base.node a).log)
          × ((j : ℕ)
              → j ≤ last_index (d.base.node a).log
              → view (e.base.node a).log j ≡ view (d.base.node a).log j)
    leader_append_only a in_a led leads same =
        let n = d.base.node a in
        let was =
          earlier (record { owner = a; node = n }) ((IsSafe-then.logs.member a in_a).present led) in
        elim ((IsSafe-now.logs.member a in_a).behind n (record { was = was; role = led })) [
          | inl older ↦ absurd (omega (arith, older, same))
          | inr (_, _, has) ↦ has leads
        ]

    -- Leader completeness. Take a run, over a storage that keeps its promises, of a cluster of
    -- distinct, nonempty names that starts with empty logs, nothing committed and nothing sent,
    -- each member a follower that is connected to all others and that has the term, vote and log
    -- that `create` would read from its disk, be it fresh or not. Each step is an action of a
    -- member that does not panic, an election in a term below 2 ^ 64, the handling of a message
    -- that was sent, be it late or again, or a crash between actions with a restart, and no log
    -- gets so long that its next index is no uint64. What a member has committed to at some time
    -- stands in the log of every member that leads then or later in a term that is no older than
    -- the first member's term was.
    pub leader_completeness :
        (a b : NodeId) (j : ℕ)
        → Elem a members
        → Elem b members
        → j ≤ (d.base.node a).commit_index
        → (e.base.node b).role ≡ leader
        → (d.base.node a).current_term ≤ (e.base.node b).current_term
        → view (e.base.node b).log j ≡ view (d.base.node a).log j
    leader_completeness a b j in_a in_b le leads later = elim (committed-then a in_a) [
      | inl none_yet ↦
          IsWhole-start (e.base.node b).log (d.base.node a).log
            (IsSafe-now.logs.member b in_b).whole (IsSafe-then.logs.member a in_a).whole j
            (omega (arith, le, none_yet))
      | inr h ↦
          let n = e.base.node b in
          let led : Led e.past b n = record {
            was = (IsSafe-now.logs.member b in_b).present leads;
            role = leads;
          } in
          let up : h.node.current_term ≤ n.current_term = omega (arith, h.upto, later) in
          let reach =
            leader-inside e IsSafe-now.logs IsSafe-now.leaders (d.base.node a).log
              (d.base.node a).commit_index (d.base.node a).current_term h b in_b leads up in
          sym (
            h.agree j le
            ∙ ahead-Agree members s e IsSafe-now.logs IsSafe-now.leaders (d.base.node a).log
                (d.base.node a).commit_index (d.base.node a).current_term h b n led up j
                (omega (arith, le, h.behind)) (omega (arith, le, h.behind, reach)))
    ]

    -- State machine safety. Take a run, over a storage that keeps its promises, of a cluster of
    -- distinct, nonempty names that starts with empty logs, nothing committed and nothing sent,
    -- each member a follower that is connected to all others and that has the term, vote and log
    -- that `create` would read from its disk, be it fresh or not. Each step is an action of a
    -- member that does not panic, an election in a term below 2 ^ 64, the handling of a message
    -- that was sent, be it late or again, or a crash between actions with a restart, and no log
    -- gets so long that its next index is no uint64. Up to the smaller of the index that a member
    -- has committed to and the index that a member has committed to then or later, the logs of the
    -- two have the same entries.
    pub state_machine_safety :
        (a b : NodeId) (j : ℕ)
        → Elem a members
        → Elem b members
        → j ≤ (d.base.node a).commit_index
        → j ≤ (e.base.node b).commit_index
        → view (d.base.node a).log j ≡ view (e.base.node b).log j
    state_machine_safety a b j in_a in_b le le' =
        meet (committed-then a in_a) (IsSafe-now.commits.commit b in_b)
      where
        start-same : j ≡ 0 → view (d.base.node a).log j ≡ view (e.base.node b).log j
        start-same z =
            IsWhole-start (d.base.node a).log (e.base.node b).log
              (IsSafe-then.logs.member a in_a).whole (IsSafe-now.logs.member b in_b).whole j
              (omega (arith, z))

        meet :
            CommitOk members e.past (d.base.node a)
            → CommitOk members e.past (e.base.node b)
            → view (d.base.node a).log j ≡ view (e.base.node b).log j
        meet (inl none_yet) h = start-same (omega (arith, none_yet, le))
        meet (inr g) (inl none_yet) = start-same (omega (arith, none_yet, le'))
        meet (inr g) (inr h) =
            committed-Agree members s e IsSafe-now.logs IsSafe-now.leaders (d.base.node a).log
              (e.base.node b).log (d.base.node a).commit_index (e.base.node b).commit_index
              (d.base.node a).current_term (e.base.node b).current_term g h j le le'
