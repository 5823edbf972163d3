-- ===== src/Raft/Net/Matching.antt =====
-- Log matching over every run of the cluster: two logs that have an entry of one index and term
-- have the same up to there.
use fraud_scoring_platform.Raft.Net.Merging.{LogMerged-IsMove}
use fraud_scoring_platform.Raft.Create.Restart.{create-inv}
use fraud_scoring_platform.Raft.Net.Sent.{sent-RequestWell, prepare_append_lem}
use fraud_scoring_platform.Raft.Net.Stepped.{stepped-IsMatched}
use fraud_scoring_platform.Raft.Net.Moves.{LogGrown-IsMove, LogKept-IsMove, IsMove}
use fraud_scoring_platform.Raft.Cluster.Safety.{Step-Subset, Step-IsSound, IsStart-IsSound}
use fraud_scoring_platform.Raft.Cluster.{
  restart, deliver, vote, elect, act, set_node, Step, Cluster,
}
use fraud_scoring_platform.Raft.Net.Origins.{logs_match, Led, IsWhole}
use fraud_scoring_platform.Raft.Net.Matched.{RequestWell, IsMatched, MemberWell}
use fraud_scoring_platform.Raft.Net.Growth.{
  on_vote_reply-log, handle_request_vote-LogKept, start_election-log, from_sum, perform-log,
  LogMove, LogKept, LogMerged,
}
use fraud_scoring_platform.Raft.Cluster.Majority.{Distinct}
use fraud_scoring_platform.Raft.Types.{reply, Entry, nobody, follower, NodeId, AppendEntriesArgs}
use fraud_scoring_platform.Raft.Net.{
  send, step_replies, IsHonest, moved_to, mover, here, step, next, NetSteps, NetStep, HaveRoom,
  IsNetStart, Net, Past,
}
use fraud_scoring_platform.Raft.Node.{Node}
use fraud_scoring_platform.Raft.Log.Shape.{view, view_in}
use fraud_scoring_platform.Raft.Replication.Merge.{merged}
use fraud_scoring_platform.Raft.Storage.{IsStorage, Storage}
use fraud_scoring_platform.Raft.Log
use fraud_scoring_platform.Prelude.{
  ◌∷◌, ◌++◌, inr, ◌≤◌, inl, some, sym, ℕ, ap, subst, ◌∙◌, ◌≢◌, Elem, [], ◌≡◌, List, arith, refl,
}

-- A request without entries changes no log.
pub LogMerged-LogKept :
    {D : Type 0} (n m : Node D) (args : AppendEntriesArgs)
    → LogMerged n m args
    → args.entries ≡ []
    → LogKept n m
unfolding merged
LogMerged-LogKept n m args joined empty = record {
  log = joined.log ∙ ap (merged n.log) empty;
  term = omega (arith, joined.current, joined.term);
  stands = λ t r. cc (r, joined.role);
  leads = λ r. cc (r, joined.role);
}

-- A member that has just been created with an empty log.
new-MemberWell :
    {D : Type 0} (past : List (Past D)) (i : NodeId) (n : Node D)
    → past ≡ []
    → n.log ≡ Log.new_raft_log
    → n.role ≡ follower
    → MemberWell past i n
unfolding view_in
new-MemberWell past i n none_past empty rests = record {
  whole = subst IsWhole (sym empty) (record { rooted = refl; good = tt });
  made = λ d x lt at. absurd (ground (arith, at, empty));
  newest = ground (arith, empty);
  some_term = λ r. absurd (r rests);
  present = λ r. cc (r, rests);
  behind = λ m l. absurd (subst (Elem (record { owner = i; node = m })) none_past l.was);
}

module _ {D : Type 0} (s : Storage D) (law : IsStorage s) (members : List NodeId)
    (apart : Distinct members) (real : (i : NodeId) → Elem i members → i ≢ nobody) where
  pub IsNetStart-IsMatched : (c : Net D) → IsNetStart s members c → IsMatched s members c
  IsNetStart-IsMatched c h = record {
    sound = IsStart-IsSound s law members apart real c.base h.start;
    member = λ i e.
        new-MemberWell c.past i (c.base.node i) h.no_past (h.empty i e) (h.start.no_leader i e);
    leader = λ i n l. absurd (unpast i n l);
    chained = λ i j n m a b. absurd (unpast i n a);
    request = λ args e. absurd (subst (Elem args) h.no_requests e);
  }
    where
      unpast : (i : NodeId) (n : Node D) → Led c.past i n → ⊥
      unpast i n l = subst (Elem (record { owner = i; node = n })) h.no_past l.was

  module _ (c : Net D) (k : IsMatched s members c) (room : HaveRoom s members c.base) where
    -- A change of the log that the methods allow is a move that keeps the logs matched.
    pub LogMove-IsMove :
        (i : NodeId)
        → Elem i members
        → (m : Node D) → LogMove c.requests (c.base.node i) m
        → IsMove c.past i (c.base.node i) m
    LogMove-IsMove i at m (inl kept) =
        let old = k.member i at in
        LogKept-IsMove c.past i (c.base.node i) m old kept
          (λ r. (k.leader i (c.base.node i) (record { was = old.present r; role = r })).well)
    LogMove-IsMove i at m (inr (inl grown)) =
        LogGrown-IsMove c.past i (c.base.node i) m (k.member i at) grown (room i at)
    LogMove-IsMove i at m (inr (inr (args, sent, joined))) =
        let n = c.base.node i in
        let old = k.member i at in
        let r = k.request args sent in
        let well = (k.leader args.leader_id r.node r.led).well in
        elim r.source [
          | inl copied ↦
              LogMerged-IsMove c.past i n m old args joined (room i at) r.node r.led well r.term
                r.request copied k.chained
          | inr (empty, _, _) ↦
              LogKept-IsMove c.past i n m old (LogMerged-LogKept n m args joined empty)
                (λ r. (k.leader i n (record { was = old.present r; role = r })).well)
        ]

    pub step-LogMove :
        (d : Cluster D) (st : Step s members c.base d)
        → IsHonest s members c d st
        → Elem (mover s members c.base d st) members
          × LogMove c.requests
              (c.base.node (mover s members c.base d st))
              (moved_to s members c.base d st)
    step-LogMove d (act i a at l done) sent = (
      at,
      perform-log c (λ args e. (k.request args e).request) i a (c.base.node i) l sent
          (k.member i at).whole.good (room i at) done,
    )
    step-LogMove d (elect i v at term up idle done) sent =
        (at, from_sum c.requests (c.base.node i) _ (start_election-log (c.base.node i) v term done))
    step-LogMove d (vote i t r at known done) sent =
        (at, inl (handle_request_vote-LogKept (c.base.node i) t.args (reply r) done))
    step-LogMove d (deliver i t a v known sent_a same mine waits done) sent = (
      subst (λ w. Elem w members) (sym mine) (k.sound.tally t known).owner,
      from_sum c.requests (c.base.node i) _
          (on_vote_reply-log (c.base.node i) t.args a.answer t.votes v done),
    )
    step-LogMove d (restart i g m at name all disk made) sent = (
      at,
      inl (
          subst (LogKept (c.base.node i))
            (sym (create-inv s (c.base.node i) m g (k.sound.member i at).restorable disk made))
            (record { log = refl; term = omega arith; stands = λ t r. cc r; leads = λ r. cc r })),
    )

    pub step-node :
        (d : Cluster D) (st : Step s members c.base d)
        → d.node
          ≡ set_node c.base.node (mover s members c.base d st) (moved_to s members c.base d st)
    step-node d (act i a at l done) = refl
    step-node d (elect i v at term up idle done) = refl
    step-node d (vote i t r at known done) = refl
    step-node d (deliver i t a v known sent_a same mine waits done) = refl
    step-node d (restart i g m at name all disk made) = refl

  pub NetStep-IsMatched :
      (c d : Net D) → IsMatched s members c → NetStep s members c d → IsMatched s members d
  NetStep-IsMatched c d k (step b st room after honest) =
      let (at, move) = step-LogMove c k room b st honest in
      let i = mover s members c.base b st in
      let m = moved_to s members c.base b st in
      stepped-IsMatched s law members real c k i at m b (step-node c k room b st)
        (Step-IsSound s law members apart real c.base b k.sound st)
        (Step-Subset s law members apart real c.base b st) (LogMove-IsMove c k room i at m move)
        (step_replies s members c.base b st ++ c.replies)
  NetStep-IsMatched c d k (send i peer t args at room sent) = record {
    sound = k.sound;
    member = k.member;
    leader = k.leader;
    chained = k.chained;
    request = with_request;
  }
    where
      n : Node D
      n = c.base.node i

      made : RequestWell c.past args
      made =
          let old = k.member i at in
          let (role, _, name, _, _, _, _) =
            prepare_append_lem n peer t args old.whole (room i at) sent in
          sent-RequestWell n peer t args old.whole (room i at) sent c.past (record {
            was =
                subst (λ o. Elem (record { owner = o; node = n }) c.past)
                  (sym (k.sound.member i at).named ∙ name) (old.present role);
            role = role;
          })

      with_request : (r : AppendEntriesArgs) → Elem r (args ∷ c.requests) → RequestWell c.past r
      with_request r (inl e) = subst (RequestWell c.past) e made
      with_request r (inr e) = k.request r e

  pub NetSteps-IsMatched :
      (c d : Net D) → IsMatched s members c → NetSteps s members c d → IsMatched s members d
  NetSteps-IsMatched c d k here = k
  NetSteps-IsMatched c e k (next {d} more last) =
      NetStep-IsMatched d e (NetSteps-IsMatched c d k more) last

  -- Log matching. Take a run, over a storage that keeps its promises, of a cluster of distinct,
  -- nonempty names that starts with empty logs, nothing committed and nothing sent, each member a
  -- follower that is connected to all others and that has the term, vote and log that `create`
  -- would read from its disk, be it fresh or not. Each step is an action of a member that does not
  -- panic, an election in a term below 2 ^ 64, the handling of a message that was sent, be it late
  -- or again, or a crash between actions with a restart, and no log gets so long that its next
  -- index is no uint64. If the logs of two members have entries of one index and one term, the logs
  -- have the same entries up to that index.
  pub log_matching :
      (c d : Net D) (a b : NodeId) (i : ℕ) (x y : Entry)
      → IsNetStart s members c
      → NetSteps s members c d
      → Elem a members
      → Elem b members
      → view (d.base.node a).log i ≡ some x
      → view (d.base.node b).log i ≡ some y
      → x.term ≡ y.term
      → (j : ℕ) → j ≤ i
      → view (d.base.node a).log j ≡ view (d.base.node b).log j
  log_matching c d a b i x y start steps in_a in_b at_x at_y same =
      let k = NetSteps-IsMatched c d (IsNetStart-IsMatched c start) steps in
      let p = k.member a in_a in
      let q = k.member b in_b in
      logs_match d.past k.chained (d.base.node a).log (d.base.node b).log p.whole q.whole p.made
        q.made i x y at_x at_y same
