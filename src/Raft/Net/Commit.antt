-- ===== src/Raft/Net/Commit.antt =====
-- State machine safety over every run of the cluster (raft/*.go): what two members have committed
-- is the same, whenever they have.
use fraud_scoring_platform.Raft.Net.Replies.{step-reply, step-commit}
use fraud_scoring_platform.Raft.Cluster.Safety.{Step-IsSound}
use fraud_scoring_platform.Raft.Net.Replicate.{moved-MatchOk, moved-CommitOk}
use fraud_scoring_platform.Raft.Create.{others}
use fraud_scoring_platform.Raft.Cluster.Ledger.{set_node-others}
use fraud_scoring_platform.Raft.Net.Onward.{Elem-cases, longer}
use fraud_scoring_platform.Raft.Net.Progress.{MatchStep, CommitStep}
use fraud_scoring_platform.Raft.Cluster.Moves.{set_node_self}
use fraud_scoring_platform.Raft.Log.{last_index}
use fraud_scoring_platform.Raft.Net.Matching.{step-node, step-LogMove}
use fraud_scoring_platform.Raft.Log.Shape.{HasRoom}
use fraud_scoring_platform.Raft.Net.Growth.{LogMove}
use fraud_scoring_platform.Raft.Cluster.{set_node, Step, Cluster}
use fraud_scoring_platform.Raft.Net.Fresh.{IsComplete}
use fraud_scoring_platform.Raft.Net.Matched.{MemberWell, IsMatched}
use fraud_scoring_platform.Raft.Net.Committed.{
  StoredBy-IsPast, committed-inside, IsReplicated, IsCommitted-IsPast, CommitOk, MatchOk,
}
use fraud_scoring_platform.Raft.Node.{Node}
use fraud_scoring_platform.Raft.Cluster.Majority.{Distinct}
use fraud_scoring_platform.Raft.Net.Origins.{IsPast}
use fraud_scoring_platform.Raft.Net.{
  send, step, NetStep, IsNetStart, step_replies, mover, moved_to, IsHonest, HaveRoom, Net, Past,
}
use fraud_scoring_platform.Raft.Types.{leader, nobody, NodeId}
use fraud_scoring_platform.Raft.Storage.{IsStorage, Storage}
use fraud_scoring_platform.Prelude.{
  sym, ◌∙◌, ap, subst, ◌≡◌, ◌≤◌, [], inl, ◌∷◌, inr, ◌⊎◌, ◌≢◌, ◌++◌, Elem, List, arith, refl,
}

Elem-append : {A : Type 0} (a : A) (xs ys : List A) → Elem a (xs ++ ys) → Elem a xs ⊎ Elem a ys
Elem-append a [] ys h = inr h
Elem-append a (x ∷ xs) ys (inl e) = inl (inl e)
Elem-append a (x ∷ xs) ys (inr h) = elim (Elem-append a xs ys h) [
  | inl k ↦ inl (inr k)
  | inr k ↦ inr k
]

pub CommitOk-IsPast :
    {D : Type 0} (members : List NodeId) (ps qs : List (Past D))
    → IsPast ps qs
    → (n : Node D) → CommitOk members ps n
    → CommitOk members qs n
CommitOk-IsPast members ps qs sub n (inl none_yet) = inl none_yet
CommitOk-IsPast members ps qs sub n (inr h) = inr (
    IsCommitted-IsPast members ps qs sub n.log n.log n.commit_index n.commit_index n.current_term
      n.current_term (omega arith) (omega arith) (λ j le. refl) h)

MatchOk-IsPast :
    {D : Type 0} (ps qs : List (Past D))
    → IsPast ps qs
    → (n : Node D) (q : NodeId) → MatchOk ps n q
    → MatchOk qs n q
MatchOk-IsPast ps qs sub n q (inl none_known) = inl none_known
MatchOk-IsPast ps qs sub n q (inr h) = inr (record {
  node = h.node;
  was = sub (record { owner = q; node = h.node }) h.was;
  term = h.term;
  inside = h.inside;
  agree = h.agree;
})

module _ {D : Type 0} (s : Storage D) (law : IsStorage s) (members : List NodeId)
    (apart : Distinct members) (real : (i : NodeId) → Elem i members → i ≢ nobody) where
  module _ (c : Net D) (k : IsMatched s members c) (full : IsComplete members c)
      (rep : IsReplicated members c) (room : HaveRoom s members c.base) (b : Cluster D)
      (st : Step s members c.base b) (room_after : HaveRoom s members b)
      (honest : IsHonest s members c b st) where
    abbrev i : NodeId
    i = mover s members c.base b st

    abbrev n : Node D
    n = c.base.node i

    abbrev m : Node D
    m = moved_to s members c.base b st

    pub at : Elem i members
    at = (step-LogMove s law members apart real c k room b st honest).0

    pub move : LogMove c.requests n m
    move = (step-LogMove s law members apart real c k room b st honest).1

    moves : b.node ≡ set_node c.base.node i m
    moves = step-node s law members apart real c k room b st

    node-is : b.node i ≡ m
    node-is = ap (λ f. f i) moves ∙ set_node_self s law members real c.base.node i m

    after : HasRoom m.log
    after = subst (λ (x : Node D). HasRoom x.log) node-is (room_after i at)

    old : MemberWell c.past i n
    old = k.member i at

    within : n.commit_index ≤ last_index n.log
    within =
        committed-inside members c.past n old.whole (λ j g l. (k.leader j g l).well.whole)
          (rep.commit i at)

    abbrev past' : List (Past D)
    past' = longer s members c k full room i at m move

    later : IsPast c.past past'
    later p e = inr e

    connected : m.peers ≡ others i members
    connected =
        ap (λ (x : Node D). x.peers) (sym node-is)
        ∙ ((Step-IsSound s law members apart real c.base b k.sound st).member i at).connected

    both : CommitStep c n m × MatchStep c i n m
    both = step-commit s law members apart real c k room b st honest at within after

    new-CommitOk : CommitOk members past' m
    new-CommitOk =
        moved-CommitOk s law members apart real c k full rep room i at m move both.0 both.1
          connected

    pub step-IsReplicated : IsReplicated members (record {
      base = b;
      requests = c.requests;
      replies = step_replies s members c.base b st ++ c.replies;
      past = past';
    })
    step-IsReplicated = record {
      commit =
          subst (λ f. (v : NodeId) → Elem v members → CommitOk members past' (f v)) (sym moves)
            (set_node-others members c.base.node i m (λ v x. CommitOk members past' x) new-CommitOk
              (λ v e ne.
                CommitOk-IsPast members c.past past' later (c.base.node v) (rep.commit v e)));
      past_commit = λ v p e. elim (Elem-cases s members c k full room i at m move v p e) [
        | inl (_, same) ↦ subst (CommitOk members past') same new-CommitOk
        | inr before ↦ CommitOk-IsPast members c.past past' later p (rep.past_commit v p before)
      ];
      reply = λ a e yes_reply.
          elim (Elem-append a (step_replies s members c.base b st) c.replies e) [
            | inl new ↦ step-reply s law members apart real c k room b st honest a new yes_reply
            | inr before ↦
                StoredBy-IsPast members c.past past' later a (rep.reply a before yes_reply)
          ];
      matched =
          subst
            (λ f.
              (v : NodeId)
              → Elem v members
              → (f v).role ≡ leader
              → (q : NodeId) → MatchOk past' (f v) q)
            (sym moves)
            (set_node-others members c.base.node i m
              (λ v x. x.role ≡ leader → (q : NodeId) → MatchOk past' x q)
              (moved-MatchOk s law members apart real c k full rep room i at m move both.0 both.1)
              (λ v e ne r q.
                MatchOk-IsPast c.past past' later (c.base.node v) q (rep.matched v e r q)));
    }

  pub NetStep-IsReplicated :
      (c d : Net D)
      → IsMatched s members c
      → IsComplete members c
      → IsReplicated members c
      → NetStep s members c d
      → IsReplicated members d
  NetStep-IsReplicated c d k full rep (step b st room after honest) =
      step-IsReplicated c k full rep room b st after honest
  NetStep-IsReplicated c d k full rep (send i peer t args member room sent) = record {
    commit = rep.commit;
    past_commit = rep.past_commit;
    reply = rep.reply;
    matched = rep.matched;
  }

  pub IsNetStart-IsReplicated : (c : Net D) → IsNetStart s members c → IsReplicated members c
  IsNetStart-IsReplicated c h = record {
    commit = λ v e. inl (h.uncommitted v e);
    past_commit = λ v p e. absurd (subst (Elem (record { owner = v; node = p })) h.no_past e);
    reply = λ a e yes_reply. absurd (subst (Elem a) h.no_replies e);
    matched = λ v e r q. cc (r, h.start.no_leader v e);
  }
