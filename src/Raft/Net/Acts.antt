-- ===== src/Raft/Net/Acts.antt =====
-- Every action of a node (raft/*.go), by what Progress.antt says of it.
use fraud_scoring_platform.Raft.Net.Advance.{propose-commit, CommitMove, propose-match}
use fraud_scoring_platform.Raft.Service.{stop, start, finish_batch, next_batch, propose}
use fraud_scoring_platform.Raft.Net.Growth.{LogMerged}
use fraud_scoring_platform.Raft.Cluster.{IsLocal}
use fraud_scoring_platform.Raft.Net.Progress.{
  reply-commit, reply-MatchStep, MatchKept-MatchStep, CommitStep, MatchStep,
}
use fraud_scoring_platform.Raft.Replication.{prepare_append, leader_round, handle_append_entries}
use fraud_scoring_platform.Raft.Replication.Handler.{
  handle_append_entries-Handled, Stored, Handled, knows_prev,
}
use fraud_scoring_platform.Raft.Log.{last_index, last_term}
use fraud_scoring_platform.Raft.Replication.Accept.{IsRequest}
use fraud_scoring_platform.Raft.Log.Shape.{HasRoom}
use fraud_scoring_platform.Raft.Net.Origins.{IsWhole}
use fraud_scoring_platform.Raft.Node.{discard_lem, Node}
use fraud_scoring_platform.Raft.Types.{
  refuse, reply, ok, AppendEntriesReply, Answer, AppendEntriesArgs, NodeId,
}
use fraud_scoring_platform.Raft.Net.{IsSent, Net}
use fraud_scoring_platform.Raft.Action.{
  perform, Action, do_tick, do_vote_reply, do_request_vote, do_append_entries, do_leader_round,
  do_prepare_append, do_append_reply, do_propose, do_next_batch, do_finish_batch, do_start, do_stop,
}
use fraud_scoring_platform.Prelude.{
  [], ◌∷◌, ◌∙◌, Bool-cases, sym, ap, inl, inr, subst, true, ◌≡◌, ◌≤◌, Elem, arith,
}

module _ {D : Type 0} (c : Net D) (i : NodeId) (n : Node D) (w : IsWhole n.log)
    (room : HasRoom n.log) where
  module _ (args : AppendEntriesArgs) (sent : Elem args c.requests) (req : IsRequest args) where
    abbrev m : Node D
    m = (handle_append_entries args n).1

    handled :
        (a : Answer AppendEntriesReply)
        → (handle_append_entries args n).0 ≡ ok a
        → Handled n args (ok a) m
    handled a done =
        subst (λ o. Handled n args o m) done (handle_append_entries-Handled n args w.good room req)

    Stored-LogMerged : knows_prev n args ≡ true → Stored n args m → LogMerged n m args
    Stored-LogMerged known st = record {
      known = known;
      log = ground (arith, st.log);
      current = st.current;
      term = st.term;
      role = st.role;
    }

    Handled-commit : (a : Answer AppendEntriesReply) → Handled n args (ok a) m → CommitStep c n m
    Handled-commit (refuse e) h = inl (inl (ap (λ (x : Node D). x.commit_index) h.2))
    Handled-commit (reply r) (run, inl stale) =
        inl (inl (ap (λ (x : Node D). x.commit_index) stale.2))
    Handled-commit (reply r) (run, inr (e, st)) = elim (Bool-cases (knows_prev n args)) [
      | inl known ↦ inr (args, sent, Stored-LogMerged known st, ground (arith, st.commit))
      | inr lacks ↦ inl (inl (ground (arith, st.commit)))
    ]

    Handled-match : (a : Answer AppendEntriesReply) → Handled n args (ok a) m → MatchStep c i n m
    Handled-match (refuse e) h r q = same h.2 r q
      where
        same : m ≡ n → MatchStep c i n m
        same e r q = inr (
          ap (λ (x : Node D). x.role) (sym e) ∙ r,
          ap (λ (x : Node D). x.current_term) e,
          inl (ap (λ (x : Node D). x.match_index q) e),
        )
    Handled-match (reply t) (run, inl stale) r q = inr (
      ap (λ (x : Node D). x.role) (sym stale.2) ∙ r,
      ap (λ (x : Node D). x.current_term) stale.2,
      inl (ap (λ (x : Node D). x.match_index q) stale.2),
    )
    Handled-match (reply t) (run, inr (e, st)) r q = cc (r, st.role)

    Handled-success :
        (r : AppendEntriesReply)
        → Handled n args (ok (reply r)) m
        → r.success ≡ true
        → LogMerged n m args
    Handled-success r (run, inl stale) yes_reply = absurd (ground (arith, stale.1, yes_reply))
    Handled-success r (run, inr (e, st)) yes_reply =
        Stored-LogMerged (ap (λ (x : AppendEntriesReply). x.success) (sym e) ∙ yes_reply) st

    -- A reply of success comes from a log into which the entries were merged.
    pub append-success :
        (r : AppendEntriesReply)
        → (handle_append_entries args n).0 ≡ ok (reply r)
        → r.success ≡ true
        → LogMerged n m args
    append-success r done = Handled-success r (handled (reply r) done)

  module _ (reqs : (args : AppendEntriesArgs) → Elem args c.requests → IsRequest args)
      (newest : last_term n.log ≤ n.current_term) (within : n.commit_index ≤ last_index n.log) where
    pub perform-commit :
        (a : Action)
        → IsLocal a
        → IsSent c i a
        → HasRoom (perform a n).1.log
        → (perform a n).0 ≡ ok tt
        → CommitStep c n (perform a n).1
    unfolding perform
    perform-commit (do_tick expired) l sent after k = elim l [ ]
    perform-commit (do_vote_reply args answer votes) l sent after k = elim l [ ]
    perform-commit (do_request_vote args) l sent after k = elim l [ ]
    perform-commit (do_append_entries args) l sent after k =
        discard_lem (handle_append_entries args n) (CommitStep c n)
          (λ a e.
            Handled-commit args sent (reqs args sent) a (handled args sent (reqs args sent) a e))
          k
    perform-commit (do_leader_round t) l sent after k =
        inl (inl (unfold leader_round in ground arith))
    perform-commit (do_prepare_append peer t) l sent after k =
        inl (inl (unfold prepare_append in ground arith))
    perform-commit (do_append_reply peer args answer) l sent after k =
        inl (reply-commit c i n peer args answer w room newest within k)
    perform-commit (do_propose command) l sent after k = inl (
        discard_lem (propose command n) (λ m. HasRoom m.log → CommitMove n m)
          (λ a e h. propose-commit n w room newest within command h) k after)
    perform-commit do_next_batch l sent after k = inl (inl (unfold next_batch in ground arith))
    perform-commit (do_finish_batch []) l sent after k =
        inl (inl (unfold finish_batch in ground arith))
    perform-commit (do_finish_batch (e ∷ es)) l sent after k =
        inl (inl (unfold finish_batch in ground arith))
    perform-commit do_start l sent after k = inl (inl (unfold start in ground arith))
    perform-commit do_stop l sent after k = inl (inl (unfold stop in ground arith))

    pub perform-match :
        (a : Action)
        → IsLocal a
        → IsSent c i a
        → (perform a n).0 ≡ ok tt
        → MatchStep c i n (perform a n).1
    unfolding perform
    perform-match (do_tick expired) l sent k = elim l [ ]
    perform-match (do_vote_reply args answer votes) l sent k = elim l [ ]
    perform-match (do_request_vote args) l sent k = elim l [ ]
    perform-match (do_append_entries args) l sent k =
        discard_lem (handle_append_entries args n) (MatchStep c i n)
          (λ a e.
            Handled-match args sent (reqs args sent) a (handled args sent (reqs args sent) a e))
          k
    perform-match (do_leader_round t) l sent k =
        MatchKept-MatchStep c i n _ (unfold leader_round in ground arith)
    perform-match (do_prepare_append peer t) l sent k =
        MatchKept-MatchStep c i n _ (unfold prepare_append in ground arith)
    perform-match (do_append_reply peer args answer) l sent k =
        reply-MatchStep c i n peer args answer k sent.0 sent.1
    perform-match (do_propose command) l sent k =
        discard_lem (propose command n) (MatchStep c i n)
          (λ a e.
            MatchKept-MatchStep c i n (propose command n).1
              (propose-match n w room newest within command))
          k
    perform-match do_next_batch l sent k =
        MatchKept-MatchStep c i n _ (unfold next_batch in ground arith)
    perform-match (do_finish_batch []) l sent k =
        MatchKept-MatchStep c i n _ (unfold finish_batch in ground arith)
    perform-match (do_finish_batch (e ∷ es)) l sent k =
        MatchKept-MatchStep c i n _ (unfold finish_batch in ground arith)
    perform-match do_start l sent k = MatchKept-MatchStep c i n _ (unfold start in ground arith)
    perform-match do_stop l sent k = MatchKept-MatchStep c i n _ (unfold stop in ground arith)
