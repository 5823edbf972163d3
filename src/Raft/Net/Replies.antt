-- ===== src/Raft/Net/Replies.antt =====
-- What a step of the cluster (raft/*.go) does to the commit index of a member and to what a leader
-- knows of its peers, and the replies that it sends.
use fraud_scoring_platform.Raft.Net.Merging.{merged-Agree}
use fraud_scoring_platform.Raft.Net.Joined.{HasAt-inv}
use fraud_scoring_platform.Raft.Replication.{handle_append_entries}
use fraud_scoring_platform.Raft.Replication.Merge.{has_at}
use fraud_scoring_platform.Raft.Action.{
  perform, Action, do_tick, do_vote_reply, do_request_vote, do_append_entries, do_leader_round,
  do_prepare_append, do_append_reply, do_propose, do_next_batch, do_finish_batch, do_start, do_stop,
}
use fraud_scoring_platform.Raft.Create.Restart.{create-inv}
use fraud_scoring_platform.Raft.Net.Wins.{
  on_vote_reply-commit, handle_request_vote-commit, start_election-commit,
}
use fraud_scoring_platform.Raft.Net.Acts.{append-success, perform-match, perform-commit}
use fraud_scoring_platform.Raft.Replication.Accept.{IsRequest}
use fraud_scoring_platform.Raft.Net.Progress.{MatchKept-MatchStep, MatchStep, CommitStep}
use fraud_scoring_platform.Raft.Net.Advance.{MatchKept, CommitMove}
use fraud_scoring_platform.Raft.Log.{last_index}
use fraud_scoring_platform.Raft.Log.Shape.{HasRoom}
use fraud_scoring_platform.Raft.Net.Growth.{LogMerged}
use fraud_scoring_platform.Raft.Cluster.{IsLocal, restart, deliver, vote, elect, act, Step, Cluster}
use fraud_scoring_platform.Raft.Net.Matched.{IsMatched}
use fraud_scoring_platform.Raft.Net.Committed.{StoredBy}
use fraud_scoring_platform.Raft.Node.{discard_lem, Node}
use fraud_scoring_platform.Raft.Cluster.Majority.{Distinct}
use fraud_scoring_platform.Raft.Net.{
  answer_of, replied, IsSent, step_replies, AppendAnswer, mover, moved_to, IsHonest, HaveRoom, Net,
}
use fraud_scoring_platform.Raft.Types.{
  refuse, ok, Answer, AppendEntriesReply, reply, AppendEntriesArgs, nobody, NodeId,
}
use fraud_scoring_platform.Raft.Storage.{IsStorage, Storage}
use fraud_scoring_platform.Prelude.{
  ◌<◌, sym, true, ◌∙◌, ap, subst, ◌≡◌, ◌≤◌, inl, ◌∷◌, inr, ◌≢◌, Elem, List, arith, refl,
}

module _ {D : Type 0} (s : Storage D) (law : IsStorage s) (members : List NodeId)
    (apart : Distinct members) (real : (i : NodeId) → Elem i members → i ≢ nobody) where
  module _ (c : Net D) (k : IsMatched s members c) (room : HaveRoom s members c.base) where
    quiet :
        (i : NodeId) (n m : Node D)
        → CommitMove n m × MatchKept n m
        → CommitStep c n m × MatchStep c i n m
    quiet i n m (a, b) = (inl a, MatchKept-MatchStep c i n m b)

    pub step-commit :
        (b : Cluster D) (st : Step s members c.base b)
        → IsHonest s members c b st
        → Elem (mover s members c.base b st) members
        → (c.base.node (mover s members c.base b st)).commit_index
          ≤ last_index (c.base.node (mover s members c.base b st)).log
        → HasRoom (moved_to s members c.base b st).log
        → CommitStep c (c.base.node (mover s members c.base b st)) (moved_to s members c.base b st)
          × MatchStep c
              (mover s members c.base b st)
              (c.base.node (mover s members c.base b st))
              (moved_to s members c.base b st)
    step-commit b (act i a at l done) honest here within after =
        let old = k.member i at in
        let n = c.base.node i in
        let reqs : (args : AppendEntriesArgs) → Elem args c.requests → IsRequest args =
          λ args e. (k.request args e).request in
        (
          perform-commit c i n old.whole (room i at) reqs old.newest within a l honest after done,
          perform-match c i n old.whole (room i at) reqs old.newest within a l honest done,
        )
    step-commit b (elect i v at term up idle done) honest here within after =
        let old = k.member i at in
        quiet i (c.base.node i) _ (
          start_election-commit (c.base.node i) old.whole (room i at) old.newest within v term done
            after)
    step-commit b (vote i t r at known done) honest here within after =
        let (same, kept) = handle_request_vote-commit (c.base.node i) t.args (reply r) done in
        quiet i (c.base.node i) _ (inl same, kept)
    step-commit b (deliver i t a v known sent same mine waits done) honest at within after =
        let old = k.member i at in
        quiet i (c.base.node i) _ (
          on_vote_reply-commit (c.base.node i) old.whole (room i at) old.newest within t.args
            a.answer t.votes v done after)
    step-commit b (restart i g m at name all disk made) honest here within after =
        let n = c.base.node i in
        quiet i n m (
          subst (λ x. CommitMove n x × MatchKept n x)
            (sym (create-inv s n m g (k.sound.member i at).restorable disk made))
            (inr (inl refl), λ r. cc r))

    -- No entry behind the first is of term 0.
    no_zero_term :
        (i : NodeId) (args : AppendEntriesArgs)
        → Elem i members
        → has_at (c.base.node i).log args.prev_log_index args.prev_log_term ≡ true
        → 0 < args.prev_log_index
        → args.prev_log_term ≢ 0
    no_zero_term i args at known positive zero_term =
        let n = c.base.node i in
        let (x, seen, none_term) =
          HasAt-inv n.log args.prev_log_index args.prev_log_term (ground (arith, known)) in
        let o = (k.member i at).made args.prev_log_index x positive seen in
        omega (arith, (k.leader o.owner o.node o.led).well.some_term, o.term, none_term, zero_term)

    merged-StoredBy :
        (i : NodeId) (args : AppendEntriesArgs)
        → Elem i members
        → Elem args c.requests
        → (m : Node D) (r : AppendEntriesReply) → LogMerged (c.base.node i) m args
        → StoredBy
            (record { owner = i; node = m } ∷ c.past)
            (record { peer = i; args = args; answer = r })
    merged-StoredBy i args at sent m r joined =
        let n = c.base.node i in
        let old = k.member i at in
        let q = k.request args sent in
        let well = (k.leader args.leader_id q.node q.led).well in
        elim q.source [
          | inr (_, positive, zero_term) ↦
              absurd (no_zero_term i args at n_known positive zero_term)
          | inl copied ↦ record {
            node = m;
            was = inl refl;
            term = joined.term;
            source = q.node;
            led = record { was = inr q.led.was; role = q.led.role };
            source_term = q.term;
            inside = copied.inside;
            agree =
                merged-Agree c.past i n m old args joined (room i at) q.node q.led well q.term
                  q.request copied k.chained;
            fits = q.request.fits;
          }
        ]
      where
        n_known : has_at (c.base.node i).log args.prev_log_index args.prev_log_term ≡ true
        n_known = joined.known

    handled-StoredBy :
        (i : NodeId) (args : AppendEntriesArgs)
        → Elem i members
        → Elem args c.requests
        → (x : AppendAnswer) → x.answer.success ≡ true
        → (a : Answer AppendEntriesReply) → (handle_append_entries args (c.base.node i)).0 ≡ ok a
        → Elem x (answer_of i args (ok a))
        → StoredBy
            (record { owner = i; node = (handle_append_entries args (c.base.node i)).1 } ∷ c.past)
            x
    handled-StoredBy i args at sent x yes_reply (refuse r) done e = elim e [ ]
    handled-StoredBy i args at sent x yes_reply (reply r) done (inr e) = elim e [ ]
    handled-StoredBy i args at sent x yes_reply (reply r) done (inl e) =
        let n = c.base.node i in
        let m = (handle_append_entries args n).1 in
        let joined =
          append-success c i n (k.member i at).whole (room i at) args sent
            (k.request args sent).request r done
            (ap (λ (y : AppendAnswer). y.answer.success) e ∙ yes_reply) in
        subst (StoredBy (record { owner = i; node = m } ∷ c.past)) e
          (merged-StoredBy i args at sent m r joined)

    act-reply :
        (i : NodeId) (a : Action)
        → IsLocal a
        → Elem i members
        → IsSent c i a
        → (perform a (c.base.node i)).0 ≡ ok tt
        → (x : AppendAnswer) → Elem x (replied i a (c.base.node i))
        → x.answer.success ≡ true
        → StoredBy (record { owner = i; node = (perform a (c.base.node i)).1 } ∷ c.past) x
    unfolding perform
    act-reply i (do_append_entries args) l at sent done x e yes_reply =
        discard_lem (handle_append_entries args (c.base.node i))
          (λ m.
            Elem x (replied i (do_append_entries args) (c.base.node i))
            → StoredBy (record { owner = i; node = m } ∷ c.past) x)
          (λ a got h.
            handled-StoredBy i args at sent x yes_reply a got
              (subst (λ o. Elem x (answer_of i args o)) got h))
          done e
    act-reply i (do_tick expired) l at sent done x e yes_reply = elim e [ ]
    act-reply i (do_vote_reply args answer votes) l at sent done x e yes_reply = elim e [ ]
    act-reply i (do_request_vote args) l at sent done x e yes_reply = elim e [ ]
    act-reply i (do_leader_round t) l at sent done x e yes_reply = elim e [ ]
    act-reply i (do_prepare_append peer t) l at sent done x e yes_reply = elim e [ ]
    act-reply i (do_append_reply peer args answer) l at sent done x e yes_reply = elim e [ ]
    act-reply i (do_propose command) l at sent done x e yes_reply = elim e [ ]
    act-reply i do_next_batch l at sent done x e yes_reply = elim e [ ]
    act-reply i (do_finish_batch batch) l at sent done x e yes_reply = elim e [ ]
    act-reply i do_start l at sent done x e yes_reply = elim e [ ]
    act-reply i do_stop l at sent done x e yes_reply = elim e [ ]

    -- The replies that a step sends: of success only if the entries are stored.
    pub step-reply :
        (b : Cluster D) (st : Step s members c.base b)
        → IsHonest s members c b st
        → (a : AppendAnswer) → Elem a (step_replies s members c.base b st)
        → a.answer.success ≡ true
        → StoredBy
            (record { owner = mover s members c.base b st; node = moved_to s members c.base b st }
              ∷ c.past)
            a
    step-reply b (act i a at l done) honest x e yes_reply =
        act-reply i a l at honest done x e yes_reply
    step-reply b (elect i v at term up idle done) honest x e yes_reply = elim e [ ]
    step-reply b (vote i t r at known done) honest x e yes_reply = elim e [ ]
    step-reply b (deliver i t a v known sent same mine waits done) honest x e yes_reply = elim e [ ]
    step-reply b (restart i g m at name all disk made) honest x e yes_reply = elim e [ ]
