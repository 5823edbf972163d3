-- ===== src/Raft/Net/Safety.antt =====
-- Leader completeness over every run of the cluster (raft/*.go).
use fraud_scoring_platform.Raft.Cluster.Sound.{quorum-majority}
use fraud_scoring_platform.Raft.Log.{last_term, last_index}
use fraud_scoring_platform.Raft.Net.Won.{won-Elected}
use fraud_scoring_platform.Raft.Create.Restart.{create-inv}
use fraud_scoring_platform.Raft.Node.{Node}
use fraud_scoring_platform.Raft.Net.Onward.{onward-votes, onward, onward-TallyFresh}
use fraud_scoring_platform.Raft.Net.Counted.{votes-eq, standing, single, heard-votes, given}
use fraud_scoring_platform.Raft.Cluster.Leads.{
  on_vote_reply_lem, start_election_lem, handle_request_vote-StillLeads, perform-StillLeads,
}
use fraud_scoring_platform.Raft.Action.{perform}
use fraud_scoring_platform.Raft.Net.Elections.{
  votes-next, base-VoteFresh, unwon, tally-IsComplete, vote-IsComplete, quiet-IsComplete,
}
use fraud_scoring_platform.Raft.Net.Matching.{LogMove-IsMove, step-LogMove}
use fraud_scoring_platform.Raft.Role.{is_leader}
use fraud_scoring_platform.Raft.Election.{
  vote_request, handle_request_vote, start_election, on_vote_reply,
}
use fraud_scoring_platform.Raft.Cluster.Safety.{Step-IsSound, Step-Subset}
use fraud_scoring_platform.Raft.Cluster.Ledger.{Subset}
use fraud_scoring_platform.Raft.Cluster.Moves.{IsSound}
use fraud_scoring_platform.Raft.Vote.{start_election-VoteKept, HasTerm}
use fraud_scoring_platform.Raft.Cluster.{
  remove, restart, counted, vote, elect, deliver, act, VoteAnswer, Step, Tally, Cluster,
}
use fraud_scoring_platform.Raft.Net.Fresh.{IsComplete}
use fraud_scoring_platform.Raft.Net.Matched.{IsMatched}
use fraud_scoring_platform.Raft.Net.{
  send, step, NetStep, moved_to, mover, step_replies, IsHonest, HaveRoom, IsNetStart, Net,
}
use fraud_scoring_platform.Raft.Cluster.Majority.{Distinct}
use fraud_scoring_platform.Raft.Types.{candidate, reply, ok, nobody, NodeId}
use fraud_scoring_platform.Raft.Storage.{IsStorage, Storage}
use fraud_scoring_platform.Prelude.{
  ◌+◌, sym, inr, inl, [], ap, ◌∙◌, ◌∷◌, false, ◌++◌, ◌≡◌, ℕ, subst, ◌≢◌, Elem, List, arith, refl,
}

module _ {D : Type 0} (s : Storage D) (law : IsStorage s) (members : List NodeId)
    (apart : Distinct members) (real : (i : NodeId) → Elem i members → i ≢ nobody) where
  pub IsNetStart-IsComplete : (c : Net D) → IsNetStart s members c → IsComplete members c
  IsNetStart-IsComplete c h = record {
    past_well = λ v p e. absurd (subst (Elem (record { owner = v; node = p })) h.no_past e);
    remembers = λ v e p l. absurd (subst (Elem (record { owner = v; node = p })) h.no_past l);
    tally = λ t e. absurd (subst (Elem t) h.start.no_tallies e);
    answer = λ a e. absurd (subst (Elem a) h.start.no_answers e);
    elected = λ i g l. absurd (subst (Elem (record { owner = i; node = g })) h.no_past l.was);
  }

  module _ (c : Net D) (k : IsMatched s members c) (full : IsComplete members c)
      (room : HaveRoom s members c.base) where
    abbrev Next : (d : Cluster D) → Step s members c.base d → Type 0
    Next d st = IsComplete members (record {
      base = d;
      requests = c.requests;
      replies = step_replies s members c.base d st ++ c.replies;
      past =
          record { owner = mover s members c.base d st; node = moved_to s members c.base d st }
          ∷ c.past;
    })

    abbrev Sound : (d : Cluster D) → Step s members c.base d → IsSound s members d
    Sound d st = Step-IsSound s law members apart real c.base d k.sound st

    abbrev Grows : (d : Cluster D) → Step s members c.base d → Subset c.base.history d.history
    Grows d st = Step-Subset s law members apart real c.base d st

    elect-IsComplete :
        (i : NodeId) (v : ℕ) (at : Elem i members) (term : HasTerm (c.base.node i))
        (up : (c.base.node i).stopped ≡ false) (idle : is_leader (c.base.node i).role ≡ false)
        (done : (start_election (c.base.node i)).0 ≡ ok v)
        → Next _ (elect i v at term up idle done)
    elect-IsComplete i v at term up idle done =
        let st = elect i v at term up idle done in
        let n = c.base.node i in
        let m = (start_election n).1 in
        let (_, move) = step-LogMove s law members apart real c k room _ st tt in
        let old = k.sound.member i at in
        let (_, _, lead) = start_election_lem n v term done in
        let name : m.id ≡ i = (start_election-VoteKept n term).id ∙ old.named in
        tally-IsComplete s law members apart real c k full room i at m move _ refl (Sound _ st)
          (Grows _ st) c.replies
          (record { args = vote_request m; waiting = n.peers; voters = i ∷ []; votes = v })
          (λ grown new.
            won-Elected s law members apart real c k full room i at m move _ refl (Sound _ st)
              (Grows _ st) grown new (i ∷ [])
              (single s law members apart real c k full room i n at old.connected (lead grown.role))
              (base-VoteFresh s law members apart real c k full room i at m move, tt))
          refl refl
          (standing s law members apart real c k full room i v at move name
            (LogMove-IsMove s law members apart real c k room i at m move).now.whole.good)

    deliver-IsComplete :
        (i : NodeId) (t : Tally) (a : VoteAnswer) (v : ℕ) (known : Elem t c.base.tallies)
        (sent : Elem a c.base.answers) (same : t.args ≡ a.args) (mine : i ≡ t.args.candidate_id)
        (waits : Elem a.voter t.waiting)
        (done : (on_vote_reply t.args a.answer t.votes (c.base.node i)).0 ≡ ok v)
        → Next _ (deliver i t a v known sent same mine waits done)
    deliver-IsComplete i t a v known sent same mine waits done =
        let st = deliver i t a v known sent same mine waits done in
        let n = c.base.node i in
        let m = (on_vote_reply t.args a.answer t.votes n).1 in
        let (at, move) = step-LogMove s law members apart real c k room _ st tt in
        let fresh = full.tally t known in
        let votes =
          heard-votes s law members apart real c k full room t a i n v fresh sent same done in
        let voters = counted t.votes v a.voter t.voters in
        let u : Tally = record {
          args = t.args;
          waiting = remove t.waiting a.voter;
          voters = voters;
          votes = v;
        } in
        let on = onward-TallyFresh s members c k full room i at m move t fresh in
        tally-IsComplete s law members apart real c k full room i at m move _ refl (Sound _ st)
          (Grows _ st) c.replies u
          (λ grown new. elim (on_vote_reply_lem n t.args a.answer t.votes v done) [
            | inl (_, still) ↦
                unwon s law members apart real c k full room i at m move _ refl (Sound _ st)
                  (Grows _ st) still grown new
            | inr (added, _, term, stays, lead) ↦
                let stood : n.role ≡ candidate = ground (arith, new, stays) in
                let stands =
                  subst
                    (λ w.
                      (c.base.node w).current_term ≡ t.args.term
                      → (c.base.node w).role ≡ candidate
                      → (last_index (c.base.node w).log ≡ t.args.last_log_index)
                        × (last_term (c.base.node w).log ≡ t.args.last_log_term))
                    (sym mine) fresh.stands in
                let (index, end_term) = stands term stood in
                let ok_u = (Sound _ st).tally u (inl refl) in
                won-Elected s law members apart real c k full room i at m move _ refl (Sound _ st)
                  (Grows _ st) grown new voters
                  (record {
                    distinct = ok_u.distinct;
                    inside = ok_u.inside;
                    most = omega (
                      arith,
                      lead grown.role,
                      ok_u.counts,
                      quorum-majority s law members apart real i n at
                          (k.sound.member i at).connected,
                    );
                  })
                  (votes-eq c.past (onward s members c k full room i at m move) t.args.term
                    m.current_term t.args.last_log_term (last_term n.log) t.args.last_log_index
                    (last_index n.log) voters (sym (stays ∙ term)) (sym end_term) (sym index)
                    (votes-next s law members apart real c k full room i at m move t.args.term
                      (t.args.term + 1) t.args.last_log_term t.args.last_log_index voters votes))
          ])
          refl refl
          (record {
            votes =
                onward-votes s members c k full room i at m move t.args.term (t.args.term + 1)
                  t.args.last_log_term t.args.last_log_index voters votes;
            reached = on.reached;
            stands = on.stands;
          })

    step-IsComplete :
        (d : Cluster D) (st : Step s members c.base d) → IsHonest s members c d st → Next d st
    step-IsComplete d (act i a at l done) honest =
        let st = act i a at l done in
        let (_, move) = step-LogMove s law members apart real c k room d st honest in
        quiet-IsComplete s law members apart real c k full room i at (perform a (c.base.node i)).1
          move d refl (Sound d st) (Grows d st) (step_replies s members c.base d st ++ c.replies)
          (perform-StillLeads a (c.base.node i) l done) refl refl
    step-IsComplete d (elect i v at term up idle done) honest =
        elect-IsComplete i v at term up idle done
    step-IsComplete d (vote i t r at known done) honest =
        let st = vote i t r at known done in
        let n = c.base.node i in
        let m = (handle_request_vote t.args n).1 in
        let (_, move) = step-LogMove s law members apart real c k room d st honest in
        vote-IsComplete s law members apart real c k full room i at m move d refl (Sound d st)
          (Grows d st) c.replies t.args r (handle_request_vote-StillLeads n t.args (reply r) done)
          refl refl
          (given s law members apart real c k full room i at t.args r move done
            (LogMove-IsMove s law members apart real c k room i at m move).now.whole.good)
    step-IsComplete d (deliver i t a v known sent same mine waits done) honest =
        deliver-IsComplete i t a v known sent same mine waits done
    step-IsComplete d (restart i g m at name all disk made) honest =
        let st = restart i g m at name all disk made in
        let (_, move) = step-LogMove s law members apart real c k room d st honest in
        quiet-IsComplete s law members apart real c k full room i at m move d refl (Sound d st)
          (Grows d st) c.replies
          (λ r. cc (
            r,
            ap (λ (q : Node D). q.role)
                (create-inv s (c.base.node i) m g (k.sound.member i at).restorable disk made),
          ))
          refl refl

  pub NetStep-IsComplete :
      (c d : Net D)
      → IsMatched s members c
      → IsComplete members c
      → NetStep s members c d
      → IsComplete members d
  NetStep-IsComplete c d k full (step b st room after honest) =
      step-IsComplete c k full room b st honest
  NetStep-IsComplete c d k full (send i peer t args at room sent) = record {
    past_well = full.past_well;
    remembers = full.remembers;
    tally = full.tally;
    answer = full.answer;
    elected = full.elected;
  }
