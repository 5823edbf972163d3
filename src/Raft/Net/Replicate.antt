-- ===== src/Raft/Net/Replicate.antt =====
-- A member's move keeps what Committed.antt says of the commit indexes and of what leaders know of
-- their peers (raft/replication.go).
use fraud_scoring_platform.Raft.Net.Merging.{merged-Agree}
use fraud_scoring_platform.Raft.Net.Remember.{merged-kept}
use fraud_scoring_platform.Raft.Net.Storers.{committable-IsStored}
use fraud_scoring_platform.Raft.Log.Lookup.{view-inv}
use fraud_scoring_platform.Raft.Net.Joined.{HasAt-inv}
use fraud_scoring_platform.Raft.Role.Commit.{IsCommittable}
use fraud_scoring_platform.Raft.Create.{others}
use fraud_scoring_platform.Raft.Net.Matching.{LogMerged-LogKept, LogMove-IsMove}
use fraud_scoring_platform.Raft.Net.Onward.{longer, move-term}
use fraud_scoring_platform.Raft.Log.{last_index}
use fraud_scoring_platform.Raft.Net.Moves.{grown-last, grown-Agree, IsMove}
use fraud_scoring_platform.Raft.Net.Origins.{IsWhole, Agree, Led, IsPast}
use fraud_scoring_platform.Raft.Net.Progress.{HasCounted, MatchStep, CommitStep}
use fraud_scoring_platform.Raft.Net.Growth.{LogMerged, LogMove}
use fraud_scoring_platform.Raft.Node.{Node}
use fraud_scoring_platform.Raft.Net.Committed.{
  ahead-Agree, IsCommitted-IsPast, HasMatched, MatchOk, committed-inside, CommitOk, IsCommitted,
  IsReplicated,
}
use fraud_scoring_platform.Raft.Net.Fresh.{IsComplete}
use fraud_scoring_platform.Raft.Net.Matched.{MemberWell, IsMatched}
use fraud_scoring_platform.Raft.Net.{Past, HaveRoom, Net}
use fraud_scoring_platform.Raft.Cluster.Majority.{Distinct}
use fraud_scoring_platform.Raft.Types.{leader, AppendEntriesArgs, nobody, NodeId}
use fraud_scoring_platform.Raft.Storage.{IsStorage, Storage}
use fraud_scoring_platform.Prelude.{
  add64-eq-add, sym, dec_lt, length, subst, ◌∙◌, ◌+◌, inl, inr, ◌≡◌, ◌≤◌, ◌≢◌, Elem, List, arith,
  refl,
}

module _ {D : Type 0} (s : Storage D) (law : IsStorage s) (members : List NodeId)
    (apart : Distinct members) (real : (i : NodeId) → Elem i members → i ≢ nobody) (c : Net D)
    (k : IsMatched s members c) (full : IsComplete members c) (rep : IsReplicated members c)
    (room : HaveRoom s members c.base) (i : NodeId) (at : Elem i members) (m : Node D)
    (move : LogMove c.requests (c.base.node i) m) (cs : CommitStep c (c.base.node i) m)
    (ms : MatchStep c i (c.base.node i) m) where
  abbrev n : Node D
  n = c.base.node i

  abbrev past' : List (Past D)
  past' = longer s members c k full room i at m move

  old : MemberWell c.past i n
  old = k.member i at

  later : IsPast c.past past'
  later p e = inr e

  mv : IsMove c.past i n m
  mv = LogMove-IsMove s law members apart real c k room i at m move

  up : n.current_term ≤ m.current_term
  up = move-term s members c k full room i at m move

  led-IsWhole : (j : NodeId) (g : Node D) → Led c.past j g → IsWhole g.log
  led-IsWhole j g l = (k.leader j g l).well.whole

  within : n.commit_index ≤ last_index n.log
  within = committed-inside members c.past n old.whole led-IsWhole (rep.commit i at)

  -- What is committed stays in the log.
  keep-Agree :
      IsCommitted members c.past n.log n.commit_index n.current_term
      → Agree m.log n.log n.commit_index
  keep-Agree h = elim move [
    | inl kept ↦ subst (λ l. Agree l n.log n.commit_index) (sym kept.log) (λ j le. refl)
    | inr (inl grown) ↦
        (λ j le. grown-Agree c.past i n m old grown (room i at) j (omega (arith, le, within)))
    | inr (inr (args, sent, joined)) ↦
        let r = k.request args sent in
        elim r.source [
          | inl copied ↦
              merged-kept c.past i n m old args joined (room i at) r.node r.led
                (k.leader args.leader_id r.node r.led).well r.term r.request copied k.chained
                n.commit_index within
                (λ j le inside.
                  h.agree j le
                  ∙ ahead-Agree members s c k full n.log n.commit_index n.current_term h
                      args.leader_id r.node r.led (omega (arith, h.upto, joined.current, r.term)) j
                      (omega (arith, le, h.behind)) inside)
          | inr (empty, _, _) ↦
              subst (λ l. Agree l n.log n.commit_index)
                (sym (LogMerged-LogKept n m args joined empty).log) (λ j le. refl)
        ]
  ]

  kept-CommitOk : m.commit_index ≡ n.commit_index → CommitOk members past' m
  kept-CommitOk e = elim (rep.commit i at) [
    | inl none_yet ↦ inl (e ∙ none_yet)
    | inr h ↦ inr (
        IsCommitted-IsPast members c.past past' later n.log m.log n.commit_index m.commit_index
          n.current_term m.current_term (omega (arith, e)) up
          (λ j le. keep-Agree h j (omega (arith, le, e))) h)
  ]

  -- A follower commits to no more than the leader of the request had committed.
  follow-CommitOk :
      (args : AppendEntriesArgs)
      → Elem args c.requests
      → LogMerged n m args
      → m.commit_index ≤ args.leader_commit
      → m.commit_index ≤ args.prev_log_index + length args.entries
      → CommitOk members past' m
  follow-CommitOk args sent joined le_commit le_end =
      let r = k.request args sent in
      let well = (k.leader args.leader_id r.node r.led).well in
      elim r.source [
        | inr (_, positive, zero_term) ↦
            let (x, seen, none_term) =
              HasAt-inv n.log args.prev_log_index args.prev_log_term
                (ground (arith, joined.known)) in
            let o = old.made args.prev_log_index x positive seen in
            let some_term = (k.leader o.owner o.node o.led).well.some_term in
            absurd (omega (arith, some_term, o.term, none_term, zero_term))
        | inl copied ↦ elim (rep.past_commit args.leader_id r.node r.led.was) [
          | inl none_yet ↦ inl (omega (arith, le_commit, r.commit, none_yet))
          | inr h ↦ inr (
              IsCommitted-IsPast members c.past past' later r.node.log m.log r.node.commit_index
                m.commit_index r.node.current_term m.current_term
                (omega (arith, le_commit, r.commit)) (omega (arith, r.term, joined.term))
                (λ j le.
                  merged-Agree c.past i n m old args joined (room i at) r.node r.led well r.term
                    r.request copied k.chained j (omega (arith, le, le_end)))
                h)
        ]
      ]

  -- A leader that goes on has the log that it had.
  lead-Agree :
      m.role ≡ leader
      → n.role ≡ leader
      → Agree m.log n.log (last_index n.log) × (last_index n.log ≤ last_index m.log)
  lead-Agree r led = elim move [
    | inl kept ↦ (
      subst (λ l. Agree l n.log (last_index n.log)) (sym kept.log) (λ j le. refl),
      ground (arith, kept.log),
    )
    | inr (inl grown) ↦ (
      grown-Agree c.past i n m old grown (room i at),
      omega (arith, grown-last c.past i n m old grown (room i at)),
    )
    | inr (inr (args, sent, joined)) ↦ cc (r, joined.role)
  ]

  matched-HasMatched :
      (q : NodeId)
      → m.role ≡ leader
      → n.role ≡ leader
      → m.current_term ≡ n.current_term
      → m.match_index q ≡ n.match_index q
      → HasMatched c.past n q
      → HasMatched past' m q
  matched-HasMatched q r led same e h =
      let (agree, le) = lead-Agree r led in
      record {
        node = h.node;
        was = inr h.was;
        term = h.term ∙ sym same;
        inside = omega (arith, e, h.inside, le);
        agree = λ j lt.
            h.agree j (omega (arith, lt, e)) ∙ sym (agree j (omega (arith, lt, e, h.inside)));
      }

  counted-HasMatched :
      (q : NodeId)
      → m.role ≡ leader
      → n.role ≡ leader
      → m.current_term ≡ n.current_term
      → HasCounted c i n m q
      → HasMatched past' m q
  counted-HasMatched q r led same h =
      let a = rep.reply (record { peer = q; args = h.args; answer = h.answer }) h.sent h.success in
      let (agree, le) = lead-Agree r led in
      let e : m.match_index q ≡ h.args.prev_log_index + length h.args.entries =
        h.counted ∙ add64-eq-add h.args.prev_log_index (length h.args.entries) a.fits in
      elim (old.behind a.source (subst (λ o. Led c.past o a.source) (sym h.mine) a.led)) [
        | inl before ↦ absurd (omega (arith, before, a.source_term, h.term))
        | inr (_, _, has) ↦
            let (inside, part) = has led in
            record {
              node = a.node;
              was = inr a.was;
              term = a.term ∙ sym h.term ∙ sym same;
              inside = omega (arith, e, a.inside, inside, le);
              agree = λ j lt.
                  a.agree j (omega (arith, lt, e))
                  ∙ sym (part j (omega (arith, lt, e, a.inside)))
                  ∙ sym (agree j (omega (arith, lt, e, a.inside, inside)));
            }
      ]

  pub moved-MatchOk : m.role ≡ leader → (q : NodeId) → MatchOk past' m q
  moved-MatchOk r q = elim (ms r q) [
    | inl none_known ↦ inl none_known
    | inr (led, same, inr counted) ↦ inr (counted-HasMatched q r led same counted)
    | inr (led, same, inl e) ↦ elim (rep.matched i at led q) [
      | inl none_known ↦ inl (e ∙ none_known)
      | inr h ↦ inr (matched-HasMatched q r led same e h)
    ]
  ]

  advanced-CommitOk :
      m.peers ≡ others i members
      → m.role ≡ leader
      → IsCommittable m m.commit_index
      → CommitOk members past' m
  advanced-CommitOk connected r h = elim (dec_lt 0 m.commit_index) [
    | no none_yet ↦ inl (omega arith)
    | yes positive ↦
        let led : Led past' i m = record { was = inl refl; role = r } in
        let (x, seen, _) = HasAt-inv m.log m.commit_index m.current_term h.own_term in
        let (_, hi, _, _, _) = view-inv m.log mv.now.whole.good m.commit_index x seen in
        inr (record {
          owner = i;
          node = m;
          led = led;
          index = m.commit_index;
          behind = omega arith;
          inside = hi;
          has = h.own_term;
          stored =
              committable-IsStored s law members apart real past' i m at connected led
                (moved-MatchOk r) m.commit_index positive h;
          upto = omega arith;
          agree = λ j le. refl;
        })
  ]

  pub moved-CommitOk : m.peers ≡ others i members → CommitOk members past' m
  moved-CommitOk connected = elim cs [
    | inl (inl same) ↦ kept-CommitOk same
    | inl (inr (inl none_yet)) ↦ inl none_yet
    | inl (inr (inr (r, h))) ↦ advanced-CommitOk connected r h
    | inr (args, sent, joined, e) ↦ elim (dec_lt n.commit_index m.commit_index) [
      | no same ↦ kept-CommitOk (omega (arith, e))
      | yes more ↦
          follow-CommitOk args sent joined (omega (arith, e, more)) (omega (arith, e, more))
    ]
  ]
