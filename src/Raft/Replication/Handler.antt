-- ===== src/Raft/Replication/Handler.antt =====
-- The whole of `HandleAppendEntries` (raft/replication.go): the reply on every branch, and what the
-- node is afterwards.
use fraud_scoring_platform.Raft.Types.{stopped}
use fraud_scoring_platform.Raft.Role.{observe_term}
use fraud_scoring_platform.Raft.Action.Frame.{
  observe_term-old, accept_entries-SameButLog, SameButLog, observe_term_frame,
  recognise_leader_frame,
}
use fraud_scoring_platform.Raft.Replication.{
  handle_append_entries, recognise_leader, accept_entries,
}
use fraud_scoring_platform.Raft.Replication.Accept.{
  known-Continues, prev_entry, accept_entries-unknown, accept_entries-known, IsRequest,
}
use fraud_scoring_platform.Raft.Replication.Merge.{merged_lem, IsMerged, merged, has_at}
use fraud_scoring_platform.Raft.Log.Shape.{HasRoom, IsLog}
use fraud_scoring_platform.Raft.Types.{
  refuse, Answer, follower, Outcome, reply, ok, save_failed, panic, AppendEntriesReply,
  AppendEntriesArgs,
}
use fraud_scoring_platform.Raft.Node.{Node}
use fraud_scoring_platform.Prelude.{
  dec_lt, ◌<◌, false, true, inr, arith, inl, Bool-cases, length, ◌+◌, ◌⊎◌, min, max, sym, ◌∙◌,
  subst, if◌then◌else◌, ◌≡◌, ◌≤◌, Bool, ℕ,
}

-- The log has the entry that the request says stands before the new ones.
abbrev pub knows_prev : {D : Type 0} → Node D → AppendEntriesArgs → Bool
knows_prev n args = has_at n.log args.prev_log_index args.prev_log_term

-- What a node is once it has answered the leader of its term.
pub record Received {D : Type 0} (n : Node D) (args : AppendEntriesArgs) (m : Node D) : Type 0 where
  pub current : n.current_term ≤ args.term
  pub term : m.current_term ≡ args.term
  pub role : m.role ≡ follower
  pub leader : m.leader_id ≡ args.leader_id
  pub known :
      knows_prev n args ≡ true
      → IsMerged n.log (prev_entry args) args.entries m.log
        × (m.commit_index
            ≡ max n.commit_index
                (min args.leader_commit (args.prev_log_index + length args.entries)))
  pub unknown : knows_prev n args ≡ false → (m.log ≡ n.log) × (m.commit_index ≡ n.commit_index)

-- The same, by equations.
pub record Stored {D : Type 0} (n : Node D) (args : AppendEntriesArgs) (m : Node D) : Type 0 where
  pub current : n.current_term ≤ args.term
  pub term : m.current_term ≡ args.term
  pub role : m.role ≡ follower
  pub leader : m.leader_id ≡ args.leader_id
  pub log : m.log ≡ (if knows_prev n args then merged n.log args.entries else n.log)
  pub commit : m.commit_index ≡ (
      if knows_prev n args
      then max n.commit_index (min args.leader_commit (args.prev_log_index + length args.entries))
      else n.commit_index)

abbrev pub Handled :
    {D : Type 0}
    → Node D
    → AppendEntriesArgs
    → Outcome (Answer AppendEntriesReply)
    → Node D
    → Type 0
Handled n args (panic p) m = p ≡ save_failed
Handled n args (ok (refuse e)) m = (n.stopped ≡ true) × (e ≡ stopped) × (m ≡ n)
Handled n args (ok (reply r)) m =
    (n.stopped ≡ false)
    × (((args.term < n.current_term)
          × (r ≡ record { term = n.current_term; success = false })
          × (m ≡ n))
        ⊎ ((r ≡ record { term = args.term; success = knows_prev n args }) × Stored n args m))

-- The three ways to answer: the node is stopped, the request is stale, or it is from the leader.
abbrev pub Answered :
    {D : Type 0}
    → Node D
    → AppendEntriesArgs
    → Outcome (Answer AppendEntriesReply)
    → Node D
    → Type 0
Answered n args (panic p) m = p ≡ save_failed
Answered n args (ok (refuse e)) m = (n.stopped ≡ true) × (e ≡ stopped) × (m ≡ n)
Answered n args (ok (reply r)) m =
    (n.stopped ≡ false)
    × (((args.term < n.current_term)
          × (r ≡ record { term = n.current_term; success = false })
          × (m ≡ n))
        ⊎ ((r ≡ record { term = args.term; success = knows_prev n args }) × Received n args m))

module _ {D : Type 0} (n : Node D) (args : AppendEntriesArgs) (good : IsLog n.log)
    (room : HasRoom n.log) (req : IsRequest args) where
  abbrev seen : Node D
  seen = (observe_term args.term n).1

  abbrev joined : Node D
  joined = (recognise_leader args seen).1

  joined-log : joined.log ≡ n.log
  joined-log = (recognise_leader_frame seen args).0.log ∙ (observe_term_frame n args.term).0.log

  joined-IsLog : IsLog joined.log
  joined-IsLog = subst IsLog (sym joined-log) good

  joined-HasRoom : HasRoom joined.log
  joined-HasRoom = subst HasRoom (sym joined-log) room

  -- The node is a follower of the sender from then on, if its term is no older than the node's.
  joined-lem :
      (t : ℕ)
      → (((accept_entries args t joined).0 ≡ panic save_failed)
          × ((accept_entries args t joined).1.log ≡ merged n.log args.entries))
        ⊎ (((accept_entries args t joined).0
              ≡ ok (reply (record { term = t; success = knows_prev n args })))
            × ((accept_entries args t joined).1.log
                ≡ (if knows_prev n args then merged n.log args.entries else n.log))
            × ((accept_entries args t joined).1.commit_index ≡ (
                if knows_prev n args
                then max n.commit_index
                    (min args.leader_commit (args.prev_log_index + length args.entries))
                else n.commit_index)))
  joined-lem t = elim (Bool-cases (knows_prev n args)) [
    | inl h ↦
        let k =
          accept_entries-known joined args t joined-IsLog joined-HasRoom req (rw joined-log h) in
        let f = observe_term_frame n args.term in
        let g = recognise_leader_frame seen args in ground (arith, k, f, g, joined-log)
    | inr h ↦
        let k =
          accept_entries-unknown joined args t joined-IsLog joined-HasRoom (rw joined-log h) in
        let f = observe_term_frame n args.term in
        let g = recognise_leader_frame seen args in ground (arith, k, f, g, joined-log)
  ]

  Stored-Received : (m : Node D) → Stored n args m → Received n args m
  Stored-Received m st = record {
    current = st.current;
    term = st.term;
    role = st.role;
    leader = st.leader;
    known = λ h. (
      subst (IsMerged n.log (prev_entry args) args.entries) (ground (arith, st.log)) (
          merged_lem args.entries n.log (prev_entry args) good room
            (known-Continues n.log good room args req h)),
      ground (arith, st.commit),
    );
    unknown = λ h. (ground (arith, st.log), ground (arith, st.commit));
  }

  Handled-Answered :
      (o : Outcome (Answer AppendEntriesReply)) (m : Node D)
      → Handled n args o m
      → Answered n args o m
  Handled-Answered (panic p) m h = h
  Handled-Answered (ok (refuse e)) m h = h
  Handled-Answered (ok (reply r)) m (run, inl stale) = (run, inl stale)
  Handled-Answered (ok (reply r)) m (run, inr (e, st)) = (run, inr (e, Stored-Received m st))

  accept-frame : SameButLog joined (accept_entries args seen.current_term joined).1
  accept-frame = accept_entries-SameButLog joined args seen.current_term

  pub handle_append_entries-Handled :
      Handled n args (handle_append_entries args n).0 (handle_append_entries args n).1
  unfolding handle_append_entries
  handle_append_entries-Handled = elim (dec_lt args.term n.current_term) [
    | yes stale ↦ ground (arith, observe_term-old n args.term)
    | no current ↦ ground (
      arith,
      observe_term_frame n args.term,
      recognise_leader_frame seen args,
      joined-lem seen.current_term,
      accept-frame,
    )
  ]

  -- On a node with a well-formed log whose next index is a uint64, for a request whose entries
  -- follow the entry before them and end at an index below 2 ^ 64: the handler answers in one of
  -- three ways, and panics only if a save fails. A stopped node refuses, and a request of an older
  -- term gets the node's term and failure; neither changes anything. Otherwise the node is a
  -- follower of the sender in its term. It reports success exactly if its log has the entry before
  -- the new ones. Then it has merged the new ones, and its commit index has moved up to what the
  -- leader has committed of the part that both share.
  pub handle_append_entries_lem :
      Answered n args (handle_append_entries args n).0 (handle_append_entries args n).1
  handle_append_entries_lem =
      Handled-Answered (handle_append_entries args n).0 (handle_append_entries args n).1
        handle_append_entries-Handled
