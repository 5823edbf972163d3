-- ===== src/Raft/Replication.antt =====
-- raft/replication.go but for `advanceCommitIndex`. `replicateTo` sends its RPC without the lock:
-- its two halves are `prepare_append` and `on_append_reply`.
pub mod Merge
pub mod Splice
pub mod Accept
pub mod Handler
pub mod Progress
mod Tests
use fraud_scoring_platform.Prelude.{
  ℕ, Bool, true, false, not, ◌&&◌, ◌||◌, Option, none, some, List, [], ◌∷◌, map, length, min, max,
  ltb, ◌==◌, if◌then◌else◌, inc64, add64, sub64,
}
use fraud_scoring_platform.Prelude.Int.{pos_part}
use fraud_scoring_platform.Raft.Types.{
  NodeId, Entry, AppendEntriesArgs, AppendEntriesReply, broadcast, run_replicate, Answer, reply,
  refuse, stopped,
}
use fraud_scoring_platform.Raft.Log
use fraud_scoring_platform.Raft.Log.{log_term, matches, entries_from, truncate_from}
use fraud_scoring_platform.Raft.Node.{
  Exec, pure, lift, get, modify, when, emit, spawn, spawn_all, reset_election_timer, persist,
  update, ◌>>=◌, ◌>>◌,
}
use fraud_scoring_platform.Raft.Role.{
  is_leader, is_follower, become_follower, observe_term, advance_commit_index,
}

module _ {D : Type 0} where
  -- One round of `leaderLoop`; false ends the loop.
  unfoldable pub leader_round : ℕ → Exec D Bool
  leader_round t = do
    n ← get
    if n.stopped || not (is_leader n.role) || not (n.current_term == t)
        then pure false
        else (do spawn_all (map (λ p. run_replicate p t) n.peers); pure true)

  -- The request that `replicateTo` sends, if the node still leads in the term.
  unfoldable pub prepare_append : NodeId → ℕ → Exec D (Option AppendEntriesArgs)
  prepare_append peer t = do
    n ← get
    if not (is_leader n.role) || not (n.current_term == t) then pure none else do
      let prev = sub64 (n.next_index peer) 1
      (prev_term, _) ← lift (log_term n.log prev)
      batch ← lift (entries_from n.log (inc64 prev) (pos_part n.cfg.max_entries_per_append))
      pure (
          some (record {
            term = t;
            leader_id = n.id;
            prev_log_index = prev;
            prev_log_term = prev_term;
            entries = batch;
            leader_commit = n.commit_index;
          }))

  -- `replicateTo` from the arrival of the answer to `args` on.
  unfoldable pub on_append_reply : NodeId → AppendEntriesArgs → AppendEntriesReply → Exec D Unit
  on_append_reply peer args answer = do
    n ← get
    if n.stopped then pure tt else do
      newer ← observe_term answer.term
      if newer then pure tt else do
        m ← get
        if not (is_leader m.role) || not (m.current_term == args.term)
            then pure tt
            else if answer.success
            then (do
              let match = add64 args.prev_log_index (length args.entries)
              modify (λ k. record k {
                match_index = update k.match_index peer (max (k.match_index peer) match);
                next_index = update k.next_index peer (max (k.next_index peer) (inc64 match));
              })
              advance_commit_index)
            else when (m.next_index peer == inc64 args.prev_log_index && ltb 0 args.prev_log_index)
                (do
                  modify
                      (λ k. record k { next_index = update k.next_index peer args.prev_log_index })
                  spawn (run_replicate peer args.term))

  -- `if ok { …; n.log.truncateFrom(e.Index) }`
  abbrev pub truncate : Bool → ℕ → Exec D Unit
  truncate false i = pure tt
  truncate true i = do n ← get; l ← lift (truncate_from n.log i); modify (λ m. record m { log = l })

  -- The part of the loop of `HandleAppendEntries` that ends it, at the first entry `e` that the log
  -- does not have.
  unfoldable pub overwrite : Bool → Entry → List Entry → Exec D Unit
  overwrite found e es = do
    truncate found e.index
    modify (λ m. record m { log = Log.append m.log (e ∷ es) })
    persist

  -- The loop over the entries that the request still has.
  unfoldable pub store_entries : List Entry → Exec D Unit
  store_entries [] = pure tt
  store_entries (e ∷ es) = do
    n ← get
    (t, found) ← lift (log_term n.log e.index)
    if found && t == e.term then store_entries es else overwrite found e es

  abbrev pub follow_commit : ℕ → Exec D Unit
  follow_commit commit = do
    n ← get
    when (ltb n.commit_index commit)
        (do modify (λ m. record m { commit_index = commit }); emit broadcast)

  -- `HandleAppendEntries` from the check of the entry before the new ones on; `t` is the term that
  -- the reply carries.
  unfoldable pub accept_entries : AppendEntriesArgs → ℕ → Exec D (Answer AppendEntriesReply)
  accept_entries args t = do
    n ← get
    known ← lift (matches n.log args.prev_log_index args.prev_log_term)
    if not known then pure (reply (record { term = t; success = false })) else do
      store_entries args.entries
      follow_commit (min args.leader_commit (add64 args.prev_log_index (length args.entries)))
      pure (reply (record { term = t; success = true }))

  -- The sender is the one leader of the term: a candidate has lost the election.
  unfoldable pub recognise_leader : AppendEntriesArgs → Exec D Unit
  recognise_leader args = do
    n ← get
    when (not (is_follower n.role)) (become_follower args.term)
    modify (λ m. record m { leader_id = args.leader_id })
    reset_election_timer

  unfoldable pub handle_append_entries : AppendEntriesArgs → Exec D (Answer AppendEntriesReply)
  handle_append_entries args = do
    n ← get
    if n.stopped then pure (refuse stopped) else do
      observe_term args.term
      m ← get
      if ltb args.term m.current_term
          then pure (reply (record { term = m.current_term; success = false }))
          else do recognise_leader args; accept_entries args m.current_term
