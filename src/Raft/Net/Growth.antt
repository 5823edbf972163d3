-- ===== src/Raft/Net/Growth.antt =====
-- What the methods of raft/*.go do to the log of a node: it stays, a leader adds one entry at its
-- end, or a follower merges those of a request into it.
use fraud_scoring_platform.Raft.Action.{
  Action, do_append_entries, do_append_reply, do_finish_batch, do_leader_round, do_next_batch,
  do_prepare_append, do_propose, do_request_vote, do_start, do_stop, do_tick, do_vote_reply,
  perform,
}
use fraud_scoring_platform.Raft.Cluster.{IsLocal}
use fraud_scoring_platform.Raft.Net.{IsSent, Net}
use fraud_scoring_platform.Raft.Log.{last_index}
use fraud_scoring_platform.Raft.Replication.Accept.{IsRequest}
use fraud_scoring_platform.Raft.Log
use fraud_scoring_platform.Raft.Replication.Merge.{merged}
use fraud_scoring_platform.Raft.Cluster.Leads.{StillLeads, observe_term-role}
use fraud_scoring_platform.Raft.Action.Frame.{
  observe_term_frame, advance_commit_index-SameButCommit,
}
use fraud_scoring_platform.Raft.Log.Shape.{HasRoom, IsLog}
use fraud_scoring_platform.Raft.Vote.{HasTerm}
use fraud_scoring_platform.Raft.Replication.Handler.{
  handle_append_entries-Handled, Handled, knows_prev,
}
use fraud_scoring_platform.Raft.Types.{
  save_failed, leader, panic, reply, refuse, follower, candidate, ok, Answer, RequestVoteReply,
  AppendEntriesReply, RequestVoteArgs, AppendEntriesArgs, Entry, NodeId,
}
use fraud_scoring_platform.Raft.Node.{discard_lem, persist, Node}
use fraud_scoring_platform.Raft.Service.{stop, start, finish_batch, next_batch, propose}
use fraud_scoring_platform.Raft.Replication.{
  prepare_append, leader_round, handle_append_entries, on_append_reply,
}
use fraud_scoring_platform.Raft.Role.{next_entry, become_candidate, become_leader, observe_term}
use fraud_scoring_platform.Raft.Election.{start_election, handle_request_vote, on_vote_reply}
use fraud_scoring_platform.Prelude.{
  Elem, refl, sym, ◌<◌, inc64, [], false, ◌∷◌, subst, Bool-cases, inr, inl, inc64-eq-add, true, ◌⊎◌,
  ◌≤◌, List, ℕ, ◌≡◌, arith,
}

-- The log stays. Who leads after it led before, who is a candidate was one before.
pub record LogKept {D : Type 0} (n m : Node D) : Type 0 where
  pub log : m.log ≡ n.log
  pub term : n.current_term ≤ m.current_term
  pub stands : m.current_term ≡ n.current_term → m.role ≡ candidate → n.role ≡ candidate
  pub leads : StillLeads n m

-- A leader, or one who has just become it, adds an entry of its term.
pub record LogGrown {D : Type 0} (n m : Node D) : Type 0 where
  pub entry : Entry
  pub log : m.log ≡ Log.append n.log (entry ∷ [])
  pub index : entry.index ≡ inc64 (last_index n.log)
  pub own : entry.term ≡ m.current_term
  pub role : m.role ≡ leader
  pub from :
      (n.current_term < m.current_term)
      ⊎ ((n.current_term ≡ m.current_term) × ((n.role ≡ leader) ⊎ (n.role ≡ candidate)))

-- A follower of the sender merges the entries of a request that continue its log.
pub record LogMerged {D : Type 0} (n m : Node D) (args : AppendEntriesArgs) : Type 0 where
  pub known : knows_prev n args ≡ true
  pub log : m.log ≡ merged n.log args.entries
  pub current : n.current_term ≤ args.term
  pub term : m.current_term ≡ args.term
  pub role : m.role ≡ follower

module _ {D : Type 0} where
  -- A node that has heard a term.
  pub observe_term-log :
      (n : Node D) (t : ℕ)
      → ((observe_term t n).1.log ≡ n.log)
        × (n.current_term ≤ (observe_term t n).1.current_term)
        × ((((observe_term t n).0 ≡ ok true) × ((observe_term t n).1.role ≡ follower))
            ⊎ (observe_term t n ≡ (ok false, n))
            ⊎ ((observe_term t n).0 ≡ panic save_failed))
  observe_term-log n t =
      let (frame, term, _) = observe_term_frame n t in
      (frame.log, omega (arith, term), observe_term-role n t)

  pub become_leader-grown :
      (n : Node D)
      → ((become_leader n).1.log ≡ Log.append n.log (next_entry n [] ∷ []))
        × ((become_leader n).1.current_term ≡ n.current_term)
        × ((become_leader n).1.role ≡ leader)
  unfolding become_leader persist
  become_leader-grown n = grind (arith, advance_commit_index-SameButCommit)

  pub propose-log :
      (n : Node D) (command : List ℕ)
      → LogKept n (propose command n).1 ⊎ LogGrown n (propose command n).1
  unfolding propose persist
  propose-log n command = grind (arith, advance_commit_index-SameButCommit)

  pub start_election-log :
      (n : Node D) (v : ℕ)
      → HasTerm n
      → (start_election n).0 ≡ ok v
      → LogKept n (start_election n).1 ⊎ LogGrown n (start_election n).1
  unfolding start_election become_candidate persist
  start_election-log n v room h = grind (arith, become_leader-grown, inc64-eq-add n.current_term)

  become_leader-LogGrown : (n : Node D) → n.role ≡ candidate → LogGrown n (become_leader n).1
  become_leader-LogGrown n h =
      let (log, term, role) = become_leader-grown n in
      record {
        entry = next_entry n [];
        log = log;
        index = refl;
        own = sym term;
        role = role;
        from = inr (sym term, inr h);
      }

  -- An answer changes the log only if it makes a leader.
  on_vote_reply-cases :
      (n : Node D) (args : RequestVoteArgs) (answer : RequestVoteReply) (votes v : ℕ)
      → (on_vote_reply args answer votes n).0 ≡ ok v
      → LogKept n (on_vote_reply args answer votes n).1
        ⊎ ((n.role ≡ candidate) × ((on_vote_reply args answer votes n).1 ≡ (become_leader n).1))
  unfolding on_vote_reply
  on_vote_reply-cases n args answer votes v h = ground (arith, observe_term-log n answer.term)

  pub on_vote_reply-log :
      (n : Node D) (args : RequestVoteArgs) (answer : RequestVoteReply) (votes v : ℕ)
      → (on_vote_reply args answer votes n).0 ≡ ok v
      → LogKept n (on_vote_reply args answer votes n).1
        ⊎ LogGrown n (on_vote_reply args answer votes n).1
  on_vote_reply-log n args answer votes v h = elim (on_vote_reply-cases n args answer votes v h) [
    | inl kept ↦ inl kept
    | inr (stood, same) ↦ inr (subst (LogGrown n) (sym same) (become_leader-LogGrown n stood))
  ]

  pub handle_request_vote-LogKept :
      (n : Node D) (args : RequestVoteArgs) (a : Answer RequestVoteReply)
      → (handle_request_vote args n).0 ≡ ok a
      → LogKept n (handle_request_vote args n).1
  unfolding handle_request_vote persist
  handle_request_vote-LogKept n args a h = ground (arith, observe_term-log n args.term)

  pub on_append_reply-LogKept :
      (n : Node D) (peer : NodeId) (args : AppendEntriesArgs) (answer : AppendEntriesReply)
      → (on_append_reply peer args answer n).0 ≡ ok tt
      → LogKept n (on_append_reply peer args answer n).1
  unfolding on_append_reply
  on_append_reply-LogKept n peer args answer h =
      grind (arith, observe_term-log, advance_commit_index-SameButCommit)

  pub handle_append_entries-log :
      (n : Node D) (args : AppendEntriesArgs) (a : Answer AppendEntriesReply)
      → IsLog n.log
      → HasRoom n.log
      → IsRequest args
      → (handle_append_entries args n).0 ≡ ok a
      → LogKept n (handle_append_entries args n).1
        ⊎ LogMerged n (handle_append_entries args n).1 args
  handle_append_entries-log n args a good room req h = go a (
      subst (λ o. Handled n args o (handle_append_entries args n).1) h
        (handle_append_entries-Handled n args good room req))
    where
      same : (m : Node D) → m ≡ n → LogKept n m
      same m e = record {
        log = cc e;
        term = ground arith;
        stands = λ t c. cc (c, e);
        leads = λ r. (cc (r, e), cc e);
      }

      go :
          (b : Answer AppendEntriesReply)
          → Handled n args (ok b) (handle_append_entries args n).1
          → LogKept n (handle_append_entries args n).1
            ⊎ LogMerged n (handle_append_entries args n).1 args
      go (refuse e) k = inl (same _ k.2)
      go (reply r) (run, inl stale) = inl (same _ stale.2)
      go (reply r) (run, inr (e, st)) = elim (Bool-cases (knows_prev n args)) [
        | inl has ↦ inr (record {
          known = has;
          log = ground (arith, st.log);
          current = st.current;
          term = st.term;
          role = st.role;
        })
        | inr lacks ↦ inl (record {
          log = ground (arith, st.log);
          term = omega (arith, st.current, st.term);
          stands = λ t c. cc (c, st.role);
          leads = λ r. cc (r, st.role);
        })
      ]

-- The three ways a log may change.
abbrev pub LogMove : {D : Type 0} → List AppendEntriesArgs → Node D → Node D → Type 0
LogMove rs n m =
    LogKept n m ⊎ LogGrown n m ⊎ ((args : AppendEntriesArgs) × Elem args rs × LogMerged n m args)

pub from_sum :
    {D : Type 0} (rs : List AppendEntriesArgs) (n m : Node D)
    → LogKept n m ⊎ LogGrown n m
    → LogMove rs n m
from_sum rs n m (inl k) = inl k
from_sum rs n m (inr k) = inr (inl k)

module _ {D : Type 0} (c : Net D)
    (good : (args : AppendEntriesArgs) → Elem args c.requests → IsRequest args) where
  pub perform-log :
      (i : NodeId) (a : Action) (n : Node D)
      → IsLocal a
      → IsSent c i a
      → IsLog n.log
      → HasRoom n.log
      → (perform a n).0 ≡ ok tt
      → LogMove c.requests n (perform a n).1
  unfolding perform
  perform-log i (do_tick expired) n l sent h room k = elim l [ ]
  perform-log i (do_vote_reply args answer votes) n l sent h room k = elim l [ ]
  perform-log i (do_request_vote args) n l sent h room k = elim l [ ]
  perform-log i (do_append_entries args) n l sent h room k =
      discard_lem (handle_append_entries args n) (LogMove c.requests n)
        (λ a e. elim (handle_append_entries-log n args a h room (good args sent) e) [
          | inl same ↦ inl same
          | inr joined ↦ inr (inr (args, sent, joined))
        ])
        k
  perform-log i (do_leader_round t) n l sent h room k = inl (unfold leader_round in ground arith)
  perform-log i (do_prepare_append peer t) n l sent h room k =
      inl (unfold prepare_append in ground arith)
  perform-log i (do_append_reply peer args answer) n l sent h room k =
      inl (on_append_reply-LogKept n peer args answer k)
  perform-log i (do_propose command) n l sent h room k =
      discard_lem (propose command n) (LogMove c.requests n)
        (λ a e. from_sum c.requests n (propose command n).1 (propose-log n command)) k
  perform-log i do_next_batch n l sent h room k = inl (unfold next_batch in ground arith)
  perform-log i (do_finish_batch []) n l sent h room k = inl (unfold finish_batch in ground arith)
  perform-log i (do_finish_batch (e ∷ es)) n l sent h room k =
      inl (unfold finish_batch in ground arith)
  perform-log i do_start n l sent h room k = inl (unfold start in ground arith)
  perform-log i do_stop n l sent h room k = inl (unfold stop in ground arith)
