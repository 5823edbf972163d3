-- ===== src/Raft/Net/Samples.antt =====
-- The run of Cluster/Samples with its replication: `a` leads, `b` stores the leader's first entry,
-- `a` commits to it, and `b` hears of that.
use fraud_scoring_platform.Raft.Log.{last_index}
use fraud_scoring_platform.Raft.Net.{here, next}
use fraud_scoring_platform.Raft.Log.Shape.{HasRoom}
use fraud_scoring_platform.Raft.Replication.{
  on_append_reply, prepare_append, overwrite, store_entries, accept_entries, recognise_leader,
  handle_append_entries,
}
use fraud_scoring_platform.Raft.Action.{do_append_reply, do_append_entries, perform}
use fraud_scoring_platform.Raft.Node.{quorum, persist}
use fraud_scoring_platform.Raft.Cluster.Samples.{
  voted-won, elected-voted, boot-elected, elected, voted, won, boot-IsStart, trio, boot,
}
use fraud_scoring_platform.Raft.Role.{
  fill, count_stored, find_commit, advance_commit_index, become_leader, become_follower,
  observe_term, become_candidate,
}
use fraud_scoring_platform.Raft.Election.{on_vote_reply, handle_request_vote, start_election}
use fraud_scoring_platform.Raft.Types.{
  Entry, AppendEntriesReply, AppendEntriesArgs, PersistentState, NodeId,
}
use fraud_scoring_platform.Raft.Net.{
  moved_to, mover, send, step, NetStep, NetSteps, step_replies, IsNetStart, HaveRoom, Net,
}
use fraud_scoring_platform.Raft.Log
use fraud_scoring_platform.Raft.Tests.{ram}
use fraud_scoring_platform.Raft.Cluster.{Step, set_node, Cluster, act}
use fraud_scoring_platform.Prelude.{
  ◌++◌, ◌≡◌, sub64, add64, inc64, true, ◌∷◌, inr, subst, inl, [], Elem, arith, refl,
}

abbrev pub begun : Net PersistentState
begun = record { base = boot; requests = []; replies = []; past = [] }

pub begun-IsNetStart : IsNetStart ram trio begun
begun-IsNetStart = record {
  start = boot-IsStart;
  no_requests = refl;
  no_replies = refl;
  no_past = refl;
  empty = λ i e. refl;
  uncommitted = λ i e. refl;
}

pub trio-all : (P : NodeId → Type 0) → P "a" → P "b" → P "c" → (i : NodeId) → Elem i trio → P i
trio-all P a b c i (inl e) = subst P e a
trio-all P a b c i (inr (inl e)) = subst P e b
trio-all P a b c i (inr (inr (inl e))) = subst P e c
trio-all P a b c i (inr (inr (inr e))) = elim e [ ]

pub boot-HaveRoom : HaveRoom ram trio boot
unfolding start_election become_candidate persist quorum handle_request_vote Log.is_up_to_date
    on_vote_reply observe_term become_follower become_leader advance_commit_index find_commit
    Log.log_term Log.log_pos inc64 Log.append count_stored fill perform handle_append_entries
    recognise_leader accept_entries store_entries overwrite Log.matches Log.entries_from
    Log.truncate_from prepare_append on_append_reply add64 sub64
boot-HaveRoom = trio-all (λ i. HasRoom (boot.node i).log) (omega arith) (omega arith) (omega arith)

pub elected-HaveRoom : HaveRoom ram trio elected
unfolding start_election become_candidate persist quorum handle_request_vote Log.is_up_to_date
    on_vote_reply observe_term become_follower become_leader advance_commit_index find_commit
    Log.log_term Log.log_pos inc64 Log.append count_stored fill perform handle_append_entries
    recognise_leader accept_entries store_entries overwrite Log.matches Log.entries_from
    Log.truncate_from prepare_append on_append_reply add64 sub64
elected-HaveRoom =
    trio-all (λ i. HasRoom (elected.node i).log) (omega arith) (omega arith) (omega arith)

pub voted-HaveRoom : HaveRoom ram trio voted
unfolding start_election become_candidate persist quorum handle_request_vote Log.is_up_to_date
    on_vote_reply observe_term become_follower become_leader advance_commit_index find_commit
    Log.log_term Log.log_pos inc64 Log.append count_stored fill perform handle_append_entries
    recognise_leader accept_entries store_entries overwrite Log.matches Log.entries_from
    Log.truncate_from prepare_append on_append_reply add64 sub64
voted-HaveRoom =
    trio-all (λ i. HasRoom (voted.node i).log) (omega arith) (omega arith) (omega arith)

pub won-HaveRoom : HaveRoom ram trio won
unfolding start_election become_candidate persist quorum handle_request_vote Log.is_up_to_date
    on_vote_reply observe_term become_follower become_leader advance_commit_index find_commit
    Log.log_term Log.log_pos inc64 Log.append count_stored fill perform handle_append_entries
    recognise_leader accept_entries store_entries overwrite Log.matches Log.entries_from
    Log.truncate_from prepare_append on_append_reply add64 sub64
won-HaveRoom = trio-all (λ i. HasRoom (won.node i).log) (omega arith) (omega arith) (omega arith)

abbrev pub first_request : AppendEntriesArgs
first_request = record {
  term = 1;
  leader_id = "a";
  prev_log_index = 0;
  prev_log_term = 0;
  entries = record { index = 1; term = 1; command = [] } ∷ [];
  leader_commit = 0;
}

abbrev pub stored : Cluster PersistentState
stored = record won {
  node = set_node won.node "b" (perform (do_append_entries first_request) (won.node "b")).1;
}

unfoldable pub won-stored : Step ram trio won stored
unfolding start_election become_candidate persist quorum handle_request_vote Log.is_up_to_date
    on_vote_reply observe_term become_follower become_leader advance_commit_index find_commit
    Log.log_term Log.log_pos inc64 Log.append count_stored fill perform handle_append_entries
    recognise_leader accept_entries store_entries overwrite Log.matches Log.entries_from
    Log.truncate_from prepare_append on_append_reply add64 sub64
won-stored = act "b" (do_append_entries first_request) (inr (inl refl)) tt refl

pub stored-HaveRoom : HaveRoom ram trio stored
unfolding start_election become_candidate persist quorum handle_request_vote Log.is_up_to_date
    on_vote_reply observe_term become_follower become_leader advance_commit_index find_commit
    Log.log_term Log.log_pos inc64 Log.append count_stored fill perform handle_append_entries
    recognise_leader accept_entries store_entries overwrite Log.matches Log.entries_from
    Log.truncate_from prepare_append on_append_reply add64 sub64
stored-HaveRoom =
    trio-all (λ i. HasRoom (stored.node i).log) (omega arith) (omega arith) (omega arith)

abbrev pub yes_reply : AppendEntriesReply
yes_reply = record { term = 1; success = true }

abbrev pub committed : Cluster PersistentState
committed = record stored {
  node =
      set_node stored.node "a"
        (perform (do_append_reply "b" first_request yes_reply) (stored.node "a")).1;
}

unfoldable pub stored-committed : Step ram trio stored committed
unfolding start_election become_candidate persist quorum handle_request_vote Log.is_up_to_date
    on_vote_reply observe_term become_follower become_leader advance_commit_index find_commit
    Log.log_term Log.log_pos inc64 Log.append count_stored fill perform handle_append_entries
    recognise_leader accept_entries store_entries overwrite Log.matches Log.entries_from
    Log.truncate_from prepare_append on_append_reply add64 sub64
stored-committed = act "a" (do_append_reply "b" first_request yes_reply) (inl refl) tt refl

pub committed-HaveRoom : HaveRoom ram trio committed
unfolding start_election become_candidate persist quorum handle_request_vote Log.is_up_to_date
    on_vote_reply observe_term become_follower become_leader advance_commit_index find_commit
    Log.log_term Log.log_pos inc64 Log.append count_stored fill perform handle_append_entries
    recognise_leader accept_entries store_entries overwrite Log.matches Log.entries_from
    Log.truncate_from prepare_append on_append_reply add64 sub64
committed-HaveRoom =
    trio-all (λ i. HasRoom (committed.node i).log) (omega arith) (omega arith) (omega arith)

pub committed-at : (committed.node "a").commit_index ≡ 1
unfolding start_election become_candidate persist quorum handle_request_vote Log.is_up_to_date
    on_vote_reply observe_term become_follower become_leader advance_commit_index find_commit
    Log.log_term Log.log_pos inc64 Log.append count_stored fill perform handle_append_entries
    recognise_leader accept_entries store_entries overwrite Log.matches Log.entries_from
    Log.truncate_from prepare_append on_append_reply add64 sub64
committed-at = refl

abbrev pub second_request : AppendEntriesArgs
second_request = record {
  term = 1;
  leader_id = "a";
  prev_log_index = 1;
  prev_log_term = 1;
  entries = [];
  leader_commit = 1;
}

abbrev pub told : Cluster PersistentState
told = record committed {
  node =
      set_node committed.node "b"
        (perform (do_append_entries second_request) (committed.node "b")).1;
}

unfoldable pub committed-told : Step ram trio committed told
unfolding start_election become_candidate persist quorum handle_request_vote Log.is_up_to_date
    on_vote_reply observe_term become_follower become_leader advance_commit_index find_commit
    Log.log_term Log.log_pos inc64 Log.append count_stored fill perform handle_append_entries
    recognise_leader accept_entries store_entries overwrite Log.matches Log.entries_from
    Log.truncate_from prepare_append on_append_reply add64 sub64
committed-told = act "b" (do_append_entries second_request) (inr (inl refl)) tt refl

pub told-HaveRoom : HaveRoom ram trio told
unfolding start_election become_candidate persist quorum handle_request_vote Log.is_up_to_date
    on_vote_reply observe_term become_follower become_leader advance_commit_index find_commit
    Log.log_term Log.log_pos inc64 Log.append count_stored fill perform handle_append_entries
    recognise_leader accept_entries store_entries overwrite Log.matches Log.entries_from
    Log.truncate_from prepare_append on_append_reply add64 sub64
told-HaveRoom = trio-all (λ i. HasRoom (told.node i).log) (omega arith) (omega arith) (omega arith)

pub told-at : (told.node "b").commit_index ≡ 1
unfolding start_election become_candidate persist quorum handle_request_vote Log.is_up_to_date
    on_vote_reply observe_term become_follower become_leader advance_commit_index find_commit
    Log.log_term Log.log_pos inc64 Log.append count_stored fill perform handle_append_entries
    recognise_leader accept_entries store_entries overwrite Log.matches Log.entries_from
    Log.truncate_from prepare_append on_append_reply add64 sub64
told-at = refl

-- The cluster after a step, with what has been sent and what its members have been.
abbrev pub on :
    (c : Net PersistentState) (d : Cluster PersistentState)
    → Step ram trio c.base d
    → Net PersistentState
on c d st = record {
  base = d;
  requests = c.requests;
  replies = step_replies ram trio c.base d st ++ c.replies;
  past =
      record { owner = mover ram trio c.base d st; node = moved_to ram trio c.base d st } ∷ c.past;
}

abbrev pub led : Net PersistentState
led = on (on (on begun elected boot-elected) voted elected-voted) won voted-won

pub begun-led : NetSteps ram trio begun led
unfolding boot-elected elected-voted voted-won
begun-led =
    next
      (next (next here (step elected boot-elected boot-HaveRoom elected-HaveRoom tt))
        (step voted elected-voted elected-HaveRoom voted-HaveRoom tt))
      (step won voted-won voted-HaveRoom won-HaveRoom tt)

abbrev pub asked : Net PersistentState
asked = record led { requests = first_request ∷ [] }

pub led-asked : NetStep ram trio led asked
unfolding start_election become_candidate persist quorum handle_request_vote Log.is_up_to_date
    on_vote_reply observe_term become_follower become_leader advance_commit_index find_commit
    Log.log_term Log.log_pos inc64 Log.append count_stored fill perform handle_append_entries
    recognise_leader accept_entries store_entries overwrite Log.matches Log.entries_from
    Log.truncate_from prepare_append on_append_reply add64 sub64
led-asked = send "a" "b" 1 first_request (inl refl) won-HaveRoom refl

abbrev pub answered : Net PersistentState
answered = on asked stored won-stored

pub asked-stored : NetStep ram trio asked answered
unfolding start_election become_candidate persist quorum handle_request_vote Log.is_up_to_date
    on_vote_reply observe_term become_follower become_leader advance_commit_index find_commit
    Log.log_term Log.log_pos inc64 Log.append count_stored fill perform handle_append_entries
    recognise_leader accept_entries store_entries overwrite Log.matches Log.entries_from
    Log.truncate_from prepare_append on_append_reply add64 sub64 won-stored
asked-stored = step stored won-stored won-HaveRoom stored-HaveRoom (inl refl)

abbrev pub agreed : Net PersistentState
agreed = on answered committed stored-committed

pub stored-agreed : NetStep ram trio answered agreed
unfolding start_election become_candidate persist quorum handle_request_vote Log.is_up_to_date
    on_vote_reply observe_term become_follower become_leader advance_commit_index find_commit
    Log.log_term Log.log_pos inc64 Log.append count_stored fill perform handle_append_entries
    recognise_leader accept_entries store_entries overwrite Log.matches Log.entries_from
    Log.truncate_from prepare_append on_append_reply add64 sub64 won-stored stored-committed
stored-agreed = step committed stored-committed stored-HaveRoom committed-HaveRoom (inl refl, refl)

abbrev pub asked_again : Net PersistentState
asked_again = record agreed { requests = second_request ∷ first_request ∷ [] }

pub agreed-asked_again : NetStep ram trio agreed asked_again
unfolding start_election become_candidate persist quorum handle_request_vote Log.is_up_to_date
    on_vote_reply observe_term become_follower become_leader advance_commit_index find_commit
    Log.log_term Log.log_pos inc64 Log.append count_stored fill perform handle_append_entries
    recognise_leader accept_entries store_entries overwrite Log.matches Log.entries_from
    Log.truncate_from prepare_append on_append_reply add64 sub64
agreed-asked_again = send "a" "b" 1 second_request (inl refl) committed-HaveRoom refl

abbrev pub known : Net PersistentState
known = on asked_again told committed-told

pub asked_again-known : NetStep ram trio asked_again known
unfolding start_election become_candidate persist quorum handle_request_vote Log.is_up_to_date
    on_vote_reply observe_term become_follower become_leader advance_commit_index find_commit
    Log.log_term Log.log_pos inc64 Log.append count_stored fill perform handle_append_entries
    recognise_leader accept_entries store_entries overwrite Log.matches Log.entries_from
    Log.truncate_from prepare_append on_append_reply add64 sub64 committed-told
asked_again-known = step told committed-told committed-HaveRoom told-HaveRoom (inl refl)

pub begun-agreed : NetSteps ram trio begun agreed
begun-agreed = next (next (next begun-led led-asked) asked-stored) stored-agreed

pub agreed-known : NetSteps ram trio agreed known
agreed-known = next (next here agreed-asked_again) asked_again-known

abbrev pub no_op : Entry
no_op = record { index = 1; term = 1; command = [] }

pub begun-known : NetSteps ram trio begun known
begun-known = next (next begun-agreed agreed-asked_again) asked_again-known

pub led-agreed : NetSteps ram trio led agreed
led-agreed = next (next (next here led-asked) asked-stored) stored-agreed
