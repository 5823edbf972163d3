-- ===== src/Raft/Net/Tests.antt =====
-- The theorems on logs at the run of Samples.antt.
use fraud_scoring_platform.Raft.Net.Delivery.{delivery_safety}
use fraud_scoring_platform.Raft.Service.{apply_msg, next_batch}
use fraud_scoring_platform.Raft.Net.Samples.{
  told-HaveRoom, committed-HaveRoom, led-agreed, agreed-known, begun-led, begun-known, begun-agreed,
  begun-IsNetStart, begun, no_op, known, agreed, led,
}
use fraud_scoring_platform.Raft.Net.Matching.{log_matching}
use fraud_scoring_platform.Raft.Net.Agreement.{
  leader_append_only, state_machine_safety, leader_completeness,
}
use fraud_scoring_platform.Raft.Log.{last_index}
use fraud_scoring_platform.Raft.Log.Shape.{view_in, view}
use fraud_scoring_platform.Raft.Replication.{
  on_append_reply, prepare_append, overwrite, store_entries, accept_entries, recognise_leader,
  handle_append_entries,
}
use fraud_scoring_platform.Raft.Action.{perform}
use fraud_scoring_platform.Raft.Node.{quorum, persist}
use fraud_scoring_platform.Raft.Cluster.Samples.{trio_real, trio-Distinct, trio}
use fraud_scoring_platform.Raft.Role.{
  fill, count_stored, find_commit, advance_commit_index, become_leader, become_follower,
  observe_term, become_candidate,
}
use fraud_scoring_platform.Raft.Election.{on_vote_reply, handle_request_vote, start_election}
use fraud_scoring_platform.Raft.Types.{ok, leader}
use fraud_scoring_platform.Raft.Log
use fraud_scoring_platform.Raft.Tests.{ram-IsStorage, ram}
use fraud_scoring_platform.Prelude.{
  [], ◌∷◌, ◌^◌, ◌<◌, ℕ, some, ◌≤◌, ◌≡◌, sub64, add64, inc64, inr, inl, arith, refl,
}

a-has : view (known.base.node "a").log 1 ≡ some no_op
unfolding start_election become_candidate persist quorum handle_request_vote Log.is_up_to_date
    on_vote_reply observe_term become_follower become_leader advance_commit_index find_commit
    Log.log_term Log.log_pos inc64 Log.append count_stored fill perform handle_append_entries
    recognise_leader accept_entries store_entries overwrite Log.matches Log.entries_from
    Log.truncate_from prepare_append on_append_reply add64 sub64 view_in
a-has = refl

b-has : view (known.base.node "b").log 1 ≡ some no_op
unfolding start_election become_candidate persist quorum handle_request_vote Log.is_up_to_date
    on_vote_reply observe_term become_follower become_leader advance_commit_index find_commit
    Log.log_term Log.log_pos inc64 Log.append count_stored fill perform handle_append_entries
    recognise_leader accept_entries store_entries overwrite Log.matches Log.entries_from
    Log.truncate_from prepare_append on_append_reply add64 sub64 view_in
b-has = refl

a-committed : 1 ≤ (agreed.base.node "a").commit_index
unfolding start_election become_candidate persist quorum handle_request_vote Log.is_up_to_date
    on_vote_reply observe_term become_follower become_leader advance_commit_index find_commit
    Log.log_term Log.log_pos inc64 Log.append count_stored fill perform handle_append_entries
    recognise_leader accept_entries store_entries overwrite Log.matches Log.entries_from
    Log.truncate_from prepare_append on_append_reply add64 sub64
a-committed = omega arith

b-committed : 1 ≤ (known.base.node "b").commit_index
unfolding start_election become_candidate persist quorum handle_request_vote Log.is_up_to_date
    on_vote_reply observe_term become_follower become_leader advance_commit_index find_commit
    Log.log_term Log.log_pos inc64 Log.append count_stored fill perform handle_append_entries
    recognise_leader accept_entries store_entries overwrite Log.matches Log.entries_from
    Log.truncate_from prepare_append on_append_reply add64 sub64
b-committed = omega arith

known-leads : (known.base.node "a").role ≡ leader
unfolding start_election become_candidate persist quorum handle_request_vote Log.is_up_to_date
    on_vote_reply observe_term become_follower become_leader advance_commit_index find_commit
    Log.log_term Log.log_pos inc64 Log.append count_stored fill perform handle_append_entries
    recognise_leader accept_entries store_entries overwrite Log.matches Log.entries_from
    Log.truncate_from prepare_append on_append_reply add64 sub64
known-leads = refl

terms-le : (agreed.base.node "a").current_term ≤ (known.base.node "a").current_term
unfolding start_election become_candidate persist quorum handle_request_vote Log.is_up_to_date
    on_vote_reply observe_term become_follower become_leader advance_commit_index find_commit
    Log.log_term Log.log_pos inc64 Log.append count_stored fill perform handle_append_entries
    recognise_leader accept_entries store_entries overwrite Log.matches Log.entries_from
    Log.truncate_from prepare_append on_append_reply add64 sub64
terms-le = omega arith

led-leads : (led.base.node "a").role ≡ leader
unfolding start_election become_candidate persist quorum handle_request_vote Log.is_up_to_date
    on_vote_reply observe_term become_follower become_leader advance_commit_index find_commit
    Log.log_term Log.log_pos inc64 Log.append count_stored fill perform handle_append_entries
    recognise_leader accept_entries store_entries overwrite Log.matches Log.entries_from
    Log.truncate_from prepare_append on_append_reply add64 sub64
led-leads = refl

agreed-leads : (agreed.base.node "a").role ≡ leader
unfolding start_election become_candidate persist quorum handle_request_vote Log.is_up_to_date
    on_vote_reply observe_term become_follower become_leader advance_commit_index find_commit
    Log.log_term Log.log_pos inc64 Log.append count_stored fill perform handle_append_entries
    recognise_leader accept_entries store_entries overwrite Log.matches Log.entries_from
    Log.truncate_from prepare_append on_append_reply add64 sub64
agreed-leads = refl

same-term : (agreed.base.node "a").current_term ≡ (led.base.node "a").current_term
unfolding start_election become_candidate persist quorum handle_request_vote Log.is_up_to_date
    on_vote_reply observe_term become_follower become_leader advance_commit_index find_commit
    Log.log_term Log.log_pos inc64 Log.append count_stored fill perform handle_append_entries
    recognise_leader accept_entries store_entries overwrite Log.matches Log.entries_from
    Log.truncate_from prepare_append on_append_reply add64 sub64
same-term = refl

log_matching_example : view (known.base.node "a").log 1 ≡ view (known.base.node "b").log 1
log_matching_example =
    log_matching ram ram-IsStorage trio trio-Distinct trio_real begun known "a" "b" 1 no_op no_op
      begun-IsNetStart begun-known (inl refl) (inr (inl refl)) a-has b-has refl 1 (omega arith)

state_machine_safety_example : view (agreed.base.node "a").log 1 ≡ view (known.base.node "b").log 1
state_machine_safety_example =
    state_machine_safety ram ram-IsStorage trio trio-Distinct trio_real begun agreed known
      begun-IsNetStart begun-agreed agreed-known "a" "b" 1 (inl refl) (inr (inl refl)) a-committed
      b-committed

leader_completeness_example : view (known.base.node "a").log 1 ≡ view (agreed.base.node "a").log 1
leader_completeness_example =
    leader_completeness ram ram-IsStorage trio trio-Distinct trio_real begun agreed known
      begun-IsNetStart begun-agreed agreed-known "a" "a" 1 (inl refl) (inl refl) a-committed
      known-leads terms-le

leader_append_only_example :
    (last_index (led.base.node "a").log ≤ last_index (agreed.base.node "a").log)
    × ((j : ℕ)
        → j ≤ last_index (led.base.node "a").log
        → view (agreed.base.node "a").log j ≡ view (led.base.node "a").log j)
leader_append_only_example =
    leader_append_only ram ram-IsStorage trio trio-Distinct trio_real begun led agreed
      begun-IsNetStart begun-led led-agreed "a" (inl refl) led-leads agreed-leads same-term

a-took : next_batch (agreed.base.node "a") ≡ (ok (some (no_op ∷ [])), agreed.base.node "a")
unfolding start_election become_candidate persist quorum handle_request_vote Log.is_up_to_date
    on_vote_reply observe_term become_follower become_leader advance_commit_index find_commit
    Log.log_term Log.log_pos inc64 Log.append count_stored fill perform handle_append_entries
    recognise_leader accept_entries store_entries overwrite Log.matches Log.entries_from
    Log.truncate_from prepare_append on_append_reply add64 sub64 next_batch
a-took = refl

b-took : next_batch (known.base.node "b") ≡ (ok (some (no_op ∷ [])), known.base.node "b")
unfolding start_election become_candidate persist quorum handle_request_vote Log.is_up_to_date
    on_vote_reply observe_term become_follower become_leader advance_commit_index find_commit
    Log.log_term Log.log_pos inc64 Log.append count_stored fill perform handle_append_entries
    recognise_leader accept_entries store_entries overwrite Log.matches Log.entries_from
    Log.truncate_from prepare_append on_append_reply add64 sub64 next_batch
b-took = refl

a-small : (agreed.base.node "a").commit_index < 2 ^ 63
unfolding start_election become_candidate persist quorum handle_request_vote Log.is_up_to_date
    on_vote_reply observe_term become_follower become_leader advance_commit_index find_commit
    Log.log_term Log.log_pos inc64 Log.append count_stored fill perform handle_append_entries
    recognise_leader accept_entries store_entries overwrite Log.matches Log.entries_from
    Log.truncate_from prepare_append on_append_reply add64 sub64
a-small = omega arith

b-small : (known.base.node "b").commit_index < 2 ^ 63
unfolding start_election become_candidate persist quorum handle_request_vote Log.is_up_to_date
    on_vote_reply observe_term become_follower become_leader advance_commit_index find_commit
    Log.log_term Log.log_pos inc64 Log.append count_stored fill perform handle_append_entries
    recognise_leader accept_entries store_entries overwrite Log.matches Log.entries_from
    Log.truncate_from prepare_append on_append_reply add64 sub64
b-small = omega arith

delivery_safety_example : apply_msg no_op ≡ apply_msg no_op
delivery_safety_example =
    delivery_safety ram ram-IsStorage trio trio-Distinct trio_real begun agreed known
      begun-IsNetStart begun-agreed agreed-known "a" "b" (inl refl) (inr (inl refl))
      (committed-HaveRoom "a" (inl refl)) (told-HaveRoom "b" (inr (inl refl))) a-small b-small
      (no_op ∷ []) (no_op ∷ []) (agreed.base.node "a") (known.base.node "b") a-took b-took 0 0
      (apply_msg no_op) (apply_msg no_op) refl refl refl
