-- ===== src/Raft/Cluster/Samples.antt =====
-- A run of three nodes (raft/*.go) over fresh disks: an election that `a` wins with the vote of `b`.
use fraud_scoring_platform.Raft.Storage.Codec.{zero_state}
use fraud_scoring_platform.Raft.Service.{propose}
use fraud_scoring_platform.Raft.Action.{do_propose, perform}
use fraud_scoring_platform.Raft.Cluster.Majority.{Distinct}
use fraud_scoring_platform.Raft.Log
use fraud_scoring_platform.Raft.Role.{count_stored, fill}
use fraud_scoring_platform.Raft.Create.{others}
use fraud_scoring_platform.Raft.Role.{
  find_commit, advance_commit_index, become_follower, become_leader, observe_term, become_candidate,
}
use fraud_scoring_platform.Raft.Node.{quorum, persist, Node}
use fraud_scoring_platform.Raft.Election.{
  on_vote_reply, handle_request_vote, vote_request, start_election,
}
use fraud_scoring_platform.Raft.Cluster.{
  act, deliver, vote, granted, Tally, elect, Step, set_node, IsStart, Cluster,
}
use fraud_scoring_platform.Raft.Types.{
  nobody, leader, follower, PersistentState, RequestVoteReply, NodeId, RequestVoteArgs,
}
use fraud_scoring_platform.Raft.Tests.{ram, config}
use fraud_scoring_platform.Prelude.{
  Elem, eq_iff, ◌∙◌, str_eq, ◌≢◌, ℕ, ◌≡◌, inc64, inr, false, ◌++◌, none, inl, [], true, ◌∷◌, List,
  arith, refl,
}

abbrev pub trio : List NodeId
trio = "a" ∷ "b" ∷ "c" ∷ []

abbrev pub fresh : NodeId → Node PersistentState
fresh i = record {
  id = i;
  peers = others i trio;
  cfg = config;
  storage = ram;
  disk = zero_state;
  current_term = 0;
  voted_for = "";
  log = Log.new_raft_log;
  commit_index = 0;
  last_applied = 0;
  next_index = λ _. 0;
  match_index = λ _. 0;
  role = follower;
  leader_id = "";
  kick_ch = none;
  started = true;
  stopped = false;
  effects = [];
}

abbrev pub boot : Cluster PersistentState
boot = record { node = fresh; tallies = []; answers = []; history = [] }

pub boot-IsStart : IsStart ram trio boot
boot-IsStart = record {
  no_tallies = refl;
  no_history = refl;
  no_answers = refl;
  named = λ i e. refl;
  connected = λ i e. refl;
  restorable = λ i e. record { same = refl; synced = refl };
  no_leader = λ i e. refl;
}

abbrev pub voter_args : RequestVoteArgs
voter_args = record { term = 1; candidate_id = "a"; last_log_index = 0; last_log_term = 0 }

abbrev pub yes_vote : RequestVoteReply
yes_vote = record { term = 1; vote_granted = true }

abbrev pub candidate_node : Node PersistentState
candidate_node = (start_election (fresh "a")).1

abbrev pub elected : Cluster PersistentState
elected = record {
  node = set_node fresh "a" candidate_node;
  tallies =
      record {
        args = vote_request candidate_node;
        waiting = others "a" trio;
        voters = "a" ∷ [];
        votes = 1;
      }
      ∷ [];
  answers = [];
  history = record { voter = "a"; term = candidate_node.current_term; candidate = "a" } ∷ [];
}

unfoldable pub boot-elected : Step ram trio boot elected
unfolding start_election become_candidate persist quorum
boot-elected = elect "a" 1 (inl refl) (omega arith) refl refl refl

abbrev pub first_tally : Tally
first_tally = record {
  args = vote_request candidate_node;
  waiting = others "a" trio;
  voters = "a" ∷ [];
  votes = 1;
}

abbrev pub voter_node : Node PersistentState
voter_node = (handle_request_vote first_tally.args (fresh "b")).1

abbrev pub voted : Cluster PersistentState
voted = record elected {
  node = set_node elected.node "b" voter_node;
  answers = record { voter = "b"; args = first_tally.args; answer = yes_vote } ∷ [];
  history = granted "b" first_tally.args yes_vote ++ elected.history;
}

unfoldable pub elected-voted : Step ram trio elected voted
unfolding handle_request_vote observe_term become_follower persist Log.is_up_to_date start_election
    become_candidate quorum inc64
elected-voted = vote "b" first_tally yes_vote (inr (inl refl)) (inl refl) refl

abbrev pub leader_of_one : Node PersistentState
leader_of_one = (on_vote_reply first_tally.args yes_vote 1 (voted.node "a")).1

abbrev pub won : Cluster PersistentState
won = record voted {
  node = set_node voted.node "a" leader_of_one;
  tallies =
      record { args = first_tally.args; waiting = "c" ∷ []; voters = "b" ∷ "a" ∷ []; votes = 2 }
      ∷ voted.tallies;
}

unfoldable pub voted-won : Step ram trio voted won
unfolding start_election become_candidate persist quorum on_vote_reply observe_term become_leader
    advance_commit_index find_commit Log.log_term Log.log_pos inc64 Log.append count_stored fill
voted-won =
    deliver "a" first_tally (record { voter = "b"; args = first_tally.args; answer = yes_vote }) 2
      (inl refl) (inl refl) refl refl (inl refl) refl

abbrev pub later : Cluster PersistentState
later = record won { node = set_node won.node "a" (perform (do_propose (7 ∷ [])) (won.node "a")).1 }

pub won-later : Step ram trio won later
unfolding start_election become_candidate persist quorum on_vote_reply observe_term become_leader
    advance_commit_index find_commit Log.log_term Log.log_pos inc64 Log.append count_stored fill
    perform propose
won-later = act "a" (do_propose (7 ∷ [])) (inl refl) tt refl

pub str_apart : (a b : NodeId) → str_eq a b ≡ false → a ≢ b
str_apart a b h e = cc (h, (eq_iff a b).1 e)

pub trio-Distinct : Distinct trio
trio-Distinct = (
  elim [
    | inl e ↦ str_apart "b" "a" refl e
    | inr (inl e) ↦ str_apart "c" "a" refl e
    | inr (inr e) ↦ e
  ],
  (elim [ inl e ↦ str_apart "c" "b" refl e | inr e ↦ e ], ((λ e. e), tt)),
)

pub trio_real : (i : NodeId) → Elem i trio → i ≢ nobody
trio_real i (inl e) k = str_apart "a" nobody refl (e ∙ k)
trio_real i (inr (inl e)) k = str_apart "b" nobody refl (e ∙ k)
trio_real i (inr (inr (inl e))) k = str_apart "c" nobody refl (e ∙ k)
trio_real i (inr (inr (inr e))) k = e

abbrev pub Rules : Cluster PersistentState → NodeId → ℕ → Type 0
Rules c i t = ((c.node i).role ≡ leader) × ((c.node i).current_term ≡ t)

pub won-Rules : Rules won "a" 1
unfolding start_election become_candidate persist quorum on_vote_reply observe_term become_leader
    advance_commit_index find_commit Log.log_term Log.log_pos inc64 Log.append count_stored fill
won-Rules = (refl, refl)

pub later-Rules : Rules later "a" 1
unfolding start_election become_candidate persist quorum on_vote_reply observe_term become_leader
    advance_commit_index find_commit Log.log_term Log.log_pos inc64 Log.append count_stored fill
    perform propose
later-Rules = (refl, refl)
