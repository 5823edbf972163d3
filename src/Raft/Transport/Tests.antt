-- ===== src/Raft/Transport/Tests.antt =====
-- An RPC to a concrete peer.
use fraud_scoring_platform.Raft.Replication.{handle_append_entries}
use fraud_scoring_platform.Raft.Election.{handle_request_vote}
use fraud_scoring_platform.Raft.Node.{Node}
use fraud_scoring_platform.Raft.Transport.Remote.{send_lem, seen_by_caller, Reaches, IsWire}
use fraud_scoring_platform.Raft.Transport.{
  send_append_entries, with_newline, append_entries_path, serve, request_vote_path, Texts, Wire,
  send_request_vote, Client, Json,
}
use fraud_scoring_platform.Raft.Types.{
  AppendEntriesReply, PersistentState, RequestVoteReply, AppendEntriesArgs, RequestVoteArgs,
}
use Prim.Native.String.{◌++◌}
use fraud_scoring_platform.Raft.Tests.{ram, node_on}
use fraud_scoring_platform.Prelude.{
  subst, str_eq, none, true, [], ◌==◌, ◌∷◌, if◌then◌else◌, ◌≡◌, Option, some, List, Bool, ℕ, arith,
  refl,
}

abbrev ask : RequestVoteArgs
ask = record { term = 5; candidate_id = "b"; last_log_index = 9; last_log_term = 4 }

abbrev heartbeat : AppendEntriesArgs
heartbeat = record {
  term = 5;
  leader_id = "b";
  prev_log_index = 0;
  prev_log_term = 0;
  entries = [];
  leader_commit = 0;
}

abbrev one_message : {A : Type 0} → A → Json A
one_message a = record {
  marshal = λ x. some (1 ∷ []);
  decode = λ b. some a;
  decode_within = λ n b. some a;
}

abbrev of_bit : ℕ → Bool
of_bit n = n == 1

abbrev bit : Bool → ℕ
bit b = if b then 1 else 0

abbrev vote_of : List ℕ → Option RequestVoteReply
vote_of (t ∷ b ∷ rest) = some (record { term = t; vote_granted = of_bit b })
vote_of _ = none

abbrev append_of : List ℕ → Option AppendEntriesReply
append_of (t ∷ b ∷ rest) = some (record { term = t; success = of_bit b })
append_of _ = none

abbrev wire : Wire
wire = record {
  vote_args = one_message ask;
  vote_reply = record {
    marshal = λ r. some (r.term ∷ bit r.vote_granted ∷ []);
    decode = vote_of;
    decode_within = λ n b. vote_of b;
  };
  append_args = one_message heartbeat;
  append_reply = record {
    marshal = λ r. some (r.term ∷ bit r.success ∷ []);
    decode = append_of;
    decode_within = λ n b. append_of b;
  };
}

of_bit-bit : (b : Bool) → of_bit (bit b) ≡ b
of_bit-bit b = ground arith

vote_round :
    (r : RequestVoteReply) (b : List ℕ)
    → some (r.term ∷ bit r.vote_granted ∷ []) ≡ some b
    → vote_of (with_newline b) ≡ some r
vote_round r b e =
    let same : (r.term ∷ bit r.vote_granted ∷ []) ≡ b = cc e in
    subst (λ c. vote_of (with_newline c) ≡ some r) same (rw (of_bit-bit r.vote_granted) refl)

append_round :
    (r : AppendEntriesReply) (b : List ℕ)
    → some (r.term ∷ bit r.success ∷ []) ≡ some b
    → append_of (with_newline b) ≡ some r
append_round r b e =
    let same : (r.term ∷ bit r.success ∷ []) ≡ b = cc e in
    subst (λ c. append_of (with_newline c) ≡ some r) same (rw (of_bit-bit r.success) refl)

wire-IsWire : IsWire wire
wire-IsWire = record {
  vote_reply = record { total = λ r. (r.term ∷ bit r.vote_granted ∷ [], refl); round = vote_round };
  append_reply = record { total = λ r. (r.term ∷ bit r.success ∷ [], refl); round = append_round };
}

abbrev texts : Texts
texts = record { bad_request = []; not_found = []; error = λ e. [] }

abbrev client : Client (Node PersistentState)
client = record {
  peers = λ id. some "http://a";
  is_url = λ u. true;
  post = λ u body n.
      if str_eq u ("http://a" ++ request_vote_path)
      then serve texts wire request_vote_path body n
      else serve texts wire append_entries_path body n;
}

client-Reaches : Reaches client texts wire "a"
client-Reaches = record {
  base = "http://a";
  known = refl;
  is_url = λ p. refl;
  vote = λ b n. refl;
  append = λ b n. refl;
}

send_example :
    (send_request_vote client wire.vote_args wire.vote_reply "a" ask (node_on ram) ≡ (
      seen_by_caller (handle_request_vote ask (node_on ram)).0,
      (handle_request_vote ask (node_on ram)).1,
    ))
    × (send_append_entries client wire.append_args wire.append_reply "a" heartbeat (node_on ram) ≡ (
      seen_by_caller (handle_append_entries heartbeat (node_on ram)).0,
      (handle_append_entries heartbeat (node_on ram)).1,
    ))
send_example =
    send_lem client texts wire wire-IsWire "a" client-Reaches ask heartbeat (node_on ram)
      (1 ∷ [], refl, omega arith, refl) (1 ∷ [], refl, omega arith, refl)
