-- ===== src/Raft/Transport/Remote.antt =====
-- An RPC over raft/httptransport does what the call of the peer's handler does.
use fraud_scoring_platform.Raft.Replication.{handle_append_entries}
use fraud_scoring_platform.Raft.Election.{handle_request_vote}
use fraud_scoring_platform.Raft.Node.{Exec, Node}
use fraud_scoring_platform.Raft.Transport.{
  send_append_entries, append_entries_path, send_request_vote, serve, request_vote_path, Wire,
  max_body_bytes, unreachable, returned, serve_rpc, with_newline, respond_to, call_peer,
  read_response, Texts, CallError, Client, Json,
}
use fraud_scoring_platform.Raft.Types.{
  AppendEntriesArgs, RequestVoteArgs, NodeId, Answer, Outcome, stopped, refuse, reply, ok, panic,
  not_leader, empty_command,
}
use Prim.Native.String.{◌++◌}
use fraud_scoring_platform.Prelude.{
  ◌∙◌, true, String, ◌≤◌, length, inl, some, inr, ◌≡◌, ◌⊎◌, ℕ, List, refl,
}

-- Every message is encoded, and decoded again with a newline behind it.
pub record IsJson {A : Type 0} (j : Json A) : Type 0 where
  pub total : (a : A) → (b : List ℕ) × (j.marshal a ≡ some b)
  pub round : (a : A) (b : List ℕ) → j.marshal a ≡ some b → j.decode (with_newline b) ≡ some a

-- The message is encoded in no more bytes than the handler reads, and decoded again.
abbrev pub Fits : {A : Type 0} → Json A → A → Type 0
Fits j a =
    (b : List ℕ) × (j.marshal a ≡ some b)
    × (length b ≤ max_body_bytes)
    × (j.decode_within max_body_bytes b ≡ some a)

-- What the caller learns of the peer's answer.
abbrev pub seen_by_caller : {Reply : Type 0} → Outcome (Answer Reply) → CallError ⊎ Reply
seen_by_caller (ok (reply r)) = inr r
seen_by_caller (ok (refuse stopped)) = inl (returned 503)
seen_by_caller (ok (refuse e)) = inl (returned 500)
seen_by_caller (panic p) = inl unreachable

module _ {D Args Reply : Type 0} (client : Client (Node D)) (texts : Texts) (args_json : Json Args)
    (reply_json : Json Reply) (reply_law : IsJson reply_json)
    (handle : Args → Exec D (Answer Reply)) where
  read_response-respond_to :
      (o : Outcome (Answer Reply))
      → read_response client args_json reply_json (respond_to texts args_json reply_json handle o)
        ≡ seen_by_caller o
  read_response-respond_to (ok (reply r)) =
      let (b, e) = reply_law.total r in rw (e, reply_law.round r b e) refl
  read_response-respond_to (ok (refuse stopped)) = refl
  read_response-respond_to (ok (refuse not_leader)) = refl
  read_response-respond_to (ok (refuse empty_command)) = refl
  read_response-respond_to (panic p) = refl

  call_peer_lem :
      (to : NodeId) (base path : String) (args : Args) (n : Node D)
      → client.peers to ≡ some base
      → client.is_url (base ++ path) ≡ true
      → ((body : List ℕ)
          → client.post (base ++ path) body n ≡ serve_rpc texts args_json reply_json handle body n)
      → Fits args_json args
      → call_peer client args_json reply_json to path args n
        ≡ (seen_by_caller (handle args n).0, (handle args n).1)
  unfolding call_peer serve_rpc
  call_peer_lem to base path args n at url net (b, e, _, again) =
      rw (at, e, url, net b, again, read_response-respond_to (handle args n).0) refl

-- The client knows the peer, and the network carries what is sent to it to its handler and back.
pub record Reaches {D : Type 0} (client : Client (Node D)) (texts : Texts) (wire : Wire)
    (to : NodeId) : Type 0 where
  pub base : String
  pub known : client.peers to ≡ some base
  pub is_url : (path : String) → client.is_url (base ++ path) ≡ true
  pub vote :
      (body : List ℕ) (n : Node D)
      → client.post (base ++ request_vote_path) body n ≡ serve texts wire request_vote_path body n
  pub append :
      (body : List ℕ) (n : Node D)
      → client.post (base ++ append_entries_path) body n
        ≡ serve texts wire append_entries_path body n

pub record IsWire (wire : Wire) : Type 0 where
  pub vote_reply : IsJson wire.vote_reply
  pub append_reply : IsJson wire.append_reply

module _ {D : Type 0} (client : Client (Node D)) (texts : Texts) (wire : Wire) (law : IsWire wire)
    (to : NodeId) (net : Reaches client texts wire to) where
  serve-request_vote :
      (body : List ℕ) (n : Node D)
      → serve texts wire request_vote_path body n
        ≡ serve_rpc texts wire.vote_args wire.vote_reply handle_request_vote body n
  unfolding serve
  serve-request_vote body n = refl

  serve-append_entries :
      (body : List ℕ) (n : Node D)
      → serve texts wire append_entries_path body n
        ≡ serve_rpc texts wire.append_args wire.append_reply handle_append_entries body n
  unfolding serve
  serve-append_entries body n = refl

  -- If the client knows the peer and the network carries what is sent to the peer's handler and
  -- back, every reply can be encoded and decoded again, and both requests are encoded in at most 16
  -- MiB and decoded again: sending a RequestVote or an AppendEntries over HTTP changes the peer as
  -- its handler does, and the sender gets the handler's reply; status 503, as an error, if the peer
  -- is stopped; and a failed call if the handler panics.
  pub send_lem :
      (v : RequestVoteArgs) (a : AppendEntriesArgs) (n : Node D)
      → Fits wire.vote_args v
      → Fits wire.append_args a
      → (send_request_vote client wire.vote_args wire.vote_reply to v n
          ≡ (seen_by_caller (handle_request_vote v n).0, (handle_request_vote v n).1))
        × (send_append_entries client wire.append_args wire.append_reply to a n
            ≡ (seen_by_caller (handle_append_entries a n).0, (handle_append_entries a n).1))
  unfolding send_request_vote send_append_entries
  send_lem v a n small_v small_a = (
    call_peer_lem client texts wire.vote_args wire.vote_reply law.vote_reply handle_request_vote to
        net.base request_vote_path v n net.known (net.is_url request_vote_path)
        (λ body. net.vote body n ∙ serve-request_vote body n) small_v,
    call_peer_lem client texts wire.append_args wire.append_reply law.append_reply
        handle_append_entries to net.base append_entries_path a n net.known
        (net.is_url append_entries_path) (λ body. net.append body n ∙ serve-append_entries body n)
        small_a,
  )
