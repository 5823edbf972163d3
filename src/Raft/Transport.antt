-- ===== src/Raft/Transport.antt =====
-- raft/httptransport/httptransport.go: the client that sends an RPC to a peer, and the handler that
-- a peer runs. net/http and encoding/json are parameters.
pub mod Remote
mod Tests
use fraud_scoring_platform.Raft.Replication.{handle_append_entries}
use fraud_scoring_platform.Raft.Election.{handle_request_vote}
use fraud_scoring_platform.Raft.Node.{Node, Exec}
use fraud_scoring_platform.Raft.Types.{
  RequestVoteReply, AppendEntriesReply, AppendEntriesArgs, RequestVoteArgs, panic, ok, Outcome,
  NodeError, Answer, NodeId, stopped, refuse, reply,
}
use Prim.Native.String.{◌++◌}
use fraud_scoring_platform.Prelude.{
  ◌∷◌, str_eq, ◌==◌, not, none, if◌then◌else◌, inr, inl, some, [], ◌⊎◌, Bool, List, String, Option,
  ℕ,
}

abbrev pub request_vote_path : String
request_vote_path = "/raft/v1/request-vote"

abbrev pub append_entries_path : String
append_entries_path = "/raft/v1/append-entries"

abbrev pub max_body_bytes : ℕ
max_body_bytes = 16777216

pub record HttpResponse : Type 0 where
  pub status : ℕ
  pub body : List ℕ

-- encoding/json for one type of message: json.Marshal, Decode of a json.Decoder, and Decode behind
-- an http.MaxBytesReader with a limit. none is an error.
pub record Json (A : Type 0) : Type 0 where
  pub marshal : A → Option (List ℕ)
  pub decode : List ℕ → Option A
  pub decode_within : ℕ → List ℕ → Option A

pub data CallError : Type 0 where
  unknown_node encoding_request bad_url unreachable decoding_reply : CallError
  returned : (status : ℕ) → CallError

-- What the client is given: the peers' base URLs, and the network. The network sends a body to a URL,
-- and what happens at the other end changes a state.
pub record Client (S : Type 0) : Type 0 where
  pub peers : NodeId → Option String
  -- Whether http.NewRequestWithContext takes the URL.
  pub is_url : String → Bool
  -- `c.http.Do` of a POST; none is an error.
  pub post : String → List ℕ → S → Option HttpResponse × S

module _ {S Args Reply : Type 0} (client : Client S) (args_json : Json Args)
    (reply_json : Json Reply) where
  abbrev pub decoded_reply : Option Reply → CallError ⊎ Reply
  decoded_reply none = inl decoding_reply
  decoded_reply (some r) = inr r

  abbrev pub read_response : Option HttpResponse → CallError ⊎ Reply
  read_response none = inl unreachable
  read_response (some resp) =
      if not (resp.status == 200)
      then inl (returned resp.status)
      else decoded_reply (reply_json.decode resp.body)

  abbrev pub post_body : String → Option (List ℕ) → S → (CallError ⊎ Reply) × S
  post_body url none s = (inl encoding_request, s)
  post_body url (some body) s =
      if not (client.is_url url)
      then (inl bad_url, s)
      else (read_response (client.post url body s).0, (client.post url body s).1)

  abbrev pub call_base : Option String → String → Args → S → (CallError ⊎ Reply) × S
  call_base none path args s = (inl unknown_node, s)
  call_base (some base) path args s = post_body (base ++ path) (args_json.marshal args) s

  unfoldable pub call_peer : NodeId → String → Args → S → (CallError ⊎ Reply) × S
  call_peer to path args s = call_base (client.peers to) path args s

-- The texts that http.Error and the ServeMux send.
pub record Texts : Type 0 where
  pub bad_request : List ℕ
  pub not_found : List ℕ
  pub error : NodeError → List ℕ

abbrev pub with_newline : List ℕ → List ℕ
with_newline [] = 10 ∷ []
with_newline (b ∷ bs) = b ∷ with_newline bs

-- Encode of a json.Encoder writes a newline behind the value, and nothing after an error.
abbrev pub encoded_line : Option (List ℕ) → List ℕ
encoded_line none = []
encoded_line (some b) = with_newline b

module _ {D Args Reply : Type 0} (texts : Texts) (args_json : Json Args) (reply_json : Json Reply)
    (handle : Args → Exec D (Answer Reply)) where
  abbrev pub respond : Answer Reply → HttpResponse
  respond (refuse stopped) = record { status = 503; body = texts.error stopped }
  respond (refuse e) = record { status = 500; body = texts.error e }
  respond (reply r) = record { status = 200; body = encoded_line (reply_json.marshal r) }

  -- net/http recovers a panic and drops the connection.
  abbrev pub respond_to : Outcome (Answer Reply) → Option HttpResponse
  respond_to (ok a) = some (respond a)
  respond_to (panic p) = none

  abbrev pub handle_decoded : Option Args → Node D → Option HttpResponse × Node D
  handle_decoded none n = (some (record { status = 400; body = texts.bad_request }), n)
  handle_decoded (some args) n = (respond_to (handle args n).0, (handle args n).1)

  -- The function that is registered for one path.
  unfoldable pub serve_rpc : List ℕ → Node D → Option HttpResponse × Node D
  serve_rpc body n = handle_decoded (args_json.decode_within max_body_bytes body) n

module _ {S : Type 0} (client : Client S) where
  unfoldable pub send_request_vote :
      Json RequestVoteArgs
      → Json RequestVoteReply
      → NodeId
      → RequestVoteArgs
      → S
      → (CallError ⊎ RequestVoteReply) × S
  send_request_vote args_json reply_json to =
      call_peer client args_json reply_json to request_vote_path

  unfoldable pub send_append_entries :
      Json AppendEntriesArgs
      → Json AppendEntriesReply
      → NodeId
      → AppendEntriesArgs
      → S
      → (CallError ⊎ AppendEntriesReply) × S
  send_append_entries args_json reply_json to =
      call_peer client args_json reply_json to append_entries_path

-- How the four messages are encoded.
pub record Wire : Type 0 where
  pub vote_args : Json RequestVoteArgs
  pub vote_reply : Json RequestVoteReply
  pub append_args : Json AppendEntriesArgs
  pub append_reply : Json AppendEntriesReply

module _ {D : Type 0} (texts : Texts) (wire : Wire) where
  -- `Handler`: a POST to a path. The ServeMux answers 404 for other paths.
  unfoldable pub serve : String → List ℕ → Node D → Option HttpResponse × Node D
  serve path body n =
      if str_eq path request_vote_path
      then serve_rpc texts wire.vote_args wire.vote_reply handle_request_vote body n
      else if str_eq path append_entries_path
      then serve_rpc texts wire.append_args wire.append_reply handle_append_entries body n
      else (some (record { status = 404; body = texts.not_found }), n)
