-- ===== src/HttpApi/Handler.antt =====
-- The handlers of internal/httpapi: score.go, health.go, ready.go and router.go. The calls of
-- net/http, mime and encoding/json are parameters; what is logged and the texts of messages are
-- left out.
pub mod Answer
use fraud_scoring_platform.Scoring.Vector.{Features}
use fraud_scoring_platform.HttpApi.Json.{Decoder}
use fraud_scoring_platform.HttpApi.Body.{validate_json, BodyError}
use fraud_scoring_platform.Scoring.Float.{Float64}
use fraud_scoring_platform.Scoring.Service.{
  Service, ScoreResult, ServiceError, is_client_error, score_features, is_ready,
}
use fraud_scoring_platform.Scoring.Model.{Model, Result, done, fail, panic}
use fraud_scoring_platform.Prelude.{
  ◌++◌, ◌∷◌, ltb, not, none, str_eq, some, if◌then◌else◌, [], false, String, Bool, ℕ, Option, List,
}

abbrev pub max_request_body : ℕ
max_request_body = 65536

abbrev pub max_transaction_id : ℕ
max_transaction_id = 128

-- none is a nil map.
pub record ScoreRequest (F : Type 0) : Type 0 where
  pub transaction_id : String
  pub features : Option (Features F)

pub data Message : Type 0 where
  content_type_required body_too_large read_failed : Message
  bad_body : BodyError → Message
  invalid_request id_required id_too_long features_required : Message
  bad_features : ServiceError → Message
  scoring_failed serialize_failed : Message

-- What is sent as JSON.
pub data Payload (F : Type 0) : Type 0 where
  error_response : Message → Payload F
  score_response : (transaction_id : String) → (score : F) → (model_version : String) → Payload F
  status_response : String → Payload F

pub record Response : Type 0 where
  pub status : ℕ
  pub content_type : String
  pub body : List ℕ

-- The header is empty if it is absent.
pub record Request (Stream : Type 0) : Type 0 where
  pub content_type : String
  pub body : Stream

pub data ReadOutcome : Type 0 where
  content : List ℕ → ReadOutcome
  over_limit broken : ReadOutcome

pub record Libraries (F Stream : Type 0) : Type 0 where
  -- mime.ParseMediaType; none is an error.
  pub parse_media_type : String → Option String
  -- io.ReadAll of http.MaxBytesReader with a limit.
  pub read_all : ℕ → Stream → ReadOutcome
  -- Decode into a scoreRequest, with DisallowUnknownFields; none is an error.
  pub decode : List ℕ → Option (ScoreRequest F)
  -- The length of a string in bytes.
  pub byte_length : String → ℕ
  -- json.Marshal; none is an error.
  pub marshal : Payload F → Option (List ℕ)

abbrev pub or_nothing : Option (List ℕ) → List ℕ
or_nothing none = []
or_nothing (some b) = b

-- Encode of a json.Encoder writes a newline behind the value.
abbrev pub encoded : Option (List ℕ) → List ℕ
encoded none = []
encoded (some b) = b ++ (10 ∷ [])

module _ {F Stream : Type 0} (lib : Libraries F Stream) where
  abbrev pub is_json_type : Option String → Bool
  is_json_type none = false
  is_json_type (some media_type) = str_eq media_type "application/json"

  -- true is the nil error.
  abbrev pub require_json : Request Stream → Bool
  require_json r =
      if str_eq r.content_type "" then false else is_json_type (lib.parse_media_type r.content_type)

  abbrev pub written : ℕ → Option (List ℕ) → Response
  written status none = record {
    status = 500;
    content_type = "application/json";
    body = or_nothing (lib.marshal (error_response serialize_failed));
  }
  written status (some b) = record { status = status; content_type = "application/json"; body = b }

  unfoldable pub write_json : ℕ → Payload F → Response
  write_json status value = written status (lib.marshal value)

  abbrev pub write_error : ℕ → Message → Response
  write_error status message = write_json status (error_response message)

  abbrev pub health_handler : Response
  health_handler = record {
    status = 200;
    content_type = "application/json";
    body = encoded (lib.marshal (status_response "ok"));
  }

  -- none is a service whose model is nil.
  unfoldable pub ready_handler : Option (Model F) → Response
  ready_handler model =
      if is_ready model
      then write_json 200 (status_response "ready")
      else write_json 503 (status_response "not_ready")

module _ (fl : Float64) {Stream Time : Type 0} (lib : Libraries fl.F Stream) (dec : Decoder)
    (new_decoder : List ℕ → dec.State) (sort : List String → List String)
    (service : Service fl.F Time) where
  -- The answer for what `service.Score` returned; none is a panic.
  abbrev pub answer :
      ScoreRequest fl.F → Result ServiceError (ScoreResult fl.F Time) → Option Response
  answer q (done r) =
      some (write_json lib 200 (score_response q.transaction_id r.score r.model_version))
  answer q (fail e) =
      if is_client_error e
      then some (write_error lib 400 (bad_features e))
      else some (write_error lib 500 scoring_failed)
  answer q panic = none

  abbrev pub with_features : ScoreRequest fl.F → Option (Features fl.F) → Option Response
  with_features q none = some (write_error lib 400 features_required)
  with_features q (some fs) = answer q (score_features fl sort service fs)

  abbrev pub with_request : Option (ScoreRequest fl.F) → Option Response
  with_request none = some (write_error lib 400 invalid_request)
  with_request (some q) =
      if str_eq q.transaction_id ""
      then some (write_error lib 400 id_required)
      else if ltb max_transaction_id (lib.byte_length q.transaction_id)
      then some (write_error lib 400 id_too_long)
      else with_features q q.features

  abbrev pub with_checked : List ℕ → Option BodyError → Option Response
  with_checked b (some e) = some (write_error lib 400 (bad_body e))
  with_checked b none = with_request (lib.decode b)

  abbrev pub with_body : ReadOutcome → Option Response
  with_body over_limit = some (write_error lib 413 body_too_large)
  with_body broken = some (write_error lib 400 read_failed)
  with_body (content b) = with_checked b (validate_json dec new_decoder b)

  unfoldable pub score_handler : Request Stream → Option Response
  score_handler r =
      if not (require_json lib r)
      then some (write_error lib 415 content_type_required)
      else with_body (lib.read_all max_request_body r.body)

pub data Endpoint : Type 0 where
  health ready scoring : Endpoint

-- The patterns of the ServeMux.
abbrev pub routes : List (String × Endpoint)
routes = ("GET /healthz", health) ∷ ("GET /readyz", ready) ∷ ("POST /v1/score", scoring) ∷ []
