-- ===== src/Server/Tests.antt =====
-- A server at concrete settings.
use fraud_scoring_platform.Server.Answers.{start_server-Answered}
use fraud_scoring_platform.Scoring.Service.{new_service}
use fraud_scoring_platform.HttpApi.Handler.{score_handler}
use fraud_scoring_platform.Scoring.Strings.{sort_strings-IsSort, sort_strings, LeStr}
use fraud_scoring_platform.Prelude.Int.{pos}
use fraud_scoring_platform.HttpApi.Handler.Answer.{Answered}
use fraud_scoring_platform.Server.Start.{validate_tcp_addr_iff, HasPort, start_server_lem, Started}
use fraud_scoring_platform.Scoring.Model.Kernel.{IsModel}
use fraud_scoring_platform.HttpApi.Samples.{libraries, libraries-IsMarshal, bytewise, request}
use fraud_scoring_platform.Scoring.Samples.{small, artifact, service, small-IsFloat64}
use fraud_scoring_platform.Scoring.Model.{check_weights, validate_model, parse, load_model, done}
use fraud_scoring_platform.Server.{
  load_settings, start_server, run, Platform, validate_tcp_addr, Settings, signalled,
}
use fraud_scoring_platform.Prelude.{true, ◌↔◌, none, some, ◌≡◌, ℕ, refl}

abbrev host : Platform Unit ℕ
host = record {
  getenv = λ name. "";
  split_host_port = λ addr. some ("", "8080");
  atoi = λ s. some (pos 8080);
  read_file = λ path. some tt;
  unmarshal = λ b. some artifact;
  listen = λ addr. true;
}

abbrev clock : ℕ
clock = 7

abbrev settings : Settings
settings = record { http_addr = ":8080"; model_path = "models/v1.0.0/model.json" }

started : start_server small host clock ≡ done (settings, service)
unfolding start_server load_settings validate_tcp_addr load_model parse validate_model check_weights
    new_service
started = refl

stopped_cleanly : run small host clock (signalled true) ≡ done tt
unfolding run start_server load_settings validate_tcp_addr load_model parse validate_model
    check_weights new_service
stopped_cleanly = refl

validate_tcp_addr_iff_example : (validate_tcp_addr host ":8080" ≡ none) ↔ HasPort host ":8080"
validate_tcp_addr_iff_example = validate_tcp_addr_iff host ":8080"

start_server_example : Started small host clock (start_server small host clock)
start_server_example = start_server_lem small host clock

start_server-Answered_example :
    (valid : IsModel small service.model) × Answered small small-IsFloat64 libraries
      libraries-IsMarshal bytewise
      (λ b. b)
      LeStr
      sort_strings
      sort_strings-IsSort
      service
      valid
      request
      (score_handler small libraries bytewise (λ b. b) sort_strings service request)
start_server-Answered_example =
    start_server-Answered small small-IsFloat64 libraries libraries-IsMarshal bytewise (λ b. b)
      LeStr sort_strings sort_strings-IsSort host clock settings service request started
