-- ===== src/Server.antt =====
-- internal/config/config.go, and `run` of cmd/score-server/main.go. Packages os, net, strconv and
-- net/http are parameters; logging is left out.
pub mod Start
pub mod Answers
mod Tests
use fraud_scoring_platform.Scoring.Service.{new_service, Service}
use fraud_scoring_platform.Scoring.Float.{Float64}
use fraud_scoring_platform.Prelude.Int.{pos, ltb_ℤ, ℤ}
use fraud_scoring_platform.Scoring.Model.{load_model, Result, Model, ParseError, done, fail, panic}
use fraud_scoring_platform.Prelude.{
  ◌||◌, inr, str_eq, inl, none, if◌then◌else◌, some, String, Bool, ◌⊎◌, Option, arith, refl,
}

abbrev pub default_http_addr : String
default_http_addr = ":8080"

abbrev pub default_model_path : String
default_model_path = "models/v1.0.0/model.json"

-- `Config` of internal/config.
pub record Settings : Type 0 where
  pub http_addr : String
  pub model_path : String

pub data AddrError : Type 0 where
  no_host_port bad_port : AddrError
  outside_range : (port : ℤ) → AddrError

-- none is an error.
pub record Platform (Bytes F : Type 0) : Type 0 where
  -- "" if the variable is not set.
  pub getenv : String → String
  pub split_host_port : String → Option (String × String)
  pub atoi : String → Option ℤ
  pub read_file : String → Option Bytes
  -- json.Unmarshal into a Model.
  pub unmarshal : Bytes → Option (Model F)
  -- Whether net.Listen succeeds.
  pub listen : String → Bool

pub data RunError : Type 0 where
  load_config : AddrError → RunError
  load_model_file : ParseError → RunError
  create_service server_failed shutdown_failed : RunError
  listen_on : (addr : String) → RunError

-- How the select of `run` goes on: a signal, and whether Shutdown then returns nil, or the end of
-- Serve, and whether its error is ErrServerClosed.
pub data Ending : Type 0 where
  signalled : (shut : Bool) → Ending
  serve_ended : (closed : Bool) → Ending

module _ {Bytes F : Type 0} (os : Platform Bytes F) where
  abbrev pub check_port : Option ℤ → Option AddrError
  check_port none = some bad_port
  check_port (some p) =
      if ltb_ℤ p (pos 0) || ltb_ℤ (pos 65535) p then some (outside_range p) else none

  abbrev pub check_parts : Option (String × String) → Option AddrError
  check_parts none = some no_host_port
  check_parts (some (host, port)) = check_port (os.atoi port)

  unfoldable pub validate_tcp_addr : String → Option AddrError
  validate_tcp_addr addr = check_parts (os.split_host_port addr)

  abbrev pub getenv_or : String → String → String
  getenv_or name default = if str_eq (os.getenv name) "" then default else os.getenv name

  abbrev pub settings_if : String → Option AddrError → AddrError ⊎ Settings
  settings_if addr (some e) = inl e
  settings_if addr none =
      inr (record { http_addr = addr; model_path = getenv_or "MODEL_PATH" default_model_path })

  -- `Load` of internal/config.
  unfoldable pub load_settings : AddrError ⊎ Settings
  load_settings =
      let addr = getenv_or "HTTP_ADDR" default_http_addr in
      settings_if addr (validate_tcp_addr addr)

module _ (fl : Float64) {Bytes Time : Type 0} (os : Platform Bytes fl.F) (now : Time) where
  abbrev pub bind_server :
      Settings → Option (Service fl.F Time) → Result RunError (Settings × Service fl.F Time)
  bind_server cfg none = fail create_service
  bind_server cfg (some s) =
      if os.listen cfg.http_addr then done (cfg, s) else fail (listen_on cfg.http_addr)

  abbrev pub with_model :
      Settings → Result ParseError (Model fl.F) → Result RunError (Settings × Service fl.F Time)
  with_model cfg (fail e) = fail (load_model_file e)
  with_model cfg panic = panic
  with_model cfg (done m) = bind_server cfg (new_service (some m) now)

  abbrev pub with_settings : AddrError ⊎ Settings → Result RunError (Settings × Service fl.F Time)
  with_settings (inl e) = fail (load_config e)
  with_settings (inr cfg) =
      with_model cfg (load_model fl os.unmarshal (os.read_file cfg.model_path))

  -- `run` up to the listener.
  unfoldable pub start_server : Result RunError (Settings × Service fl.F Time)
  start_server = with_settings (load_settings os)

  abbrev pub end_server : Ending → Option RunError
  end_server (signalled shut) = if shut then none else some shutdown_failed
  end_server (serve_ended closed) = if closed then none else some server_failed

  abbrev pub run_started :
      Ending → Result RunError (Settings × Service fl.F Time) → Result RunError (Unit {0})
  run_started ending (fail e) = fail e
  run_started ending panic = panic
  run_started ending (done x) = elim (end_server ending) [ none ↦ done tt | some e ↦ fail e ]

  -- `done` is the nil error.
  unfoldable pub run : Ending → Result RunError (Unit {0})
  run ending = run_started ending start_server
