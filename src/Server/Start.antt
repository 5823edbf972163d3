-- ===== src/Server/Start.antt =====
-- What cmd/score-server has checked when it begins to serve, and how it then answers.
use fraud_scoring_platform.Scoring.Model.Kernel.{validate_model_lem, Validated, IsModel}
use fraud_scoring_platform.Prelude.Int.{negsuc, pos, ℤ}
use fraud_scoring_platform.Scoring.Service.{Service, new_service}
use fraud_scoring_platform.Scoring.Float.{Float64}
use fraud_scoring_platform.Scoring.Model.{
  load_model, validate_model, ModelError, Model, Result, parse, done, fail, panic, malformed,
  unreadable, invalid,
}
use fraud_scoring_platform.Server.{
  default_http_addr, settings_if, getenv_or, bind_server, with_model, with_settings, check_port,
  check_parts, RunError, load_settings, start_server, Settings, AddrError, validate_tcp_addr,
  Platform, load_config, load_model_file, create_service, listen_on, server_failed, shutdown_failed,
}
use fraud_scoring_platform.Prelude.{
  sym, subst, false, Bool-cases, true, ◌≤◌, ◌↔◌, inl, inr, none, some, ◌⊎◌, ℕ, ◌≡◌, Option, String,
  arith, refl,
}

module _ {Bytes F : Type 0} (os : Platform Bytes F) where
  -- The address has a port that is a number from 0 to 65535.
  abbrev pub HasPort : String → Type 0
  HasPort addr =
      (host : String) × (port : String) × (n : ℕ) × (os.split_host_port addr ≡ some (host, port))
      × (os.atoi port ≡ some (pos n))
      × (n ≤ 65535)

  check_port-none :
      (v : Option ℤ) → check_port os v ≡ none → (n : ℕ) × (v ≡ some (pos n)) × (n ≤ 65535)
  check_port-none none h = cc h
  check_port-none (some (pos n)) h = (n, refl, ground (arith, h))
  check_port-none (some (negsuc n)) h = ground (arith, h)

  check_parts-none :
      (addr : String) (v : Option (String × String))
      → os.split_host_port addr ≡ v
      → check_parts os v ≡ none
      → HasPort addr
  check_parts-none addr none at h = cc h
  check_parts-none addr (some (host, port)) at h =
      let (n, is, le) = check_port-none (os.atoi port) h in (host, port, n, at, is, le)

  -- `validateTCPAddr` accepts exactly the addresses that split into a host and a port, where the
  -- port is a number from 0 to 65535.
  pub validate_tcp_addr_iff : (addr : String) → (validate_tcp_addr os addr ≡ none) ↔ HasPort addr
  unfolding validate_tcp_addr
  validate_tcp_addr_iff addr = (
    λ h. check_parts-none addr (os.split_host_port addr) refl h,
    λ (host, port, n, at, is, le). rw (at, is) (ground (arith, le)),
  )

  settings_if-HasPort :
      (addr : String) (v : Option AddrError) (cfg : Settings)
      → validate_tcp_addr os addr ≡ v
      → settings_if os addr v ≡ inr cfg
      → HasPort cfg.http_addr
  settings_if-HasPort addr (some e) cfg at h = cc h
  settings_if-HasPort addr none cfg at h =
      let same : addr ≡ cfg.http_addr = cc h in
      subst HasPort same ((validate_tcp_addr_iff addr).0 at)

  load_settings-HasPort : (cfg : Settings) → load_settings os ≡ inr cfg → HasPort cfg.http_addr
  unfolding load_settings
  load_settings-HasPort cfg h =
      let addr = getenv_or os "HTTP_ADDR" default_http_addr in
      settings_if-HasPort addr (validate_tcp_addr os addr) cfg refl h

module _ (fl : Float64) {Bytes Time : Type 0} (os : Platform Bytes fl.F) (now : Time) where
  -- Why it does not serve, or with what it does.
  abbrev pub Started : Result RunError (Settings × Service fl.F Time) → Type 0
  Started (done (cfg, s)) =
      (load_settings os ≡ inr cfg)
      × HasPort os cfg.http_addr
      × ((b : Bytes) × (os.read_file cfg.model_path ≡ some b) × (os.unmarshal b ≡ some s.model))
      × IsModel fl s.model
      × (os.listen cfg.http_addr ≡ true)
  Started (fail (load_config e)) = load_settings os ≡ inl e
  Started (fail (load_model_file unreadable)) =
      (cfg : Settings) × (load_settings os ≡ inr cfg) × (os.read_file cfg.model_path ≡ none)
  Started (fail (load_model_file malformed)) =
      (cfg : Settings) × (b : Bytes) × (load_settings os ≡ inr cfg)
      × (os.read_file cfg.model_path ≡ some b)
      × (os.unmarshal b ≡ none)
  Started (fail (load_model_file (invalid e))) =
      (cfg : Settings) × (b : Bytes) × (m : Model fl.F) × (load_settings os ≡ inr cfg)
      × (os.read_file cfg.model_path ≡ some b)
      × (os.unmarshal b ≡ some m)
      × Validated fl m (fail e)
  Started (fail (listen_on a)) =
      (cfg : Settings) × (b : Bytes) × (m : Model fl.F) × (load_settings os ≡ inr cfg)
      × (os.read_file cfg.model_path ≡ some b)
      × (os.unmarshal b ≡ some m)
      × IsModel fl m
      × (a ≡ cfg.http_addr)
      × (os.listen a ≡ false)
  Started (fail create_service) = ⊥
  Started (fail server_failed) = ⊥
  Started (fail shutdown_failed) = ⊥
  Started panic = ⊥

  bind_server_lem :
      (cfg : Settings) (b : Bytes) (m : Model fl.F)
      → load_settings os ≡ inr cfg
      → os.read_file cfg.model_path ≡ some b
      → os.unmarshal b ≡ some m
      → IsModel fl m
      → Started (bind_server fl os now cfg (new_service (some m) now))
  unfolding new_service
  bind_server_lem cfg b m loaded read parsed valid = elim (Bool-cases (os.listen cfg.http_addr)) [
    | inl free ↦
        rw free (loaded, load_settings-HasPort os cfg loaded, (b, read, parsed), valid, free)
    | inr busy ↦ rw busy (cfg, b, m, loaded, read, parsed, valid, refl, busy)
  ]

  parse-eq-done :
      (m : Model fl.F) (u : Unit {0}) → validate_model fl m ≡ done u → parse fl (some m) ≡ done m
  unfolding parse
  parse-eq-done m u at = rw (at, parse)

  parse-eq-fail :
      (m : Model fl.F) (e : ModelError)
      → validate_model fl m ≡ fail e
      → parse fl (some m) ≡ fail (invalid e)
  unfolding parse
  parse-eq-fail m e at = rw (at, parse)

  with_valid :
      (cfg : Settings) (b : Bytes) (m : Model fl.F) (x : Result ModelError (Unit {0}))
      → load_settings os ≡ inr cfg
      → os.read_file cfg.model_path ≡ some b
      → os.unmarshal b ≡ some m
      → validate_model fl m ≡ x
      → Validated fl m x
      → Started (with_model fl os now cfg (parse fl (some m)))
  with_valid cfg b m (done u) loaded read parsed at v =
      subst (λ p. Started (with_model fl os now cfg p)) (sym (parse-eq-done m u at))
        (bind_server_lem cfg b m loaded read parsed v)
  with_valid cfg b m (fail e) loaded read parsed at v =
      subst (λ p. Started (with_model fl os now cfg p)) (sym (parse-eq-fail m e at))
        (cfg, b, m, loaded, read, parsed, v)
  with_valid cfg b m panic loaded read parsed at v = absurd v

  with_parsed :
      (cfg : Settings) (b : Bytes) (v : Option (Model fl.F))
      → load_settings os ≡ inr cfg
      → os.read_file cfg.model_path ≡ some b
      → os.unmarshal b ≡ v
      → Started (with_model fl os now cfg (parse fl v))
  with_parsed cfg b none loaded read parsed = unfold parse in (cfg, b, loaded, read, parsed)
  with_parsed cfg b (some m) loaded read parsed =
      with_valid cfg b m (validate_model fl m) loaded read parsed refl (validate_model_lem fl m)

  with_file :
      (cfg : Settings) (v : Option Bytes)
      → load_settings os ≡ inr cfg
      → os.read_file cfg.model_path ≡ v
      → Started (with_model fl os now cfg (load_model fl os.unmarshal v))
  with_file cfg none loaded read = unfold load_model in (cfg, loaded, read)
  with_file cfg (some b) loaded read =
      unfold load_model in with_parsed cfg b (os.unmarshal b) loaded read refl

  with_settings_lem :
      (v : AddrError ⊎ Settings) → load_settings os ≡ v → Started (with_settings fl os now v)
  with_settings_lem (inl e) at = at
  with_settings_lem (inr cfg) at = with_file cfg (os.read_file cfg.model_path) at refl

  -- When the server begins to listen, its settings are those that `Load` returns, the address has a
  -- port from 0 to 65535, its model was read from the file and is one that `validate` accepts, and
  -- the address can be listened on. Otherwise the error says which of these failed first, and is
  -- true of it; nothing panics, and a service is always created from a model.
  pub start_server_lem : Started (start_server fl os now)
  unfolding start_server
  start_server_lem = with_settings_lem (load_settings os) refl
