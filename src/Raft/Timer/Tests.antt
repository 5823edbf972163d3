-- ===== src/Raft/Timer/Tests.antt =====
-- The election timeout of a concrete configuration.
use fraud_scoring_platform.Raft.Valid.{validate_iff}
use fraud_scoring_platform.Raft.Timer.{election_timeout_lem, election_timeout}
use fraud_scoring_platform.Prelude.Int.{ltb_ℤ, leb_ℤ, ℤ}
use fraud_scoring_platform.Raft.Create.{with_defaults}
use fraud_scoring_platform.Raft.Tests.{restart_config, restart_config_valid}
use fraud_scoring_platform.Prelude.{true, some, ◌≡◌, ℕ, refl}

abbrev draw_least : ℕ → ℕ
draw_least n = 0

election_timeout_example :
    (t : ℤ) × (election_timeout draw_least
        (with_defaults restart_config).election_timeout_min
        (with_defaults restart_config).election_timeout_max
      ≡ some t)
    × (leb_ℤ (with_defaults restart_config).election_timeout_min t ≡ true)
    × (ltb_ℤ t (with_defaults restart_config).election_timeout_max ≡ true)
unfolding with_defaults
election_timeout_example =
    election_timeout_lem draw_least (λ n h. h) (with_defaults restart_config)
      ((validate_iff (with_defaults restart_config)).0 restart_config_valid) refl
