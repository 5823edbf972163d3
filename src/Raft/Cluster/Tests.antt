-- ===== src/Raft/Cluster/Tests.antt =====
-- Election safety at concrete inputs.
use fraud_scoring_platform.Raft.Cluster.{here, next}
use fraud_scoring_platform.Raft.Cluster.Samples.{
  later-Rules, won-Rules, won-later, voted-won, elected-voted, boot-elected, boot-IsStart, later,
  won, boot, trio_real, trio-Distinct, trio,
}
use fraud_scoring_platform.Raft.Cluster.Safety.{leader_unique}
use fraud_scoring_platform.Raft.Tests.{ram-IsStorage, ram}
use fraud_scoring_platform.Raft.Types.{NodeId}
use fraud_scoring_platform.Prelude.{inl, ◌≡◌, refl}

leader_unique_example : ◌≡◌ {A = NodeId} "a" "a"
leader_unique_example =
    leader_unique ram ram-IsStorage trio trio-Distinct trio_real boot won later 1 "a" "a"
      boot-IsStart (next (next (next here boot-elected) elected-voted) voted-won)
      (next here won-later) (inl refl) (inl refl) won-Rules later-Rules
