-- ===== src/Server/Answers.antt =====
-- A server that cmd/score-server has begun to serve answers as internal/httpapi promises.
use fraud_scoring_platform.Server.Start.{start_server_lem, Started}
use fraud_scoring_platform.Scoring.Model.Kernel.{IsModel}
use fraud_scoring_platform.Scoring.Service.{Service}
use fraud_scoring_platform.Server.{start_server, Settings, Platform}
use fraud_scoring_platform.Scoring.Vector.Order.{IsSort}
use fraud_scoring_platform.HttpApi.Json.{Decoder}
use fraud_scoring_platform.HttpApi.Handler.Answer.{score_handler_lem, Answered, IsMarshal}
use fraud_scoring_platform.HttpApi.Handler.{score_handler, Request, Libraries}
use fraud_scoring_platform.Scoring.Float.{IsFloat64, Float64}
use fraud_scoring_platform.Scoring.Model.{done}
use fraud_scoring_platform.Prelude.{subst, ◌≡◌, String, ℕ, List}

module _ (fl : Float64) (law : IsFloat64 fl) {Bytes Stream Time : Type 0}
    (lib : Libraries fl.F Stream) (json : IsMarshal fl law lib.marshal) (dec : Decoder)
    (new_decoder : List ℕ → dec.State) (Le : String → String → Type 0)
    (sort : List String → List String) (sorts : IsSort Le sort) (os : Platform Bytes fl.F)
    (now : Time) where
  -- With a sort that keeps the names and puts a least one, by an antisymmetric order, in front, the
  -- rounding of IEEE 754, and an encoder that refuses no error message and no number between 0 and
  -- 1: a server that has begun to listen has a valid model, so its score handler never panics,
  -- never answers with a server error, and answers 200 only with a score between 0 and 1 of the
  -- features that were asked about.
  pub start_server-Answered :
      (cfg : Settings) (s : Service fl.F Time) (r : Request Stream)
      → start_server fl os now ≡ done (cfg, s)
      → (valid : IsModel fl s.model) × Answered fl law lib json dec new_decoder Le sort sorts s
          valid r
          (score_handler fl lib dec new_decoder sort s r)
  start_server-Answered cfg s r h =
      let (_, _, _, valid, _) = subst (Started fl os now) h (start_server_lem fl os now) in
      (valid, score_handler_lem fl law lib json dec new_decoder Le sort sorts s valid r)
