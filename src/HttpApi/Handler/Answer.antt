-- ===== src/HttpApi/Handler/Answer.antt =====
-- How the score handler of internal/httpapi/score.go answers a request.
use fraud_scoring_platform.Scoring.Service.Total.{Served, score_features_lem}
use fraud_scoring_platform.Scoring.Vector.{Features}
use fraud_scoring_platform.HttpApi.Body.{BodyError, validate_json}
use fraud_scoring_platform.Scoring.Model.Kernel.{logit, IsModel}
use fraud_scoring_platform.Scoring.Service.{
  too_large, ServiceError, bad_feature, internal, score_features, ScoreResult, Service,
}
use fraud_scoring_platform.Scoring.Vector.Order.{IsSort}
use fraud_scoring_platform.HttpApi.Json.{Decoder}
use fraud_scoring_platform.Scoring.Float.{IsFloat64, Float64}
use fraud_scoring_platform.Scoring.Model.{Result, done, fail, panic}
use fraud_scoring_platform.Scoring.Model.Sigmoid.{
  IsProbability, sigmoid-IsProbability, finite-not_nan,
}
use fraud_scoring_platform.HttpApi.Handler.{
  over_limit, answer, with_checked, with_body, score_handler, with_features, ReadOutcome,
  with_request, scoring_failed, serialize_failed, features_required, id_too_long, id_required,
  invalid_request, read_failed, body_too_large, content_type_required, bad_features,
  max_transaction_id, bad_body, max_request_body, write_error, Response, require_json, ScoreRequest,
  write_json, Request, score_response, error_response, Message, Libraries, Payload, broken, content,
}
use fraud_scoring_platform.Prelude.{
  ap, sym, subst, ltb, eq_iff, str_eq, Bool-cases, inl, ◌<◌, ◌≤◌, ◌≢◌, none, ◌⊎◌, inr, false, true,
  some, ◌≡◌, String, ℕ, List, Option, arith, refl,
}

-- json.Marshal refuses no error message, and no score between 0 and 1.
pub record IsMarshal (fl : Float64) (law : IsFloat64 fl) (marshal : Payload fl.F → Option (List ℕ))
    : Type 0 where
  pub message : (m : Message) → (b : List ℕ) × (marshal (error_response m) ≡ some b)
  pub score :
      (id : String) (p : fl.F) (v : String)
      → IsProbability fl law p
      → (b : List ℕ) × (marshal (score_response id p v) ≡ some b)

module _ (fl : Float64) (law : IsFloat64 fl) {Stream Time : Type 0} (lib : Libraries fl.F Stream)
    (json : IsMarshal fl law lib.marshal) (dec : Decoder) (new_decoder : List ℕ → dec.State)
    (Le : String → String → Type 0) (sort : List String → List String) (sorts : IsSort Le sort)
    (service : Service fl.F Time) (valid : IsModel fl service.model) where
  -- The body, if the request has the type and its body can be read.
  abbrev pub HasBody : Request Stream → List ℕ → Type 0
  HasBody r b = (require_json lib r ≡ true) × (lib.read_all max_request_body r.body ≡ content b)

  -- What the body is decoded to, if it passes the check.
  abbrev pub HasRequest : Request Stream → ScoreRequest fl.F → Type 0
  HasRequest r q =
      (b : List ℕ) × HasBody r b
      × (validate_json dec new_decoder b ≡ none)
      × (lib.decode b ≡ some q)

  -- The features, if the rest of the request is in order.
  abbrev pub HasFeatures : Request Stream → ScoreRequest fl.F → Features fl.F → Type 0
  HasFeatures r q fs =
      HasRequest r q
      × (q.transaction_id ≢ "")
      × (lib.byte_length q.transaction_id ≤ max_transaction_id)
      × (q.features ≡ some fs)

  -- The reason for an error and its status.
  abbrev pub Refused : Request Stream → ℕ → Message → Type 0
  Refused r status content_type_required = (status ≡ 415) × (require_json lib r ≡ false)
  Refused r status body_too_large =
      (status ≡ 413)
      × (require_json lib r ≡ true)
      × (lib.read_all max_request_body r.body ≡ over_limit)
  Refused r status read_failed =
      (status ≡ 400) × (require_json lib r ≡ true) × (lib.read_all max_request_body r.body ≡ broken)
  Refused r status (bad_body e) =
      (status ≡ 400) × (b : List ℕ) × HasBody r b × (validate_json dec new_decoder b ≡ some e)
  Refused r status invalid_request =
      (status ≡ 400)
      × (b : List ℕ) × HasBody r b
      × (validate_json dec new_decoder b ≡ none)
      × (lib.decode b ≡ none)
  Refused r status id_required =
      (status ≡ 400) × (q : ScoreRequest fl.F) × HasRequest r q × (q.transaction_id ≡ "")
  Refused r status id_too_long =
      (status ≡ 400)
      × (q : ScoreRequest fl.F) × HasRequest r q
      × (max_transaction_id < lib.byte_length q.transaction_id)
  Refused r status features_required =
      (status ≡ 400) × (q : ScoreRequest fl.F) × HasRequest r q × (q.features ≡ none)
  Refused r status (bad_features e) =
      (status ≡ 400)
      × (q : ScoreRequest fl.F) × (fs : Features fl.F) × HasFeatures r q fs
      × (score_features fl sort service fs ≡ fail e)
  Refused r status scoring_failed = ⊥
  Refused r status serialize_failed = ⊥

  abbrev pub IsRefusal : Request Stream → Response → Type 0
  IsRefusal r a =
      (m : Message) × Refused r a.status m × (lib.marshal (error_response m) ≡ some a.body)

  -- A score between 0 and 1, for the transaction that was asked about.
  pub record IsServed (r : Request Stream) (a : Response) : Type 0 where
    pub query : ScoreRequest fl.F
    pub features : Features fl.F
    pub asked : HasFeatures r query features
    pub result : ScoreResult fl.F Time
    pub scored : score_features fl sort service features ≡ done result
    pub probability : IsProbability fl law result.score
    pub status : a.status ≡ 200
    pub sent :
        lib.marshal (score_response query.transaction_id result.score result.model_version)
        ≡ some a.body

  abbrev pub Answered : Request Stream → Option Response → Type 0
  Answered r none = ⊥
  Answered r (some a) = IsServed r a ⊎ IsRefusal r a

  refuse :
      (r : Request Stream) (status : ℕ) (m : Message)
      → Refused r status m
      → Answered r (some (write_error lib status m))
  unfolding write_json
  refuse r status m why = let (b, e) = json.message m in inr (rw e (m, why, e))

  serve :
      (r : Request Stream) (q : ScoreRequest fl.F) (fs : Features fl.F)
      (res : ScoreResult fl.F Time)
      → HasFeatures r q fs
      → score_features fl sort service fs ≡ done res
      → IsProbability fl law res.score
      → Answered r
          (some (write_json lib 200 (score_response q.transaction_id res.score res.model_version)))
  unfolding write_json
  serve r q fs res h at p =
      let (b, e) = json.score q.transaction_id res.score res.model_version p in
      rw e (
        inl (record {
          query = q;
          features = fs;
          asked = h;
          result = res;
          scored = at;
          probability = p;
          status = refl;
          sent = e;
        }))

  answer_lem :
      (r : Request Stream) (q : ScoreRequest fl.F) (fs : Features fl.F)
      (x : Result ServiceError (ScoreResult fl.F Time))
      → HasFeatures r q fs
      → score_features fl sort service fs ≡ x
      → Served fl Le sort sorts service valid fs x
      → Answered r (answer fl lib dec new_decoder sort service q x)
  answer_lem r q fs (done res) h at (xs, _, _, finite, same) =
      let z = logit fl service.model.intercept xs service.model.weights in
      serve r q fs res h at (
        subst (IsProbability fl law) (sym (ap (λ y. y.score) same))
          (sigmoid-IsProbability fl law z (finite-not_nan fl law z finite)))
  answer_lem r q fs (fail (bad_feature e)) h at s =
      refuse r 400 (bad_features (bad_feature e)) (refl, q, fs, h, at)
  answer_lem r q fs (fail too_large) h at s =
      refuse r 400 (bad_features too_large) (refl, q, fs, h, at)
  answer_lem r q fs (fail (internal e)) h at s = absurd s
  answer_lem r q fs panic h at s = absurd s

  with_features_lem :
      (r : Request Stream) (q : ScoreRequest fl.F) (v : Option (Features fl.F))
      → HasRequest r q
      → q.transaction_id ≢ ""
      → lib.byte_length q.transaction_id ≤ max_transaction_id
      → q.features ≡ v
      → Answered r (with_features fl lib dec new_decoder sort service q v)
  with_features_lem r q none h named short at = refuse r 400 features_required (refl, q, h, at)
  with_features_lem r q (some fs) h named short at =
      answer_lem r q fs (score_features fl sort service fs) (h, named, short, at) refl
        (score_features_lem fl Le sort sorts service valid fs)

  with_request_lem :
      (r : Request Stream) (b : List ℕ) (v : Option (ScoreRequest fl.F))
      → HasBody r b
      → validate_json dec new_decoder b ≡ none
      → lib.decode b ≡ v
      → Answered r (with_request fl lib dec new_decoder sort service v)
  with_request_lem r b none h checked at = refuse r 400 invalid_request (refl, b, h, checked, at)
  with_request_lem r b (some q) h checked at =
      let has : HasRequest r q = (b, h, checked, at) in
      elim (Bool-cases (str_eq q.transaction_id "")) [
        | inl unnamed ↦
            rw unnamed
              (refuse r 400 id_required (refl, q, has, (eq_iff q.transaction_id "").0 unnamed))
        | inr named ↦
            elim (Bool-cases (ltb max_transaction_id (lib.byte_length q.transaction_id))) [
              | inl long ↦
                  rw (named, long) (refuse r 400 id_too_long (refl, q, has, ground (arith, long)))
              | inr short ↦
                  rw (named, short)
                    (with_features_lem r q q.features has
                      (λ e. cc (named, (eq_iff q.transaction_id "").1 e)) (ground (arith, short))
                      refl)
            ]
      ]

  with_checked_lem :
      (r : Request Stream) (b : List ℕ) (v : Option BodyError)
      → HasBody r b
      → validate_json dec new_decoder b ≡ v
      → Answered r (with_checked fl lib dec new_decoder sort service b v)
  with_checked_lem r b (some e) h at = refuse r 400 (bad_body e) (refl, b, h, at)
  with_checked_lem r b none h at = with_request_lem r b (lib.decode b) h at refl

  with_body_lem :
      (r : Request Stream) (v : ReadOutcome)
      → require_json lib r ≡ true
      → lib.read_all max_request_body r.body ≡ v
      → Answered r (with_body fl lib dec new_decoder sort service v)
  with_body_lem r over_limit h at = refuse r 413 body_too_large (refl, h, at)
  with_body_lem r broken h at = refuse r 400 read_failed (refl, h, at)
  with_body_lem r (content b) h at =
      with_checked_lem r b (validate_json dec new_decoder b) (h, at) refl

  -- With a model that `validate` would accept, a sort that keeps the names and puts a least one, by
  -- an antisymmetric order, in front, the rounding of IEEE 754, and an encoder that refuses no
  -- error message and no number between 0 and 1: the score handler never panics and never answers
  -- with a server error. It answers 200 with the encoded score, between 0 and 1, and the
  -- transaction that was asked about, if the type is JSON, the body can be read within the limit,
  -- passes the check and is decoded, has an id of 1 to 128 bytes and features, and the service
  -- returns that score. Otherwise it answers 415, 413 or 400 with the encoded message of a test
  -- that fails: the type, the limit, the reading, the check of the body, the decoding, the id, the
  -- features, or the service's error.
  pub score_handler_lem :
      (r : Request Stream) → Answered r (score_handler fl lib dec new_decoder sort service r)
  unfolding score_handler
  score_handler_lem r = elim (Bool-cases (require_json lib r)) [
    | inr other ↦ rw other (refuse r 415 content_type_required (refl, other))
    | inl same ↦ rw same (with_body_lem r (lib.read_all max_request_body r.body) same refl)
  ]
