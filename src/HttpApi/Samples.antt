-- ===== src/HttpApi/Samples.antt =====
-- A decoder, a request and what a handler needs, for the tests.
use fraud_scoring_platform.Scoring.Samples.{small-IsFloat64, given, small}
use fraud_scoring_platform.HttpApi.Handler.Answer.{IsMarshal}
use fraud_scoring_platform.HttpApi.Handler.{content, over_limit, ScoreRequest, Request, Libraries}
use fraud_scoring_platform.HttpApi.Json.{
  is_close, Token, TokenResult, Decoder, IsDecoder, eof, token, delim, text, scalar, open_object,
  open_array, close_object, close_array,
}
use fraud_scoring_platform.Prelude.{
  ◌==◌, ap, ltb, false, [], ◌<◌, if◌then◌else◌, not, ◌≡◌, ◌∷◌, length, some, Bool, ℕ, List, arith,
  refl,
}

-- One byte is one token.
abbrev pub token_of : ℕ → Token
token_of b =
    if b == 123
    then delim open_object
    else if b == 125
    then delim close_object
    else if b == 91
    then delim open_array
    else if b == 93
    then delim close_array
    else if b == 102
    then text "features"
    else if b == 116
    then text "transaction_id"
    else if b == 97
    then text "age"
    else scalar

abbrev pub next_of : List ℕ → TokenResult × List ℕ
next_of [] = (eof, [])
next_of (b ∷ bs) = (token (token_of b), bs)

abbrev pub more_of : List ℕ → Bool
more_of [] = false
more_of (b ∷ bs) = not (is_close (token_of b))

abbrev pub bytewise : Decoder
bytewise = record { State = List ℕ; next_token = next_of; more = more_of }

pub next_of-falls :
    (bs : List ℕ) (t : Token) → (next_of bs).0 ≡ token t → length (next_of bs).1 < length bs
next_of-falls [] t h = cc h
next_of-falls (b ∷ bs) t h = omega arith

pub more_of_lem :
    (bs : List ℕ) (t : Token) → (next_of bs).0 ≡ token t → more_of bs ≡ not (is_close t)
more_of_lem [] t h = cc h
more_of_lem (b ∷ bs) t h = ap (λ r. elim r [ token t1 ↦ not (is_close t1) | _ ↦ false ]) h

abbrev pub bytewise-IsDecoder : IsDecoder bytewise
bytewise-IsDecoder = record { size = length; falls = next_of-falls; more_lem = more_of_lem }

-- {"transaction_id": 1, "features": {"age": 1}}
abbrev pub good_body : List ℕ
good_body = 123 ∷ 116 ∷ 49 ∷ 102 ∷ 123 ∷ 97 ∷ 49 ∷ 125 ∷ 125 ∷ []

abbrev pub asked : ScoreRequest ℕ
asked = record { transaction_id = "t1"; features = some given }

abbrev pub libraries : Libraries ℕ (List ℕ)
libraries = record {
  parse_media_type = λ s. some s;
  read_all = λ n b. if ltb n (length b) then over_limit else content b;
  decode = λ b. some asked;
  byte_length = λ s. 2;
  marshal = λ p. some (1 ∷ []);
}

pub libraries-IsMarshal : IsMarshal small small-IsFloat64 libraries.marshal
libraries-IsMarshal = record { message = λ m. (1 ∷ [], refl); score = λ id p v h. (1 ∷ [], refl) }

abbrev pub request : Request (List ℕ)
request = record { content_type = "application/json"; body = good_body }
