-- ===== src/HttpApi/Body.antt =====
-- `validateJSONStructure` of internal/httpapi/score.go. A body is a list of bytes.
pub mod Accepts
pub mod Faults
use fraud_scoring_platform.HttpApi.Json.{
  syntax, out_of_fuel, end_of_input, consume_value, done, eof, token, fail, Consumed, TokenResult,
  JsonError, Decoder,
}
use fraud_scoring_platform.Prelude.{
  true, ◌+◌, ◌*◌, some, ◌||◌, none, ◌==◌, length, Option, Bool, if◌then◌else◌, [], ◌∷◌, ℕ, List,
  arith, refl,
}

-- Space, tab, carriage return and newline.
abbrev pub is_space : ℕ → Bool
is_space b = b == 32 || b == 9 || b == 13 || b == 10

unfoldable pub trim_left : List ℕ → List ℕ
trim_left [] = []
trim_left (b ∷ bs) = let rest = trim_left bs in if is_space b then rest else b ∷ bs

abbrev pub drop_last : ℕ → List ℕ → List ℕ
drop_last b [] = if is_space b then [] else b ∷ []
drop_last b (c ∷ cs) = b ∷ c ∷ cs

unfoldable pub trim_right : List ℕ → List ℕ
trim_right [] = []
trim_right (b ∷ bs) = drop_last b (trim_right bs)

-- bytes.Trim
abbrev pub trim : List ℕ → List ℕ
trim bs = trim_right (trim_left bs)

pub data BodyError : Type 0 where
  empty_body unexpected_end several_values invalid_trailing : BodyError
  invalid_json : JsonError → BodyError
  no_fuel : BodyError

module _ (dec : Decoder) (new_decoder : List ℕ → dec.State) where
  -- What is left must be nothing.
  abbrev pub trailing : TokenResult → Option BodyError
  trailing eof = none
  trailing (token t) = some several_values
  trailing syntax = some invalid_trailing

  abbrev pub after_value : Consumed × dec.State → Option BodyError
  after_value (done, d) = trailing (dec.next_token d).0
  after_value (fail end_of_input, d) = some unexpected_end
  after_value (fail e, d) = some (invalid_json e)
  after_value (out_of_fuel, d) = some no_fuel

  -- none is the nil error. A token takes a byte, so the fuel is enough.
  unfoldable pub validate_json : List ℕ → Option BodyError
  validate_json body =
      if length (trim body) == 0
      then some empty_body
      else after_value (consume_value dec (2 * length body + 1) true (new_decoder body))
