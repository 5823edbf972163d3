-- ===== src/HttpApi/Json.antt =====
-- `consumeJSONValue`, `consumeJSONObject`, and `consumeJSONArray` of internal/httpapi/score.go. The decoder of encoding/json is a parameter.
pub mod Ends
pub mod Tree
pub mod Fresh
pub mod Steps
pub mod Sound
pub mod Complete
pub mod Blame
pub mod Judge
use fraud_scoring_platform.Prelude.{
  ℕ, zero, suc, String, Bool, true, false, not, ◌&&◌, ◌||◌, List, [], ◌∷◌, str_eq, if◌then◌else◌,
  ◌≡◌, ◌<◌,
}

pub data Delim : Type 0 where
  open_object close_object open_array close_array : Delim

-- Numbers, booleans and null are `scalar`.
pub data Token : Type 0 where
  delim : Delim → Token
  text : String → Token
  scalar : Token

-- eof is io.EOF, syntax any other error.
pub data TokenResult : Type 0 where
  token : Token → TokenResult
  eof syntax : TokenResult

pub record Decoder : Type 1 where
  pub State : Type 0
  pub next_token : State → TokenResult × State
  pub more : State → Bool

abbrev pub is_close : Token → Bool
is_close (delim close_object) = true
is_close (delim close_array) = true
is_close _ = false

-- A token takes at least one byte of what is left, and More tells whether the token that comes next
-- closes the object or array.
pub record IsDecoder (dec : Decoder) : Type 0 where
  pub size : dec.State → ℕ
  pub falls :
      (d : dec.State) (t : Token)
      → (dec.next_token d).0 ≡ token t
      → size (dec.next_token d).1 < size d
  pub more_lem :
      (d : dec.State) (t : Token) → (dec.next_token d).0 ≡ token t → dec.more d ≡ not (is_close t)

pub data JsonError : Type 0 where
  end_of_input bad_syntax : JsonError
  array_at_top unexpected_delimiter invalid_key invalid_object invalid_array : JsonError
  duplicate_field unknown_field : (key : String) → JsonError

pub data Consumed : Type 0 where
  done : Consumed
  fail : JsonError → Consumed
  out_of_fuel : Consumed

abbrev pub is_allowed : String → Bool
is_allowed key = str_eq key "transaction_id" || str_eq key "features"

-- `_, exists := seen[key]`
abbrev pub is_seen : List String → String → Bool
is_seen [] key = false
is_seen (k ∷ ks) key = str_eq k key || is_seen ks key

module _ (dec : Decoder) where
  open dec use {State, next_token, more}

  abbrev pub Consume : Type 0
  Consume = State → Consumed × State

  -- What follows if nothing has failed.
  abbrev pub and_then : Consumed × State → Consume → Consumed × State
  and_then (done, d) k = k d
  and_then (fail e, d) k = (fail e, d)
  and_then (out_of_fuel, d) k = (out_of_fuel, d)

  -- What is done with a token, if there is one.
  abbrev pub on_token : (Token → Consume) → TokenResult × State → Consumed × State
  on_token k (token t, d) = k t d
  on_token k (eof, d) = (fail end_of_input, d)
  on_token k (syntax, d) = (fail bad_syntax, d)

  abbrev pub with_token : (Token → Consume) → Consume
  with_token k d = on_token k (next_token d)

  abbrev pub close_object_with : Token → Consume
  close_object_with (delim close_object) d = (done, d)
  close_object_with _ d = (fail invalid_object, d)

  abbrev pub close_array_with : Token → Consume
  close_array_with (delim close_array) d = (done, d)
  close_array_with _ d = (fail invalid_array, d)

  -- The checks of a key; what is left is the value and the rest of the object.
  abbrev pub with_key : Bool → List String → (String → Consume) → Token → Consume
  with_key top seen k (text key) d =
      if is_seen seen key
      then (fail (duplicate_field key), d)
      else if top && not (is_allowed key)
      then (fail (unknown_field key), d)
      else k key d
  with_key top seen k _ d = (fail invalid_key, d)

  abbrev pub start_value : Bool → Consume → Consume → Token → Consume
  start_value top object array (delim open_object) d = object d
  start_value top object array (delim open_array) d =
      if top then (fail array_at_top, d) else array d
  start_value top object array (delim _) d = (fail unexpected_delimiter, d)
  start_value top object array _ d = (done, d)

  -- Each loop is a recursion; the fuel bounds the depth of the calls.
  unfoldable mutual
    pub consume_value : ℕ → Bool → Consume
    consume_value zero top d = (out_of_fuel, d)
    consume_value (suc f) top d =
        with_token (start_value top (consume_object f top []) (consume_array f)) d

    pub consume_object : ℕ → Bool → List String → Consume
    consume_object zero top seen d = (out_of_fuel, d)
    consume_object (suc f) top seen d = elim (more d) [
      | true ↦
          with_token
            (with_key top seen
              (λ key d1. and_then (consume_value f false d1) (consume_object f top (key ∷ seen))))
            d
      | false ↦ with_token close_object_with d
    ]

    pub consume_array : ℕ → Consume
    consume_array zero d = (out_of_fuel, d)
    consume_array (suc f) d = elim (more d) [
      | true ↦ and_then (consume_value f false d) (consume_array f)
      | false ↦ with_token close_array_with d
    ]
