-- ===== src/HttpApi/Json/Steps.antt =====
-- The steps of the pass over the tokens in internal/httpapi/score.go, one by one.
use fraud_scoring_platform.HttpApi.Json.Fresh.{Passes}
use fraud_scoring_platform.HttpApi.Json.{
  consume_array, consume_object, consume_value, is_allowed, is_seen, fail, on_token, done, and_then,
  with_key, TokenResult, close_object_with, Consume, close_array_with, Consumed, Token, Decoder,
  syntax, scalar, eof, token, delim, text, open_object, open_array, close_object, close_array,
  out_of_fuel,
}
use fraud_scoring_platform.Prelude.{
  ℕ, not, ◌&&◌, inr, inl, Bool-cases, ◌∷◌, ◌≡◌, String, List, Bool, false, true, suc, arith, refl,
}

module _ (dec : Decoder) where
  open dec use {State, next_token, more}

  pub on_token-inv :
      (k : Token → Consume dec) (p : TokenResult × State) (e : State)
      → on_token dec k p ≡ (done, e)
      → (t : Token) × (p.0 ≡ token t) × (k t p.1 ≡ (done, e))
  on_token-inv k (token t, d) e h = (t, refl, h)
  on_token-inv k (eof, d) e h = cc h
  on_token-inv k (syntax, d) e h = cc h

  pub and_then-inv :
      (r : Consumed × State) (k : Consume dec) (e : State)
      → and_then dec r k ≡ (done, e)
      → (d : State) × (r ≡ (done, d)) × (k d ≡ (done, e))
  and_then-inv (done, d) k e h = (d, refl, h)
  and_then-inv (fail err, d) k e h = cc h
  and_then-inv (out_of_fuel, d) k e h = cc h

  pub close_object-inv :
      (t : Token) (d e : State)
      → close_object_with dec t d ≡ (done, e)
      → (t ≡ delim close_object) × (d ≡ e)
  close_object-inv (delim close_object) d e h = (refl, cc h)
  close_object-inv (delim close_array) d e h = cc h
  close_object-inv (delim open_object) d e h = cc h
  close_object-inv (delim open_array) d e h = cc h
  close_object-inv (text x) d e h = cc h
  close_object-inv scalar d e h = cc h

  pub close_array-inv :
      (t : Token) (d e : State)
      → close_array_with dec t d ≡ (done, e)
      → (t ≡ delim close_array) × (d ≡ e)
  close_array-inv (delim close_array) d e h = (refl, cc h)
  close_array-inv (delim close_object) d e h = cc h
  close_array-inv (delim open_object) d e h = cc h
  close_array-inv (delim open_array) d e h = cc h
  close_array-inv (text x) d e h = cc h
  close_array-inv scalar d e h = cc h

  pub with_key-inv :
      (top : Bool) (seen : List String) (k : String → Consume dec) (t : Token) (d e : State)
      → with_key dec top seen k t d ≡ (done, e)
      → (key : String) × (t ≡ text key) × Passes top seen key × (k key d ≡ (done, e))
  with_key-inv top seen k (text key) d e h = elim (Bool-cases (is_seen seen key)) [
    | inl old ↦ ground (arith, old, h)
    | inr new ↦ elim (Bool-cases (top && not (is_allowed key))) [
      | inl bad ↦ ground (arith, new, bad, h)
      | inr good ↦
          (key, refl, record { unseen = new; allowed = good }, ground (arith, new, good, h))
    ]
  ]
  with_key-inv top seen k (delim x) d e h = cc h
  with_key-inv top seen k scalar d e h = cc h

  -- What is done with the value of a key, and then.
  abbrev pub keyed : ℕ → Bool → List String → String → Consume dec
  keyed f top seen key d1 =
      and_then dec (consume_value dec f false d1) (consume_object dec f top (key ∷ seen))

  pub consume_object-eq-key :
      (f : ℕ) (top : Bool) (seen : List String) (d : State)
      → more d ≡ true
      → consume_object dec (suc f) top seen d
        ≡ on_token dec (with_key dec top seen (keyed f top seen)) (next_token d)
  unfolding consume_object
  consume_object-eq-key f top seen d h = rw h refl

  pub consume_object-eq-close :
      (f : ℕ) (top : Bool) (seen : List String) (d : State)
      → more d ≡ false
      → consume_object dec (suc f) top seen d ≡ on_token dec (close_object_with dec) (next_token d)
  unfolding consume_object
  consume_object-eq-close f top seen d h = rw h refl

  pub consume_array-eq-item :
      (f : ℕ) (d : State)
      → more d ≡ true
      → consume_array dec (suc f) d
        ≡ and_then dec (consume_value dec f false d) (consume_array dec f)
  unfolding consume_array
  consume_array-eq-item f d h = rw h refl

  pub consume_array-eq-close :
      (f : ℕ) (d : State)
      → more d ≡ false
      → consume_array dec (suc f) d ≡ on_token dec (close_array_with dec) (next_token d)
  unfolding consume_array
  consume_array-eq-close f d h = rw h refl
