-- ===== src/HttpApi/Json/Ends.antt =====
-- The recursion of internal/httpapi/score.go over the tokens of a body ends.
use fraud_scoring_platform.HttpApi.Json.{
  consume_array, consume_object, consume_value, syntax, scalar, eof, token, delim, text,
  open_object, open_array, close_object, close_array, invalid_key, unknown_field, is_allowed,
  duplicate_field, eof, open_array, bad_syntax, open_object, is_seen, end_of_input, close_array,
  on_token, close_object, unexpected_delimiter, token, array_at_top, invalid_object, invalid_array,
  text, done, with_key, delim, close_array_with, close_object_with, TokenResult, and_then,
  out_of_fuel, start_value, Consume, fail, Consumed, Token, JsonError, IsDecoder, Decoder,
}
use fraud_scoring_platform.Prelude.{
  ◌∷◌, ◌+◌, [], ◌*◌, ℕ, false, true, zero, suc, not, ◌&&◌, inr, true, inl, Bool-cases, ◌≡◌, String,
  ◌<◌, ◌≢◌, List, Bool, arith, refl,
}

module _ (dec : Decoder) (law : IsDecoder dec) where
  open dec use {State, next_token, more}

  -- It does not run out of fuel, and takes at least one token if it succeeds.
  abbrev pub Ends : State → Consumed × State → Type 0
  Ends d r = (r.0 ≢ out_of_fuel) × (r.0 ≡ done → law.size r.1 < law.size d)

  Ends-fail : (d e : State) (err : JsonError) → Ends d (fail err, e)
  Ends-fail d e err = ((λ h. cc h), (λ h. cc h))

  Ends-on_token :
      (d : State) (k : Token → Consume dec) (p : TokenResult × State)
      → ((t : Token) → p.0 ≡ token t → Ends d (k t p.1))
      → Ends d (on_token dec k p)
  Ends-on_token d k (token t, e) h = h t refl
  Ends-on_token d k (eof, e) h = Ends-fail d e end_of_input
  Ends-on_token d k (syntax, e) h = Ends-fail d e bad_syntax

  Ends-weaken : (d e : State) (r : Consumed × State) → law.size e < law.size d → Ends e r → Ends d r
  Ends-weaken d e r lt (finite, falls) = (finite, λ h. let falls2 = falls h in omega arith)

  Ends-and_then :
      (d : State) (r : Consumed × State) (k : Consume dec)
      → Ends d r
      → ((d2 : State) → law.size d2 < law.size d → Ends d2 (k d2))
      → Ends d (and_then dec r k)
  Ends-and_then d (done, e) k i h = Ends-weaken d e (k e) (i.1 refl) (h e (i.1 refl))
  Ends-and_then d (fail err, e) k i h = i
  Ends-and_then d (out_of_fuel, e) k i h = i

  Ends-close_object :
      (d e : State) (t : Token) → law.size e < law.size d → Ends d (close_object_with dec t e)
  Ends-close_object d e (delim close_object) lt = ((λ h. cc h), λ _. lt)
  Ends-close_object d e (delim close_array) lt = Ends-fail d e invalid_object
  Ends-close_object d e (delim open_object) lt = Ends-fail d e invalid_object
  Ends-close_object d e (delim open_array) lt = Ends-fail d e invalid_object
  Ends-close_object d e (text x) lt = Ends-fail d e invalid_object
  Ends-close_object d e scalar lt = Ends-fail d e invalid_object

  Ends-close_array :
      (d e : State) (t : Token) → law.size e < law.size d → Ends d (close_array_with dec t e)
  Ends-close_array d e (delim close_array) lt = ((λ h. cc h), λ _. lt)
  Ends-close_array d e (delim close_object) lt = Ends-fail d e invalid_array
  Ends-close_array d e (delim open_object) lt = Ends-fail d e invalid_array
  Ends-close_array d e (delim open_array) lt = Ends-fail d e invalid_array
  Ends-close_array d e (text x) lt = Ends-fail d e invalid_array
  Ends-close_array d e scalar lt = Ends-fail d e invalid_array

  Ends-with_key :
      (top : Bool) (seen : List String) (k : String → Consume dec) (d e : State) (t : Token)
      → ((key : String) → Ends d (k key e))
      → Ends d (with_key dec top seen k t e)
  Ends-with_key top seen k d e (text key) h = elim (Bool-cases (is_seen seen key)) [
    | inl old ↦ rw old (Ends-fail d e (duplicate_field key))
    | inr new ↦ elim (Bool-cases (top && not (is_allowed key))) [
      | inl bad ↦ rw (new, bad) (Ends-fail d e (unknown_field key))
      | inr good ↦ rw (new, good) (h key)
    ]
  ]
  Ends-with_key top seen k d e (delim x) h = Ends-fail d e invalid_key
  Ends-with_key top seen k d e scalar h = Ends-fail d e invalid_key

  Ends-start_value :
      (top : Bool) (object array : Consume dec) (d e : State) (t : Token)
      → law.size e < law.size d
      → Ends e (object e)
      → Ends e (array e)
      → Ends d (start_value dec top object array t e)
  Ends-start_value top object array d e (delim open_object) lt o a = Ends-weaken d e (object e) lt o
  Ends-start_value true object array d e (delim open_array) lt o a = Ends-fail d e array_at_top
  Ends-start_value false object array d e (delim open_array) lt o a = Ends-weaken d e (array e) lt a
  Ends-start_value top object array d e (delim close_object) lt o a =
      Ends-fail d e unexpected_delimiter
  Ends-start_value top object array d e (delim close_array) lt o a =
      Ends-fail d e unexpected_delimiter
  Ends-start_value top object array d e (text x) lt o a = ((λ h. cc h), λ _. lt)
  Ends-start_value top object array d e scalar lt o a = ((λ h. cc h), λ _. lt)

  mutual
    unfolding consume_value consume_object consume_array

    pub consume_value-Ends :
        (f : ℕ) (top : Bool) (d : State) → 2 * law.size d < f → Ends d (consume_value dec f top d)
    consume_value-Ends zero top d h = absurd (omega (arith, h))
    consume_value-Ends (suc f) top d h =
        Ends-on_token d (start_value dec top (consume_object dec f top []) (consume_array dec f))
          (next_token d)
          (λ t e.
            let e1 = (next_token d).1 in
            let lt = law.falls d t e in
            Ends-start_value top (consume_object dec f top []) (consume_array dec f) d e1 t lt
              (consume_object-Ends f top [] e1 (omega (arith, h, lt)))
              (consume_array-Ends f e1 (omega (arith, h, lt))))

    consume_object-Ends :
        (f : ℕ) (top : Bool) (seen : List String) (d : State)
        → 2 * law.size d + 1 < f
        → Ends d (consume_object dec f top seen d)
    consume_object-Ends zero top seen d h = absurd (omega (arith, h))
    consume_object-Ends (suc f) top seen d h = elim (Bool-cases (more d)) [
      | inl going ↦ rw going (
          Ends-on_token d
            (with_key dec top seen (λ key d1.
              and_then dec (consume_value dec f false d1) (consume_object dec f top (key ∷ seen))))
            (next_token d)
            (λ t e.
              let e1 = (next_token d).1 in
              let lt = law.falls d t e in
              Ends-with_key top seen
                (λ key d1.
                  and_then dec (consume_value dec f false d1)
                    (consume_object dec f top (key ∷ seen)))
                d e1 t
                (λ key.
                  Ends-weaken d e1
                    (and_then dec (consume_value dec f false e1)
                      (consume_object dec f top (key ∷ seen)))
                    lt
                    (Ends-and_then e1 (consume_value dec f false e1)
                      (consume_object dec f top (key ∷ seen))
                      (consume_value-Ends f false e1 (omega (arith, h, lt)))
                      (λ d2 lt2.
                        consume_object-Ends f top (key ∷ seen) d2 (omega (arith, h, lt, lt2)))))))
      | inr ended ↦ rw ended (
          Ends-on_token d (close_object_with dec) (next_token d)
            (λ t e. Ends-close_object d (next_token d).1 t (law.falls d t e)))
    ]

    consume_array-Ends :
        (f : ℕ) (d : State) → 2 * law.size d + 1 < f → Ends d (consume_array dec f d)
    consume_array-Ends zero d h = absurd (omega (arith, h))
    consume_array-Ends (suc f) d h = elim (Bool-cases (more d)) [
      | inl going ↦ rw going (
          Ends-and_then d (consume_value dec f false d) (consume_array dec f)
            (consume_value-Ends f false d (omega (arith, h)))
            (λ d2 lt2. consume_array-Ends f d2 (omega (arith, h, lt2))))
      | inr ended ↦ rw ended (
          Ends-on_token d (close_array_with dec) (next_token d)
            (λ t e. Ends-close_array d (next_token d).1 t (law.falls d t e)))
    ]
