-- ===== src/HttpApi/Body/Accepts.antt =====
-- Which bodies `validateJSONStructure` of internal/httpapi/score.go accepts.
use fraud_scoring_platform.HttpApi.Json.Ends.{consume_value-Ends}
use fraud_scoring_platform.HttpApi.Json.Complete.{Passed-value}
use fraud_scoring_platform.HttpApi.Json.Tree.{IsRequest, IsClean, tokens, Yields, Value}
use fraud_scoring_platform.HttpApi.Body.{
  no_fuel, empty_body, after_value, trailing, drop_last, validate_json, trim, is_space, trim_right,
  trim_left,
}
use fraud_scoring_platform.HttpApi.Json.Sound.{value-inv}
use fraud_scoring_platform.HttpApi.Json.{
  consume_value, TokenResult, Consumed, IsDecoder, Decoder, done, fail, out_of_fuel, eof, token,
  syntax, end_of_input, bad_syntax, array_at_top, invalid_key, unexpected_delimiter, invalid_object,
  invalid_array, duplicate_field, unknown_field,
}
use fraud_scoring_platform.Prelude.{
  some, sym, ◌∙◌, ap, ==_iff, ◌==◌, ◌+◌, ◌*◌, subst, inr, Bool-cases, ◌≢◌, none, inl, ◌↔◌, true,
  ◌∷◌, ◌≤◌, [], false, All, length, ◌≡◌, ◌⊎◌, List, ℕ, arith, refl,
}

abbrev pub IsBlank : List ℕ → Type 0
IsBlank bs = All (λ b. is_space b ≡ true) bs

drop_last-length : (b : ℕ) (r : List ℕ) → is_space b ≡ false → length (drop_last b r) ≢ 0
drop_last-length b [] h = ground (arith, h)
drop_last-length b (c ∷ cs) h = omega arith

trim_left-IsBlank : (bs : List ℕ) → IsBlank bs → trim_left bs ≡ []
unfolding trim_left
trim_left-IsBlank [] h = refl
trim_left-IsBlank (b ∷ bs) h = rw h.0 (trim_left-IsBlank bs h.1)

trim_left_lem :
    (bs : List ℕ)
    → IsBlank bs ⊎ ((b : ℕ) × (cs : List ℕ) × (trim_left bs ≡ b ∷ cs) × (is_space b ≡ false))
unfolding trim_left
trim_left_lem [] = inl tt
trim_left_lem (b ∷ bs) = elim (Bool-cases (is_space b)) [
  | inr solid ↦ inr (b, bs, rw solid refl, solid)
  | inl blank ↦ elim (trim_left_lem bs) [
    | inl all ↦ inl (blank, all)
    | inr (c, cs, e, solid) ↦ inr (c, cs, rw blank e, solid)
  ]
]

pub trim_iff : (bs : List ℕ) → (length (trim bs) ≡ 0) ↔ IsBlank bs
unfolding trim_right
trim_iff bs = (
  λ h. elim (trim_left_lem bs) [
    | inl all ↦ all
    | inr (b, cs, e, solid) ↦
        absurd
          (drop_last-length b (trim_right cs) solid (subst (λ x. length (trim_right x) ≡ 0) e h))
  ],
  λ all. rw (trim_left-IsBlank bs all) refl,
)

module _ (dec : Decoder) (law : IsDecoder dec) (new_decoder : List ℕ → dec.State)
    (size_new : (body : List ℕ) → law.size (new_decoder body) ≤ length body) where
  -- The body is the tokens of one value, with nothing behind it.
  abbrev pub Holds : List ℕ → Value → Type 0
  Holds body v =
      (e : dec.State) × Yields dec (new_decoder body) (tokens v []) e × ((dec.next_token e).0 ≡ eof)

  trailing-none : (r : TokenResult) → trailing dec new_decoder r ≡ none → r ≡ eof
  trailing-none eof h = refl
  trailing-none syntax h = cc h
  trailing-none (token t) h = cc h

  pub trailing-eof : (r : TokenResult) → r ≡ eof → trailing dec new_decoder r ≡ none
  trailing-eof eof h = refl
  trailing-eof syntax h = cc h
  trailing-eof (token t) h = cc h

  trailing-ends : (r : TokenResult) → trailing dec new_decoder r ≢ some no_fuel
  trailing-ends eof h = cc h
  trailing-ends syntax h = cc h
  trailing-ends (token t) h = cc h

  after_value-none :
      (r : Consumed × dec.State)
      → after_value dec new_decoder r ≡ none
      → (e : dec.State) × (r ≡ (done, e)) × ((dec.next_token e).0 ≡ eof)
  after_value-none (done, d) h = (d, refl, trailing-none (dec.next_token d).0 h)
  after_value-none (fail end_of_input, d) h = cc h
  after_value-none (fail bad_syntax, d) h = cc h
  after_value-none (fail array_at_top, d) h = cc h
  after_value-none (fail unexpected_delimiter, d) h = cc h
  after_value-none (fail invalid_key, d) h = cc h
  after_value-none (fail invalid_object, d) h = cc h
  after_value-none (fail invalid_array, d) h = cc h
  after_value-none (fail (duplicate_field k), d) h = cc h
  after_value-none (fail (unknown_field k), d) h = cc h
  after_value-none (out_of_fuel, d) h = cc h

  validate_json-eq-empty :
      (body : List ℕ)
      → (length (trim body) == 0) ≡ true
      → validate_json dec new_decoder body ≡ some empty_body
  unfolding validate_json
  validate_json-eq-empty body h = rw h refl

  pub validate_json-eq-value :
      (body : List ℕ)
      → (length (trim body) == 0) ≡ false
      → validate_json dec new_decoder body
        ≡ after_value dec new_decoder
            (consume_value dec (2 * length body + 1) true (new_decoder body))
  unfolding validate_json
  validate_json-eq-value body h = rw h refl

  -- Over a decoder whose tokens take at least a byte each, whose More tells whether the next token
  -- closes something, and which begins with no more than the body's bytes left:
  -- `validateJSONStructure` accepts a body exactly if it is not only white space, and its tokens
  -- are those of one JSON value with nothing behind it, in which no object, however deep, has a key
  -- twice, and which is not an array and, if it is an object, has no keys other than transaction_id
  -- and features.
  pub validate_json_iff :
      (body : List ℕ)
      → (validate_json dec new_decoder body ≡ none)
        ↔ ((¬ IsBlank body) × (v : Value) × Holds body v × IsClean v × IsRequest v)
  validate_json_iff body =
      let fuel = 2 * length body + 1 in
      let start = new_decoder body in
      elim (Bool-cases (length (trim body) == 0)) [
        | inl blank ↦ (
          λ h. cc (validate_json-eq-empty body blank, h),
          λ h. absurd (h.0 ((trim_iff body).0 ((==_iff (length (trim body)) 0).0 blank))),
        )
        | inr solid ↦ (
          λ h.
              let (e, run, at_end) =
                after_value-none (consume_value dec fuel true start)
                  (sym (validate_json-eq-value body solid) ∙ h) in
              let (v, clean, request, spells) = value-inv dec fuel true start e run in
              (
                (λ all. cc (solid, (==_iff (length (trim body)) 0).1 ((trim_iff body).1 all))),
                v,
                (e, spells [] e refl, at_end),
                clean,
                request refl,
              ),
          λ (_, v, (e, y, at_end), clean, request).
              let (e2, run, same) =
                Passed-value dec law fuel true v start e [] (omega (arith, size_new body)) clean
                  (λ _. request) y in
              validate_json-eq-value body solid
              ∙ ap (after_value dec new_decoder) run
              ∙ (trailing-eof (dec.next_token e2).0 (ap (λ d. (dec.next_token d).0) same ∙ at_end)),
        )
      ]

  after_value-ends :
      (r : Consumed × dec.State) → r.0 ≢ out_of_fuel → after_value dec new_decoder r ≢ some no_fuel
  after_value-ends (done, d) h e = trailing-ends (dec.next_token d).0 e
  after_value-ends (fail end_of_input, d) h e = cc e
  after_value-ends (fail bad_syntax, d) h e = cc e
  after_value-ends (fail array_at_top, d) h e = cc e
  after_value-ends (fail unexpected_delimiter, d) h e = cc e
  after_value-ends (fail invalid_key, d) h e = cc e
  after_value-ends (fail invalid_object, d) h e = cc e
  after_value-ends (fail invalid_array, d) h e = cc e
  after_value-ends (fail (duplicate_field k), d) h e = cc e
  after_value-ends (fail (unknown_field k), d) h e = cc e
  after_value-ends (out_of_fuel, d) h e = h refl

  -- Over a decoder whose tokens take at least a byte each, whose More tells whether the next token
  -- closes something, and which begins with no more than the body's bytes left: the mutual
  -- recursion of `consumeJSONValue`, `consumeJSONObject` and `consumeJSONArray` ends on every body.
  -- Twice its length and one more calls deep are enough.
  pub validate_json-ends : (body : List ℕ) → validate_json dec new_decoder body ≢ some no_fuel
  validate_json-ends body h = elim (Bool-cases (length (trim body) == 0)) [
    | inl blank ↦ cc (validate_json-eq-empty body blank, h)
    | inr solid ↦
        after_value-ends (consume_value dec (2 * length body + 1) true (new_decoder body))
          (consume_value-Ends dec law (2 * length body + 1) true (new_decoder body)
            (omega (arith, size_new body))).0
          (sym (validate_json-eq-value body solid) ∙ h)
  ]
