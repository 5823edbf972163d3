-- ===== src/HttpApi/Body/Faults.antt =====
-- What `validateJSONStructure` of internal/httpapi/score.go says of a body that holds one value.
use fraud_scoring_platform.HttpApi.Json.Blame.{Blamed}
use fraud_scoring_platform.HttpApi.Json.Judge.{Judged-value, Judged}
use fraud_scoring_platform.HttpApi.Body.{after_value, trim, invalid_json, validate_json, BodyError}
use fraud_scoring_platform.HttpApi.Body.Accepts.{
  validate_json-eq-value, trailing-eof, trim_iff, Holds, IsBlank,
}
use fraud_scoring_platform.HttpApi.Json.Tree.{Value}
use fraud_scoring_platform.HttpApi.Json.{
  consume_value, eof, Consumed, IsDecoder, Decoder, done, fail, out_of_fuel, duplicate_field,
  unknown_field, array_at_top, end_of_input, bad_syntax, unexpected_delimiter, invalid_key,
  invalid_object, invalid_array,
}
use fraud_scoring_platform.Prelude.{
  ◌∙◌, ◌+◌, ap, ◌*◌, inr, sym, subst, ==_iff, [], inl, none, true, ◌==◌, Bool-cases, some, ◌≡◌,
  Option, length, ◌≤◌, ℕ, List, arith,
}

module _ (dec : Decoder) (law : IsDecoder dec) (new_decoder : List ℕ → dec.State)
    (size_new : (body : List ℕ) → law.size (new_decoder body) ≤ length body) where
  -- Accepted, or refused with an error that is true of the value.
  abbrev pub AcceptsOrBlames : Value → Option BodyError → Type 0
  AcceptsOrBlames v none = Unit
  AcceptsOrBlames v (some (invalid_json err)) = Blamed true v err
  AcceptsOrBlames v (some _) = ⊥

  after_value_lem :
      (v : Value) (e : dec.State) (r : Consumed × dec.State)
      → (dec.next_token e).0 ≡ eof
      → Judged dec law (Blamed true v) [] e r
      → AcceptsOrBlames v (after_value dec new_decoder r)
  after_value_lem v e (done, d) at_end same =
      subst (AcceptsOrBlames v)
        (sym (
          trailing-eof dec law new_decoder size_new (dec.next_token d).0
            (ap (λ s. (dec.next_token s).0) same ∙ at_end)))
        tt
  after_value_lem v e (fail (duplicate_field k), d) at_end b = b
  after_value_lem v e (fail (unknown_field k), d) at_end b = b
  after_value_lem v e (fail array_at_top, d) at_end b = b
  after_value_lem v e (fail end_of_input, d) at_end b = absurd b
  after_value_lem v e (fail bad_syntax, d) at_end b = absurd b
  after_value_lem v e (fail unexpected_delimiter, d) at_end b = absurd b
  after_value_lem v e (fail invalid_key, d) at_end b = absurd b
  after_value_lem v e (fail invalid_object, d) at_end b = absurd b
  after_value_lem v e (fail invalid_array, d) at_end b = absurd b
  after_value_lem v e (out_of_fuel, d) at_end b = absurd b

  -- Over a decoder whose tokens take at least a byte each, whose More tells whether the next token
  -- closes something, and which begins with no more than the body's bytes left: a body that is not
  -- only white space and whose tokens are those of one value with nothing behind it is accepted or
  -- refused with an error that is true of the value. A duplicate field is a key that some object in
  -- it, however deep, has twice; an unknown field is a key of the value itself, an object, and
  -- neither transaction_id nor features; and the third is that the value is an array. No other
  -- error occurs.
  pub validate_json_lem :
      (body : List ℕ) (v : Value)
      → ¬ IsBlank body
      → Holds dec law new_decoder size_new body v
      → AcceptsOrBlames v (validate_json dec new_decoder body)
  validate_json_lem body v solid (e, y, at_end) = elim (Bool-cases (length (trim body) == 0)) [
    | inl blank ↦ absurd (solid ((trim_iff body).0 ((==_iff (length (trim body)) 0).0 blank)))
    | inr full ↦
        let fuel = 2 * length body + 1 in
        let start = new_decoder body in
        subst (AcceptsOrBlames v)
          (sym (validate_json-eq-value dec law new_decoder size_new body full))
          (after_value_lem v e (consume_value dec fuel true start) at_end
            (Judged-value dec law fuel true v start e [] (omega (arith, size_new body)) y))
  ]
