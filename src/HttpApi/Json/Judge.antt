-- ===== src/HttpApi/Json/Judge.antt =====
-- The pass over the tokens of a value in internal/httpapi/score.go goes past them or names a fault.
use fraud_scoring_platform.HttpApi.Json.Steps.{
  consume_array-eq-item, consume_array-eq-close, keyed, consume_object-eq-key,
  consume_object-eq-close,
}
use fraud_scoring_platform.HttpApi.Json.Complete.{more_value, on_token-at}
use fraud_scoring_platform.HttpApi.Json.Fresh.{is_allowed_iff, is_seen_iff}
use fraud_scoring_platform.HttpApi.Json.Ends.{consume_value-Ends, Ends}
use fraud_scoring_platform.HttpApi.Json.Blame.{
  BlamedItems-rest, BlamedItems-value, BlamedFields-rest, BlamedFields-value, BlamedFields-object,
  BlamedItems-array, Blamed, BlamedFields, BlamedItems,
}
use fraud_scoring_platform.HttpApi.Json.Tree.{
  item_tokens, field_tokens, Yields, Fields, Value, Items, tokens, nil, end, array, object, field,
  cons, plain, quoted,
}
use fraud_scoring_platform.HttpApi.Json.{
  close_array_with, close_object_with, is_allowed, is_seen, consume_array, with_key, and_then,
  start_value, consume_object, Consume, Token, Consumed, consume_value, JsonError, IsDecoder,
  Decoder, done, fail, scalar, token, delim, text, open_object, open_array, close_object,
  close_array, out_of_fuel,
}
use fraud_scoring_platform.Prelude.{
  ◌∙◌, not, ◌∷◌, ◌&&◌, inr, sym, ◌+◌, inl, subst, [], Bool-cases, ◌<◌, ◌≡◌, ◌*◌, String, ℕ, List,
  Bool, false, true, zero, suc, arith, refl,
}

module _ (dec : Decoder) (law : IsDecoder dec) where
  open dec use {State, next_token, more}

  -- Past the tokens before `rest`, or with an error that has the property.
  abbrev pub Judged : (JsonError → Type 0) → List Token → State → Consumed × State → Type 0
  Judged B rest m (done, e) = Yields dec e rest m
  Judged B rest m (fail err, e) = B err
  Judged B rest m (out_of_fuel, e) = ⊥

  Judged-map :
      (B C : JsonError → Type 0) (rest : List Token) (m : State) (r : Consumed × State)
      → ((err : JsonError) → B err → C err)
      → Judged B rest m r
      → Judged C rest m r
  Judged-map B C rest m (done, e) f j = j
  Judged-map B C rest m (fail err, e) f j = f err j
  Judged-map B C rest m (out_of_fuel, e) f j = j

  Judged-and_then :
      (B C : JsonError → Type 0) (r : Consumed × State) (k : Consume dec) (d m : State)
      (ts rest : List Token)
      → Ends dec law d r
      → Judged B ts m r
      → ((err : JsonError) → B err → C err)
      → ((e : State) → law.size e < law.size d → Yields dec e ts m → Judged C rest m (k e))
      → Judged C rest m (and_then dec r k)
  Judged-and_then B C (done, e) k d m ts rest ends j f next = next e (ends.1 refl) j
  Judged-and_then B C (fail err, e) k d m ts rest ends j f next = f err j
  Judged-and_then B C (out_of_fuel, e) k d m ts rest ends j f next = j

  Judged-array :
      (top : Bool) (xs : Items) (members items : Consume dec) (d m : State) (rest : List Token)
      → Judged (BlamedItems xs) rest m (items d)
      → Judged
          (Blamed top (array xs))
          rest
          m
          (start_value dec top members items (delim open_array) d)
  Judged-array true xs members items d m rest j = (refl, xs, refl)
  Judged-array false xs members items d m rest j =
      Judged-map (BlamedItems xs) (Blamed false (array xs)) rest m (items d)
        (BlamedItems-array false xs) j

  Judged-with_key :
      (top : Bool) (seen : List String) (k : String) (v : Value) (fs : Fields)
      (next : String → Consume dec) (d m : State) (rest : List Token)
      → Judged (BlamedFields top seen (field k v fs)) rest m (next k d)
      → Judged (BlamedFields top seen (field k v fs)) rest m (with_key dec top seen next (text k) d)
  Judged-with_key top seen k v fs next d m rest j = elim (Bool-cases (is_seen seen k)) [
    | inl old ↦ rw old (inl ((is_seen_iff seen k).0 old, inl refl))
    | inr new ↦ elim (Bool-cases (top && not (is_allowed k))) [
      | inl bad ↦
          rw (new, bad)
            (ground (arith, bad), inl refl, λ h. ground (arith, bad, (is_allowed_iff k).1 h))
      | inr good ↦ rw (new, good) j
    ]
  ]

  Judged-first :
      (f : ℕ) (top : Bool) (v : Value) (d m : State) (t : Token) (rest : List Token)
      → (next_token d).0 ≡ token t
      → Judged (Blamed top v) rest m (
          start_value dec top
            (consume_object dec f top [])
            (consume_array dec f)
            t
            (next_token d).1)
      → Judged (Blamed top v) rest m (consume_value dec (suc f) top d)
  unfolding consume_value
  Judged-first f top v d m t rest at j =
      subst (Judged (Blamed top v) rest m)
        (sym (
          on_token-at dec law
            (start_value dec top (consume_object dec f top []) (consume_array dec f)) (next_token d)
            t at))
        j

  mutual
    unfolding tokens

    pub Judged-value :
        (f : ℕ) (top : Bool) (v : Value) (d m : State) (rest : List Token)
        → 2 * law.size d < f
        → Yields dec d (tokens v rest) m
        → Judged (Blamed top v) rest m (consume_value dec f top d)
    Judged-value zero top v d m rest h y = absurd (omega (arith, h))
    Judged-value (suc f) top plain d m rest h y = Judged-first f top plain d m scalar rest y.0 y.1
    Judged-value (suc f) top (quoted s) d m rest h y =
        Judged-first f top (quoted s) d m (text s) rest y.0 y.1
    Judged-value (suc f) top (array xs) d m rest h y =
        let lt = law.falls d (delim open_array) y.0 in
        let d1 = (next_token d).1 in
        Judged-first f top (array xs) d m (delim open_array) rest y.0 (
          Judged-array top xs (consume_object dec f top []) (consume_array dec f) d1 m rest
            (Judged-items f xs d1 m rest (omega (arith, h, lt)) y.1))
    Judged-value (suc f) top (object fs) d m rest h y =
        let lt = law.falls d (delim open_object) y.0 in
        let d1 = (next_token d).1 in
        Judged-first f top (object fs) d m (delim open_object) rest y.0 (
          Judged-map (BlamedFields top [] fs) (Blamed top (object fs)) rest m
            (consume_object dec f top [] d1) (BlamedFields-object top fs)
            (Judged-fields f top [] fs d1 m rest (omega (arith, h, lt)) y.1))

    Judged-fields :
        (f : ℕ) (top : Bool) (seen : List String) (fs : Fields) (d m : State) (rest : List Token)
        → 2 * law.size d + 1 < f
        → Yields dec d (field_tokens fs (delim close_object ∷ rest)) m
        → Judged (BlamedFields top seen fs) rest m (consume_object dec f top seen d)
    Judged-fields zero top seen fs d m rest h y = absurd (omega (arith, h))
    Judged-fields (suc f) top seen end d m rest h y =
        subst (Judged (BlamedFields top seen end) rest m)
          (sym (
            consume_object-eq-close dec f top seen d (law.more_lem d (delim close_object) y.0)
            ∙ on_token-at dec law (close_object_with dec) (next_token d) (delim close_object) y.0))
          y.1
    Judged-fields (suc f) top seen (field k v fs) d m rest h y =
        let lt = law.falls d (text k) y.0 in
        let d1 = (next_token d).1 in
        let left = field_tokens fs (delim close_object ∷ rest) in
        let B = BlamedFields top seen (field k v fs) in
        subst (Judged B rest m)
          (sym (
            consume_object-eq-key dec f top seen d (law.more_lem d (text k) y.0)
            ∙ on_token-at dec law (with_key dec top seen (keyed dec f top seen)) (next_token d)
                (text k) y.0))
          (Judged-with_key top seen k v fs (keyed dec f top seen) d1 m rest (
            Judged-and_then (Blamed false v) B (consume_value dec f false d1)
              (consume_object dec f top (k ∷ seen)) d1 m left rest
              (consume_value-Ends dec law f false d1 (omega (arith, h, lt)))
              (Judged-value f false v d1 m left (omega (arith, h, lt)) y.1)
              (BlamedFields-value top seen k v fs)
              (λ d2 lt2 y2.
                Judged-map (BlamedFields top (k ∷ seen) fs) B rest m
                  (consume_object dec f top (k ∷ seen) d2) (BlamedFields-rest top seen k v fs)
                  (Judged-fields f top (k ∷ seen) fs d2 m rest (omega (arith, h, lt, lt2)) y2))))

    Judged-items :
        (f : ℕ) (xs : Items) (d m : State) (rest : List Token)
        → 2 * law.size d + 1 < f
        → Yields dec d (item_tokens xs (delim close_array ∷ rest)) m
        → Judged (BlamedItems xs) rest m (consume_array dec f d)
    Judged-items zero xs d m rest h y = absurd (omega (arith, h))
    Judged-items (suc f) nil d m rest h y =
        subst (Judged (BlamedItems nil) rest m)
          (sym (
            consume_array-eq-close dec f d (law.more_lem d (delim close_array) y.0)
            ∙ on_token-at dec law (close_array_with dec) (next_token d) (delim close_array) y.0))
          y.1
    Judged-items (suc f) (cons x xs) d m rest h y =
        let left = item_tokens xs (delim close_array ∷ rest) in
        let B = BlamedItems (cons x xs) in
        subst (Judged B rest m)
          (sym (consume_array-eq-item dec f d (more_value dec law x d m left y)))
          (Judged-and_then (Blamed false x) B (consume_value dec f false d) (consume_array dec f) d
            m left rest (consume_value-Ends dec law f false d (omega (arith, h)))
            (Judged-value f false x d m left (omega (arith, h)) y) (BlamedItems-value x xs)
            (λ d2 lt2 y2.
              Judged-map (BlamedItems xs) B rest m (consume_array dec f d2) (BlamedItems-rest x xs)
                (Judged-items f xs d2 m rest (omega (arith, h, lt2)) y2)))
