-- ===== src/HttpApi/Json/Complete.antt =====
-- The tokens of every value without repeated keys are accepted by internal/httpapi/score.go.
use fraud_scoring_platform.HttpApi.Json.Ends.{consume_value-Ends, Ends}
use fraud_scoring_platform.HttpApi.Json.Steps.{
  consume_array-eq-item, keyed, consume_object-eq-key, consume_array-eq-close,
  consume_object-eq-close,
}
use fraud_scoring_platform.HttpApi.Json.Fresh.{Passes-first, Fresh-rest, Fresh, Passes}
use fraud_scoring_platform.HttpApi.Json.Tree.{
  item_tokens, AreClean, Items, field_tokens, Fields, IsRequest, IsClean, Yields, Value, tokens,
  nil, end, array, object, field, cons, plain, quoted,
}
use fraud_scoring_platform.HttpApi.Json.{
  and_then, start_value, syntax, eof, close_array_with, consume_array, close_object_with,
  consume_object, eof, with_key, on_token, TokenResult, Consume, consume_value, Consumed, Token,
  IsDecoder, Decoder, done, scalar, token, delim, text, open_object, open_array, close_object,
  close_array,
}
use fraud_scoring_platform.Prelude.{
  ap, subst, [], ◌∙◌, ◌∷◌, ◌+◌, ◌<◌, ◌*◌, ℕ, ◌≡◌, String, List, Bool, false, true, zero, suc, arith,
  refl,
}

module _ (dec : Decoder) (law : IsDecoder dec) where
  open dec use {State, next_token, more}

  -- Goes from `d` past the tokens before `rest`.
  abbrev pub Passed : Consumed × State → List Token → State → Type 0
  Passed r rest m = (e : State) × (r ≡ (done, e)) × Yields dec e rest m

  pub on_token-at :
      (k : Token → Consume dec) (p : TokenResult × State) (t : Token)
      → p.0 ≡ token t
      → on_token dec k p ≡ k t p.1
  on_token-at k (token s, d) t h = cc h
  on_token-at k (eof, d) t h = cc h
  on_token-at k (syntax, d) t h = cc h

  with_key-Passes :
      (top : Bool) (seen : List String) (k : String → Consume dec) (key : String) (d : State)
      → Passes top seen key
      → with_key dec top seen k (text key) d ≡ k key d
  with_key-Passes top seen k key d p = rw (p.unseen, p.allowed) refl

  -- The token that a value begins with closes nothing.
  pub more_value :
      (v : Value) (d m : State) (rest : List Token) → Yields dec d (tokens v rest) m → more d ≡ true
  unfolding tokens
  more_value plain d m rest y = law.more_lem d scalar y.0
  more_value (quoted s) d m rest y = law.more_lem d (text s) y.0
  more_value (array xs) d m rest y = law.more_lem d (delim open_array) y.0
  more_value (object fs) d m rest y = law.more_lem d (delim open_object) y.0

  -- A value goes on with what its first token says.
  first_token :
      (f : ℕ) (top : Bool) (d m : State) (t : Token) (rest : List Token)
      → (next_token d).0 ≡ token t
      → Passed
          (start_value dec top
            (consume_object dec f top [])
            (consume_array dec f)
            t
            (next_token d).1)
          rest
          m
      → Passed (consume_value dec (suc f) top d) rest m
  unfolding consume_value
  first_token f top d m t rest at (e, step, y) = (
    e,
    on_token-at (start_value dec top (consume_object dec f top []) (consume_array dec f))
          (next_token d) t at
        ∙ step,
    y,
  )

  -- A value, and then the rest.
  then-Passed :
      (r : Consumed × State) (k : Consume dec) (d m : State) (ts rest : List Token)
      → Ends dec law d r
      → Passed r ts m
      → ((e : State) → law.size e < law.size d → Yields dec e ts m → Passed (k e) rest m)
      → Passed (and_then dec r k) rest m
  then-Passed r k d m ts rest (_, falls) (e, same, y) next =
      let (e2, step, y2) =
        next e
          (subst (λ s. law.size s < law.size d) (ap (λ p. p.1) same) (falls (ap (λ p. p.0) same)))
          y in
      (e2, ap (λ p. and_then dec p k) same ∙ step, y2)

  array-Passed :
      (top : Bool) (members items : Consume dec) (d m : State) (rest : List Token)
      → top ≡ false
      → Passed (items d) rest m
      → Passed (start_value dec top members items (delim open_array) d) rest m
  array-Passed true members items d m rest off p = cc off
  array-Passed false members items d m rest off p = p

  not_true : (b : Bool) → ¬ (b ≡ true) → b ≡ false
  not_true true h = absurd (h refl)
  not_true false h = refl

  mutual
    unfolding tokens consume_value IsClean

    pub Passed-value :
        (f : ℕ) (top : Bool) (v : Value) (d m : State) (rest : List Token)
        → 2 * law.size d < f
        → IsClean v
        → (top ≡ true → IsRequest v)
        → Yields dec d (tokens v rest) m
        → Passed (consume_value dec f top d) rest m
    Passed-value zero top v d m rest h c q y = absurd (omega (arith, h))
    Passed-value (suc f) top plain d m rest h c q y =
        first_token f top d m scalar rest y.0 ((next_token d).1, refl, y.1)
    Passed-value (suc f) top (quoted s) d m rest h c q y =
        first_token f top d m (text s) rest y.0 ((next_token d).1, refl, y.1)
    Passed-value (suc f) top (array xs) d m rest h c q y =
        let lt = law.falls d (delim open_array) y.0 in
        let d1 = (next_token d).1 in
        first_token f top d m (delim open_array) rest y.0 (
          array-Passed top (consume_object dec f top []) (consume_array dec f) d1 m rest
            (not_true top q) (Passed-array f xs d1 m rest (omega (arith, h, lt)) c y.1))
    Passed-value (suc f) top (object fs) d m rest h c q y =
        let lt = law.falls d (delim open_object) y.0 in
        first_token f top d m (delim open_object) rest y.0 (
          Passed-object f top [] fs (next_token d).1 m rest (omega (arith, h, lt))
            (record { distinct = c.0; unseen = λ k e s. elim s [ ]; clean = c.1; known = q }) y.1)

    Passed-object :
        (f : ℕ) (top : Bool) (seen : List String) (fs : Fields) (d m : State) (rest : List Token)
        → 2 * law.size d + 1 < f
        → Fresh top seen fs
        → Yields dec d (field_tokens fs (delim close_object ∷ rest)) m
        → Passed (consume_object dec f top seen d) rest m
    Passed-object zero top seen fs d m rest h c y = absurd (omega (arith, h))
    Passed-object (suc f) top seen end d m rest h c y = (
      (next_token d).1,
      consume_object-eq-close dec f top seen d (law.more_lem d (delim close_object) y.0)
          ∙ on_token-at (close_object_with dec) (next_token d) (delim close_object) y.0,
      y.1,
    )
    Passed-object (suc f) top seen (field k v fs) d m rest h c y =
        let lt = law.falls d (text k) y.0 in
        let d1 = (next_token d).1 in
        let more_keys = consume_object dec f top (k ∷ seen) in
        let left = field_tokens fs (delim close_object ∷ rest) in
        let (clean, fresh) = Fresh-rest top seen k v fs c in
        let (e, step, z) =
          then-Passed (consume_value dec f false d1) more_keys d1 m left rest
            (consume_value-Ends dec law f false d1 (omega (arith, h, lt)))
            (Passed-value f false v d1 m left (omega (arith, h, lt)) clean (λ on. cc on) y.1)
            (λ d2 lt2 y2.
              Passed-object f top (k ∷ seen) fs d2 m rest (omega (arith, h, lt, lt2)) fresh y2) in
        (
          e,
          consume_object-eq-key dec f top seen d (law.more_lem d (text k) y.0)
              ∙ on_token-at (with_key dec top seen (keyed dec f top seen)) (next_token d) (text k)
                  y.0
              ∙ with_key-Passes top seen (keyed dec f top seen) k d1
                  (Passes-first top seen k v fs c)
              ∙ step,
          z,
        )

    Passed-array :
        (f : ℕ) (xs : Items) (d m : State) (rest : List Token)
        → 2 * law.size d + 1 < f
        → AreClean xs
        → Yields dec d (item_tokens xs (delim close_array ∷ rest)) m
        → Passed (consume_array dec f d) rest m
    Passed-array zero xs d m rest h c y = absurd (omega (arith, h))
    Passed-array (suc f) nil d m rest h c y = (
      (next_token d).1,
      consume_array-eq-close dec f d (law.more_lem d (delim close_array) y.0)
          ∙ on_token-at (close_array_with dec) (next_token d) (delim close_array) y.0,
      y.1,
    )
    Passed-array (suc f) (cons x xs) d m rest h c y =
        let left = item_tokens xs (delim close_array ∷ rest) in
        let (e, step, z) =
          then-Passed (consume_value dec f false d) (consume_array dec f) d m left rest
            (consume_value-Ends dec law f false d (omega (arith, h)))
            (Passed-value f false x d m left (omega (arith, h)) c.0 (λ on. cc on) y)
            (λ d2 lt2 y2. Passed-array f xs d2 m rest (omega (arith, h, lt2)) c.1 y2) in
        (e, consume_array-eq-item dec f d (more_value x d m left y) ∙ step, z)
