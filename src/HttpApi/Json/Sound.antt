-- ===== src/HttpApi/Json/Sound.antt =====
-- What internal/httpapi/score.go accepts is the tokens of a value without repeated keys.
use fraud_scoring_platform.HttpApi.Json.Steps.{
  on_token-inv, and_then-inv, close_object-inv, close_array-inv, with_key-inv, keyed,
  consume_object-eq-key, consume_object-eq-close, consume_array-eq-item, consume_array-eq-close,
}
use fraud_scoring_platform.HttpApi.Json.Fresh.{Fresh-end, Fresh-field, Passes, Fresh}
use fraud_scoring_platform.HttpApi.Json.Tree.{
  nil, end, array, object, end, field, cons, plain, quoted, field_tokens, tokens, IsRequest,
  item_tokens, IsClean, Fields, Value, Yields, AreClean, Items,
}
use fraud_scoring_platform.HttpApi.Json.{
  consume_array, consume_object, consume_value, on_token, done, start_value, with_key,
  close_object_with, Consume, close_array_with, Token, Decoder, scalar, token, delim, text,
  open_object, open_array, close_object, close_array,
}
use fraud_scoring_platform.Prelude.{
  ◌∙◌, ℕ, sym, inr, inl, subst, Bool-cases, [], ◌∷◌, ◌≡◌, String, List, Bool, false, true, zero,
  suc, refl,
}

module _ (dec : Decoder) where
  open dec use {State, next_token, more}

  -- The tokens from `d` to `e` are those that `ts` puts in front.
  abbrev pub Spells : State → State → (List Token → List Token) → Type 0
  Spells d e ts = (rest : List Token) (m : State) → Yields dec e rest m → Yields dec d (ts rest) m

  abbrev pub SoundValue : Bool → State → State → Type 0
  SoundValue top d e = (v : Value) × IsClean v × (top ≡ true → IsRequest v) × Spells d e (tokens v)

  abbrev pub SoundObject : Bool → List String → State → State → Type 0
  SoundObject top seen d e =
      (fs : Fields) × Fresh top seen fs
      × Spells d e (λ rest. field_tokens fs (delim close_object ∷ rest))

  abbrev pub SoundArray : State → State → Type 0
  SoundArray d e =
      (xs : Items) × AreClean xs × Spells d e (λ rest. item_tokens xs (delim close_array ∷ rest))

  Spells-token :
      (t : Token) (d d1 e : State) (ts : List Token → List Token)
      → (next_token d).0 ≡ token t
      → (next_token d).1 ≡ d1
      → Spells d1 e ts
      → Spells d e (λ rest. t ∷ ts rest)
  Spells-token t d d1 e ts at next s rest m y =
      (at, subst (λ x. Yields dec x (ts rest) m) (sym next) (s rest m y))

  Spells-one :
      (t : Token) (d d1 e : State)
      → (next_token d).0 ≡ token t
      → (next_token d).1 ≡ d1
      → d1 ≡ e
      → Spells d e (λ rest. t ∷ rest)
  Spells-one t d d1 e at next same =
      Spells-token t d d1 e (λ rest. rest) at next
        (λ rest m y. subst (λ x. Yields dec x rest m) (sym same) y)

  start_value-inv :
      (top : Bool) (members items : Consume dec) (t : Token) (d d1 e : State)
      → (next_token d).0 ≡ token t
      → (next_token d).1 ≡ d1
      → start_value dec top members items t d1 ≡ (done, e)
      → (members d1 ≡ (done, e) → SoundObject top [] d1 e)
      → (items d1 ≡ (done, e) → SoundArray d1 e)
      → SoundValue top d e
  start_value-inv top members items (delim open_object) d d1 e at next h o a =
      let (fs, fresh, spells) = o h in
      (
        object fs,
        unfold IsClean in (fresh.distinct, fresh.clean),
        fresh.known,
        unfold tokens in
            Spells-token (delim open_object) d d1 e
              (λ rest. field_tokens fs (delim close_object ∷ rest)) at next spells,
      )
  start_value-inv true members items (delim open_array) d d1 e at next h o a = cc h
  start_value-inv false members items (delim open_array) d d1 e at next h o a =
      let (xs, clean, spells) = a h in
      (
        array xs,
        unfold IsClean in clean,
        (λ on. cc on),
        unfold tokens in
            Spells-token (delim open_array) d d1 e
              (λ rest. item_tokens xs (delim close_array ∷ rest)) at next spells,
      )
  start_value-inv top members items (delim close_object) d d1 e at next h o a = cc h
  start_value-inv top members items (delim close_array) d d1 e at next h o a = cc h
  start_value-inv top members items (text x) d d1 e at next h o a = (
    quoted x,
    unfold IsClean in tt,
    (λ _. tt),
    unfold tokens in Spells-one (text x) d d1 e at next (cc h),
  )
  start_value-inv top members items scalar d d1 e at next h o a = (
    plain,
    unfold IsClean in tt,
    (λ _. tt),
    unfold tokens in Spells-one scalar d d1 e at next (cc h),
  )

  cons_array : (d d1 e : State) → SoundValue false d d1 → SoundArray d1 e → SoundArray d e
  cons_array d d1 e (v, clean, _, spells) (xs, cleans, rest_spells) = (
    cons v xs,
    unfold IsClean in (clean, cleans),
    unfold tokens in
        λ rest m y. spells (item_tokens xs (delim close_array ∷ rest)) m (rest_spells rest m y),
  )

  cons_object :
      (top : Bool) (seen : List String) (key : String) (d d1 e : State)
      → (next_token d).0 ≡ token (text key)
      → Passes top seen key
      → SoundValue false (next_token d).1 d1
      → SoundObject top (key ∷ seen) d1 e
      → SoundObject top seen d e
  cons_object top seen key d d1 e at p (v, clean, _, spells) (fs, fresh, rest_spells) = (
    field key v fs,
    Fresh-field top seen key v fs p clean fresh,
    unfold tokens in
        λ rest m y.
          (at, spells (field_tokens fs (delim close_object ∷ rest)) m (rest_spells rest m y)),
  )

  no_field :
      (top : Bool) (seen : List String) (d e : State)
      → on_token dec (close_object_with dec) (next_token d) ≡ (done, e)
      → SoundObject top seen d e
  no_field top seen d e h =
      let (t, at, step) = on_token-inv dec (close_object_with dec) (next_token d) e h in
      let (close, same) = close_object-inv dec t (next_token d).1 e step in
      (
        end,
        Fresh-end top seen,
        unfold tokens in
            Spells-one (delim close_object) d (next_token d).1 e (cc (at, close)) refl same,
      )

  no_item :
      (d e : State)
      → on_token dec (close_array_with dec) (next_token d) ≡ (done, e)
      → SoundArray d e
  no_item d e h =
      let (t, at, step) = on_token-inv dec (close_array_with dec) (next_token d) e h in
      let (close, same) = close_array-inv dec t (next_token d).1 e step in
      (
        nil,
        unfold IsClean in tt,
        unfold tokens in
            Spells-one (delim close_array) d (next_token d).1 e (cc (at, close)) refl same,
      )

  mutual
    unfolding consume_value

    pub value-inv :
        (f : ℕ) (top : Bool) (d e : State)
        → consume_value dec f top d ≡ (done, e)
        → SoundValue top d e
    value-inv zero top d e h = cc h
    value-inv (suc f) top d e h =
        let members = consume_object dec f top [] in
        let items = consume_array dec f in
        let (t, at, step) =
          on_token-inv dec (start_value dec top members items) (next_token d) e h in
        start_value-inv top members items t d (next_token d).1 e at refl step
          (object-inv f top [] (next_token d).1 e) (array-inv f (next_token d).1 e)

    object-inv :
        (f : ℕ) (top : Bool) (seen : List String) (d e : State)
        → consume_object dec f top seen d ≡ (done, e)
        → SoundObject top seen d e
    object-inv zero top seen d e h = cc h
    object-inv (suc f) top seen d e h = elim (Bool-cases (more d)) [
      | inl going ↦
          let (t, at, step) =
            on_token-inv dec (with_key dec top seen (keyed dec f top seen)) (next_token d) e
              (sym (consume_object-eq-key dec f top seen d going) ∙ h) in
          let d1 = (next_token d).1 in
          let (key, is_text, passes, value) =
            with_key-inv dec top seen (keyed dec f top seen) t d1 e step in
          let (d2, first, rest) =
            and_then-inv dec (consume_value dec f false d1) (consume_object dec f top (key ∷ seen))
              e value in
          cons_object top seen key d d2 e (cc (at, is_text)) passes (value-inv f false d1 d2 first)
            (object-inv f top (key ∷ seen) d2 e rest)
      | inr ended ↦ no_field top seen d e (sym (consume_object-eq-close dec f top seen d ended) ∙ h)
    ]

    array-inv : (f : ℕ) (d e : State) → consume_array dec f d ≡ (done, e) → SoundArray d e
    array-inv zero d e h = cc h
    array-inv (suc f) d e h = elim (Bool-cases (more d)) [
      | inl going ↦
          let (d1, first, rest) =
            and_then-inv dec (consume_value dec f false d) (consume_array dec f) e
              (sym (consume_array-eq-item dec f d going) ∙ h) in
          cons_array d d1 e (value-inv f false d d1 first) (array-inv f d1 e rest)
      | inr ended ↦ no_item d e (sym (consume_array-eq-close dec f d ended) ∙ h)
    ]
