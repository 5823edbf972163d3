-- ===== src/HttpApi/Json/Blame.antt =====
-- The error of internal/httpapi/score.go for the tokens of a value is true of the value.
use fraud_scoring_platform.HttpApi.Json.Tree.{
  IsField, keys, Fields, Value, Items, nil, end, array, object, field, cons, plain, quoted,
}
use fraud_scoring_platform.HttpApi.Json.{
  JsonError, duplicate_field, unknown_field, array_at_top, end_of_input, bad_syntax,
  unexpected_delimiter, invalid_key, invalid_object, invalid_array,
}
use fraud_scoring_platform.Prelude.{
  inl, sym, ◌≡◌, Elem, ◌⊎◌, inr, ◌∷◌, subst, [], List, String, Bool, false, true, refl,
}

abbrev pub IsTwice : String → List String → Type 0
IsTwice k [] = ⊥
IsTwice k (j ∷ js) = ((j ≡ k) × Elem k js) ⊎ IsTwice k js

-- Some object in the value, however deep, has the key twice.
unfoldable mutual
  pub Repeats : String → Value → Type 0
  Repeats k plain = ⊥
  Repeats k (quoted s) = ⊥
  Repeats k (array xs) = RepeatsItem k xs
  Repeats k (object fs) = IsTwice k (keys fs) ⊎ RepeatsField k fs

  pub RepeatsItem : String → Items → Type 0
  RepeatsItem k nil = ⊥
  RepeatsItem k (cons x xs) = Repeats k x ⊎ RepeatsItem k xs

  pub RepeatsField : String → Fields → Type 0
  RepeatsField k end = ⊥
  RepeatsField k (field j v fs) = Repeats k v ⊎ RepeatsField k fs

-- An error of a value, at the top of a request or below.
abbrev pub Blamed : Bool → Value → JsonError → Type 0
Blamed top v (duplicate_field k) = Repeats k v
Blamed top v (unknown_field k) =
    (top ≡ true) × (fs : Fields) × (v ≡ object fs) × Elem k (keys fs) × (¬ IsField k)
Blamed top v array_at_top = (top ≡ true) × (xs : Items) × (v ≡ array xs)
Blamed top v _ = ⊥

-- An error of what is left of an object behind the keys `seen`.
abbrev pub BlamedFields : Bool → List String → Fields → JsonError → Type 0
BlamedFields top seen fs (duplicate_field k) =
    (Elem k seen × Elem k (keys fs)) ⊎ IsTwice k (keys fs) ⊎ RepeatsField k fs
BlamedFields top seen fs (unknown_field k) = (top ≡ true) × Elem k (keys fs) × (¬ IsField k)
BlamedFields top seen fs _ = ⊥

abbrev pub BlamedItems : Items → JsonError → Type 0
BlamedItems xs (duplicate_field k) = RepeatsItem k xs
BlamedItems xs _ = ⊥

pub Blamed-nested :
    (v : Value) (err : JsonError)
    → Blamed false v err
    → (k : String) × (err ≡ duplicate_field k) × Repeats k v
Blamed-nested v (duplicate_field k) b = (k, refl, b)
Blamed-nested v (unknown_field k) b = cc (b.0)
Blamed-nested v array_at_top b = cc (b.0)
Blamed-nested v end_of_input b = absurd b
Blamed-nested v bad_syntax b = absurd b
Blamed-nested v unexpected_delimiter b = absurd b
Blamed-nested v invalid_key b = absurd b
Blamed-nested v invalid_object b = absurd b
Blamed-nested v invalid_array b = absurd b

pub BlamedFields-object :
    (top : Bool) (fs : Fields) (err : JsonError)
    → BlamedFields top [] fs err
    → Blamed top (object fs) err
unfolding Repeats
BlamedFields-object top fs (duplicate_field k) (inl (old, _)) = absurd old
BlamedFields-object top fs (duplicate_field k) (inr b) = b
BlamedFields-object top fs (unknown_field k) (on, at, un) = (on, fs, refl, at, un)
BlamedFields-object top fs array_at_top b = absurd b
BlamedFields-object top fs end_of_input b = absurd b
BlamedFields-object top fs bad_syntax b = absurd b
BlamedFields-object top fs unexpected_delimiter b = absurd b
BlamedFields-object top fs invalid_key b = absurd b
BlamedFields-object top fs invalid_object b = absurd b
BlamedFields-object top fs invalid_array b = absurd b

pub BlamedItems-array :
    (top : Bool) (xs : Items) (err : JsonError) → BlamedItems xs err → Blamed top (array xs) err
unfolding Repeats
BlamedItems-array top xs (duplicate_field k) b = b
BlamedItems-array top xs (unknown_field k) b = absurd b
BlamedItems-array top xs array_at_top b = absurd b
BlamedItems-array top xs end_of_input b = absurd b
BlamedItems-array top xs bad_syntax b = absurd b
BlamedItems-array top xs unexpected_delimiter b = absurd b
BlamedItems-array top xs invalid_key b = absurd b
BlamedItems-array top xs invalid_object b = absurd b
BlamedItems-array top xs invalid_array b = absurd b

-- An error of a value is one of the object or array around it.
pub BlamedFields-value :
    (top : Bool) (seen : List String) (j : String) (v : Value) (fs : Fields) (err : JsonError)
    → Blamed false v err
    → BlamedFields top seen (field j v fs) err
unfolding Repeats
BlamedFields-value top seen j v fs err b =
    let (k, same, rep) = Blamed-nested v err b in
    subst (BlamedFields top seen (field j v fs)) (sym same) (inr (inr (inl rep)))

pub BlamedItems-value :
    (v : Value) (xs : Items) (err : JsonError) → Blamed false v err → BlamedItems (cons v xs) err
unfolding Repeats
BlamedItems-value v xs err b =
    let (k, same, rep) = Blamed-nested v err b in
    subst (BlamedItems (cons v xs)) (sym same) (inl rep)

pub BlamedFields-rest :
    (top : Bool) (seen : List String) (j : String) (v : Value) (fs : Fields) (err : JsonError)
    → BlamedFields top (j ∷ seen) fs err
    → BlamedFields top seen (field j v fs) err
unfolding Repeats
BlamedFields-rest top seen j v fs (duplicate_field k) (inl (inl same, at)) =
    inr (inl (inl (same, at)))
BlamedFields-rest top seen j v fs (duplicate_field k) (inl (inr old, at)) = inl (old, inr at)
BlamedFields-rest top seen j v fs (duplicate_field k) (inr (inl twice)) = inr (inl (inr twice))
BlamedFields-rest top seen j v fs (duplicate_field k) (inr (inr rep)) = inr (inr (inr rep))
BlamedFields-rest top seen j v fs (unknown_field k) (on, at, un) = (on, inr at, un)
BlamedFields-rest top seen j v fs array_at_top b = absurd b
BlamedFields-rest top seen j v fs end_of_input b = absurd b
BlamedFields-rest top seen j v fs bad_syntax b = absurd b
BlamedFields-rest top seen j v fs unexpected_delimiter b = absurd b
BlamedFields-rest top seen j v fs invalid_key b = absurd b
BlamedFields-rest top seen j v fs invalid_object b = absurd b
BlamedFields-rest top seen j v fs invalid_array b = absurd b

pub BlamedItems-rest :
    (v : Value) (xs : Items) (err : JsonError) → BlamedItems xs err → BlamedItems (cons v xs) err
unfolding Repeats
BlamedItems-rest v xs (duplicate_field k) b = inr b
BlamedItems-rest v xs (unknown_field k) b = absurd b
BlamedItems-rest v xs array_at_top b = absurd b
BlamedItems-rest v xs end_of_input b = absurd b
BlamedItems-rest v xs bad_syntax b = absurd b
BlamedItems-rest v xs unexpected_delimiter b = absurd b
BlamedItems-rest v xs invalid_key b = absurd b
BlamedItems-rest v xs invalid_object b = absurd b
BlamedItems-rest v xs invalid_array b = absurd b
