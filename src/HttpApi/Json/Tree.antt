-- ===== src/HttpApi/Json/Tree.antt =====
-- JSON values as trees and as tokens, and which of them the pass over the tokens in
-- internal/httpapi/score.go is to accept.
use fraud_scoring_platform.HttpApi.Json.{
  Token, Decoder, open_object, delim, close_object, scalar, open_array, close_array, text, token,
}
use fraud_scoring_platform.Prelude.{◌⊎◌, Elem, ◌≡◌, [], ◌∷◌, String, All, List}

mutual
  pub data Value : Type 0 where
    plain : Value
    quoted : String → Value
    array : Items → Value
    object : Fields → Value

  pub data Items : Type 0 where
    nil : Items
    cons : Value → Items → Items

  pub data Fields : Type 0 where
    end : Fields
    field : String → Value → Fields → Fields

-- What stands before the tokens `rest`.
unfoldable mutual
  pub tokens : Value → List Token → List Token
  tokens plain rest = scalar ∷ rest
  tokens (quoted s) rest = text s ∷ rest
  tokens (array xs) rest = delim open_array ∷ item_tokens xs (delim close_array ∷ rest)
  tokens (object fs) rest = delim open_object ∷ field_tokens fs (delim close_object ∷ rest)

  pub item_tokens : Items → List Token → List Token
  item_tokens nil rest = rest
  item_tokens (cons x xs) rest = tokens x (item_tokens xs rest)

  pub field_tokens : Fields → List Token → List Token
  field_tokens end rest = rest
  field_tokens (field k v fs) rest = text k ∷ tokens v (field_tokens fs rest)

abbrev pub keys : Fields → List String
keys end = []
keys (field k v fs) = k ∷ keys fs

abbrev pub NoRepeat : List String → Type 0
NoRepeat [] = Unit
NoRepeat (k ∷ ks) = (¬ Elem k ks) × NoRepeat ks

-- No object, however deep, has a key twice.
unfoldable mutual
  pub IsClean : Value → Type 0
  IsClean plain = Unit
  IsClean (quoted s) = Unit
  IsClean (array xs) = AreClean xs
  IsClean (object fs) = NoRepeat (keys fs) × HasClean fs

  pub AreClean : Items → Type 0
  AreClean nil = Unit
  AreClean (cons x xs) = IsClean x × AreClean xs

  pub HasClean : Fields → Type 0
  HasClean end = Unit
  HasClean (field k v fs) = IsClean v × HasClean fs

-- The names of the fields of a score request.
abbrev pub IsField : String → Type 0
IsField k = (k ≡ "transaction_id") ⊎ (k ≡ "features")

-- Not an array; an object has no other fields.
abbrev pub IsRequest : Value → Type 0
IsRequest plain = Unit
IsRequest (quoted s) = Unit
IsRequest (array xs) = ⊥
IsRequest (object fs) = All IsField (keys fs)

-- What the decoder gives next, one token after the other, up to the state `e`.
module _ (dec : Decoder) where
  abbrev pub Yields : dec.State → List Token → dec.State → Type 0
  Yields d [] e = d ≡ e
  Yields d (t ∷ ts) e = ((dec.next_token d).0 ≡ token t) × Yields (dec.next_token d).1 ts e
