-- ===== src/HttpApi/Json/Fresh.antt =====
-- The keys of one object in internal/httpapi/score.go: what `seen` and `allowedTopLevelFields` let
-- through.
use fraud_scoring_platform.HttpApi.Json.{is_seen, is_allowed}
use fraud_scoring_platform.HttpApi.Json.Tree.{
  IsField, keys, field, NoRepeat, IsClean, end, Value, Fields, HasClean,
}
use fraud_scoring_platform.Prelude.{
  sym, [], inr, not, eq_iff, subst, All, ◌↔◌, ◌&&◌, inl, Elem, ◌∷◌, false, true, Bool-cases, ◌≡◌,
  Bool, String, List, arith, refl,
}

pub is_seen_iff : (ks : List String) (k : String) → (is_seen ks k ≡ true) ↔ Elem k ks
is_seen_iff [] k = ((λ e. cc e), (λ h. elim h [ ]))
is_seen_iff (x ∷ xs) k = ground (arith, eq_iff x k, is_seen_iff xs k)

pub is_allowed_iff : (k : String) → (is_allowed k ≡ true) ↔ IsField k
is_allowed_iff k = ground (arith, eq_iff k "transaction_id", eq_iff k "features")

-- The fields that an object may still have after the keys `seen`.
pub record Fresh (top : Bool) (seen : List String) (fs : Fields) : Type 0 where
  pub distinct : NoRepeat (keys fs)
  pub unseen : (k : String) → Elem k (keys fs) → ¬ Elem k seen
  pub clean : HasClean fs
  pub known : top ≡ true → All IsField (keys fs)

pub Fresh-end : (top : Bool) (seen : List String) → Fresh top seen end
Fresh-end top seen = record {
  distinct = tt;
  unseen = λ k h. elim h [ ];
  clean = unfold HasClean in tt;
  known = λ _. tt;
}

-- A key that passes the tests of the loop.
pub record Passes (top : Bool) (seen : List String) (k : String) : Type 0 where
  pub unseen : is_seen seen k ≡ false
  pub allowed : (top && not (is_allowed k)) ≡ false

pub Fresh-field :
    (top : Bool) (seen : List String) (k : String) (v : Value) (fs : Fields)
    → Passes top seen k
    → IsClean v
    → Fresh top (k ∷ seen) fs
    → Fresh top seen (field k v fs)
Fresh-field top seen k v fs p c h = record {
  distinct = ((λ again. h.unseen k again (inl refl)), h.distinct);
  unseen = λ j e. elim e [
    | inl same ↦ ground (arith, same, p.unseen, is_seen_iff seen j)
    | inr rest ↦ λ s. h.unseen j rest (inr s)
  ];
  clean = unfold HasClean in (c, h.clean);
  known = λ on. (ground (arith, on, p.allowed, is_allowed_iff k), h.known on);
}

pub Passes-first :
    (top : Bool) (seen : List String) (k : String) (v : Value) (fs : Fields)
    → Fresh top seen (field k v fs)
    → Passes top seen k
Passes-first top seen k v fs h = record {
  unseen = elim (Bool-cases (is_seen seen k)) [
    | inl old ↦ absurd (h.unseen k (inl refl) ((is_seen_iff seen k).0 old))
    | inr new ↦ new
  ];
  allowed = elim (Bool-cases top) [
    | inl on ↦ rw (on, (is_allowed_iff k).1 (h.known on).0)
    | inr off ↦ rw off
  ];
}

pub Fresh-rest :
    (top : Bool) (seen : List String) (k : String) (v : Value) (fs : Fields)
    → Fresh top seen (field k v fs)
    → IsClean v × Fresh top (k ∷ seen) fs
unfolding HasClean
Fresh-rest top seen k v fs h = (
  h.clean.0,
  record {
    distinct = h.distinct.1;
    unseen = λ j e s. elim s [
      | inl same ↦ h.distinct.0 (subst (λ x. Elem x (keys fs)) (sym same) e)
      | inr old ↦ h.unseen j (inr e) old
    ];
    clean = h.clean.1;
    known = λ on. (h.known on).1;
  },
)
