-- ===== src/Prelude/Lists.antt =====
-- Lists measured and indexed by native numbers, under the library's names.
use Prim.Native.Nat.{ℕ, zero, suc, ◌+◌, ◌-◌, ◌≤◌, ◌<◌, min}
use mathlib.Core.Path.{◌≡◌, refl, ap, subst}
use mathlib.Core.Logic.{◌⊎◌, inl, inr}
use mathlib.Core.List.{List, [], ◌∷◌, ◌++◌}
use mathlib.Core.Option.{Option, none, some}
use native.Mathlib.Omega.{arith}

module _ {ℓ} {A : Type ℓ} where
  abbrev pub length : List A → ℕ
  length [] = 0
  length (x ∷ xs) = suc (length xs)

  abbrev pub get_elem? : List A → ℕ → Option A
  get_elem? [] i = none
  get_elem? (x ∷ xs) zero = some x
  get_elem? (x ∷ xs) (suc i) = get_elem? xs i

  abbrev pub take : ℕ → List A → List A
  take zero xs = []
  take (suc n) [] = []
  take (suc n) (x ∷ xs) = x ∷ take n xs

  abbrev pub drop : ℕ → List A → List A
  drop zero xs = xs
  drop (suc n) [] = []
  drop (suc n) (x ∷ xs) = drop n xs

  pub length-append : (xs ys : List A) → length (xs ++ ys) ≡ length xs + length ys
  length-append [] ys = omega arith
  length-append (x ∷ xs) ys = omega (arith, length-append xs ys)

  pub length-take : (n : ℕ) (xs : List A) → length (take n xs) ≡ min n (length xs)
  length-take zero xs = omega arith
  length-take (suc n) [] = omega arith
  length-take (suc n) (x ∷ xs) = omega (arith, length-take n xs)

  pub length-drop : (n : ℕ) (xs : List A) → length (drop n xs) ≡ length xs - n
  length-drop zero xs = omega arith
  length-drop (suc n) [] = omega arith
  length-drop (suc n) (x ∷ xs) = omega (arith, length-drop n xs)

module _ {ℓ} {A : Type ℓ} where
  pub get_elem?-eq-none : (i : ℕ) (xs : List A) → length xs ≤ i → get_elem? xs i ≡ none
  get_elem?-eq-none i [] h = refl
  get_elem?-eq-none zero (x ∷ xs) h = absurd (omega arith)
  get_elem?-eq-none (suc i) (x ∷ xs) h = get_elem?-eq-none i xs (omega arith)

  pub get_elem?-drop :
      (n i j : ℕ) (xs : List A) → n + i ≡ j → get_elem? (drop n xs) i ≡ get_elem? xs j
  get_elem?-drop zero i j xs h = ap (get_elem? xs) (omega arith)
  get_elem?-drop (suc n) i j [] h = refl
  get_elem?-drop (suc n) i zero (x ∷ xs) h = absurd (omega arith)
  get_elem?-drop (suc n) i (suc j) (x ∷ xs) h = get_elem?-drop n i j xs (omega arith)

  pub get_elem?-take : (n i : ℕ) (xs : List A) → i < n → get_elem? (take n xs) i ≡ get_elem? xs i
  get_elem?-take zero i xs h = absurd (omega arith)
  get_elem?-take (suc n) i [] h = refl
  get_elem?-take (suc n) zero (x ∷ xs) h = refl
  get_elem?-take (suc n) (suc i) (x ∷ xs) h = get_elem?-take n i xs (omega arith)

-- A predicate on every element; it computes to tuples, which the tactics read and build.
abbrev pub All {ℓ κ} : {A : Type ℓ} → (A → Type κ) → List A → Type κ
All P [] = Unit
All P (x ∷ xs) = P x × All P xs

pub All-map2 {ℓ κ ν μ} :
    {A : Type ℓ} {P : A → Type κ} {Q : A → Type ν} {R : A → Type μ}
    → ((x : A) → P x → Q x → R x)
    → (xs : List A) → All P xs
    → All Q xs
    → All R xs
All-map2 f [] h k = tt
All-map2 f (x ∷ xs) h k = (f x h.0 k.0, All-map2 f xs h.1 k.1)

module _ {ℓ} {A : Type ℓ} where
  pub get_elem?-inside : (i : ℕ) (xs : List A) → i < length xs → (x : A) × (get_elem? xs i ≡ some x)
  get_elem?-inside i [] h = absurd (omega arith)
  get_elem?-inside zero (x ∷ xs) h = (x, refl)
  get_elem?-inside (suc i) (x ∷ xs) h = get_elem?-inside i xs (omega arith)

  pub drop-eq-cons :
      (i : ℕ) (xs : List A) (x : A) → get_elem? xs i ≡ some x → drop i xs ≡ x ∷ drop (suc i) xs
  drop-eq-cons i [] x h = cc
  drop-eq-cons zero (y ∷ xs) x h = cc
  drop-eq-cons (suc i) (y ∷ xs) x h = drop-eq-cons i xs x h

abbrev pub Elem : {A : Type 0} → A → List A → Type 0
Elem a [] = ⊥
Elem a (x ∷ xs) = (x ≡ a) ⊎ Elem a xs

pub Elem-All : {A : Type 0} (P : A → Type 0) (xs : List A) (a : A) → All P xs → Elem a xs → P a
Elem-All P [] a h k = elim k [ ]
Elem-All P (x ∷ xs) a h (inl e) = subst P e h.0
Elem-All P (x ∷ xs) a h (inr k) = Elem-All P xs a h.1 k
