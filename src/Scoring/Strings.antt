-- ===== src/Scoring/Strings.antt =====
-- The order of texts by code points, and a sort by it, for sort.Strings.
use Prim.Native.Char.{code}
use text.Mathlib.TextEquality.{Char-path}
use fraud_scoring_platform.Scoring.Vector.Order.{IsSort}
use fraud_scoring_platform.Prelude.{
  subst, Bool-cases, [], ◌↔◌, ◌∷◌, List, ◌==◌, inr, ltb, inl, if◌then◌else◌, ◌⊎◌, false, true, ◌≡◌,
  Bool, String, arith, refl, Elem,
}

-- Texts by their code points.
abbrev pub le_str : String → String → Bool
le_str String.[] t = true
le_str (String.◌∷◌ c s) String.[] = false
le_str (String.◌∷◌ c s) (String.◌∷◌ d t) =
    let rest = le_str s t in
    if ltb (code c) (code d) then true else if code c == code d then rest else false

le_str_total : (s t : String) → (le_str s t ≡ true) ⊎ (le_str t s ≡ true)
le_str_total String.[] t = inl refl
le_str_total (String.◌∷◌ c s) String.[] = inr refl
le_str_total (String.◌∷◌ c s) (String.◌∷◌ d t) = ground (arith, le_str_total s t)

le_str_trans : (s t u : String) → le_str s t ≡ true → le_str t u ≡ true → le_str s u ≡ true
le_str_trans String.[] t u h k = refl
le_str_trans (String.◌∷◌ c s) String.[] u h k = cc
le_str_trans (String.◌∷◌ c s) (String.◌∷◌ d t) String.[] h k = cc
le_str_trans (String.◌∷◌ c s) (String.◌∷◌ d t) (String.◌∷◌ e u) h k =
    ground (arith, le_str_trans s t u)

le_str_antisym : (s t : String) → le_str s t ≡ true → le_str t s ≡ true → s ≡ t
le_str_antisym String.[] String.[] h k = refl
le_str_antisym String.[] (String.◌∷◌ d t) h k = cc
le_str_antisym (String.◌∷◌ c s) String.[] h k = cc
le_str_antisym (String.◌∷◌ c s) (String.◌∷◌ d t) h k =
    let same : code c ≡ code d = ground (arith, h, k) in
    let rest = le_str_antisym s t (ground (arith, h, same)) (ground (arith, k, same)) in
    λ i. String.◌∷◌ (Char-path c d same i) (rest i)

le_str_self : (s : String) → le_str s s ≡ true
le_str_self s = elim (le_str_total s s) [ inl h ↦ h | inr h ↦ h ]

le_str_flip : (s t : String) → le_str s t ≡ false → le_str t s ≡ true
le_str_flip s t h = elim (le_str_total s t) [ inl k ↦ cc (h, k) | inr k ↦ k ]

-- Insertion sort.
abbrev pub insert : String → List String → List String
insert x [] = x ∷ []
insert x (y ∷ ys) = let rest = insert x ys in if le_str x y then x ∷ y ∷ ys else y ∷ rest

abbrev pub sort_strings : List String → List String
sort_strings [] = []
sort_strings (x ∷ xs) = insert x (sort_strings xs)

abbrev pub LeStr : String → String → Type 0
LeStr s t = le_str s t ≡ true

Elem-insert : (x k : String) (ys : List String) → Elem k (insert x ys) ↔ Elem k (x ∷ ys)
Elem-insert x k [] = ((λ h. h), (λ h. h))
Elem-insert x k (y ∷ ys) = ground (arith, Elem-insert x k ys)

Elem-sort : (xs : List String) (k : String) → Elem k (sort_strings xs) ↔ Elem k xs
Elem-sort [] k = ((λ h. h), (λ h. h))
Elem-sort (x ∷ xs) k = ground (arith, Elem-insert x k (sort_strings xs), Elem-sort xs k)

abbrev LeastFirst : List String → Type 0
LeastFirst [] = Unit
LeastFirst (y ∷ ys) = (j : String) → Elem j (y ∷ ys) → LeStr y j

insert-LeastFirst : (x : String) (ys : List String) → LeastFirst ys → LeastFirst (insert x ys)
insert-LeastFirst x [] h =
    λ j. elim [ inl e ↦ subst (LeStr x) e (le_str_self x) | inr e ↦ absurd e ]
insert-LeastFirst x (y ∷ ys) h = elim (Bool-cases (le_str x y)) [
  | inl below ↦ rw below (λ j. elim [
    | inl e ↦ subst (LeStr x) e (le_str_self x)
    | inr k ↦ le_str_trans x y j below (h j k)
  ])
  | inr above ↦ rw above (λ j. elim [
    | inl e ↦ subst (LeStr y) e (le_str_self y)
    | inr k ↦ elim ((Elem-insert x j ys).0 k) [
      | inl e ↦ subst (LeStr y) e (le_str_flip x y above)
      | inr m ↦ h j (inr m)
    ]
  ])
]

sort-LeastFirst : (xs : List String) → LeastFirst (sort_strings xs)
sort-LeastFirst [] = tt
sort-LeastFirst (x ∷ xs) = insert-LeastFirst x (sort_strings xs) (sort-LeastFirst xs)

pub sort_strings-IsSort : IsSort LeStr sort_strings
sort_strings-IsSort = record {
  kept = λ xs k. Elem-sort xs k;
  least = λ xs ks k j e m.
      subst LeastFirst e (sort-LeastFirst xs) j (subst (Elem j) e ((Elem-sort xs j).1 m));
  antisym = le_str_antisym;
}
