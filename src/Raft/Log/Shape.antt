-- ===== src/Raft/Log/Shape.antt =====
-- What the operations of raft/log.go keep of the log: indexes without a gap, terms that never go
-- down. `view` is the abstract log, a partial map from indexes to entries.
use fraud_scoring_platform.Prelude.{
  ℕ, zero, suc, ◌+◌, ◌≤◌, ◌<◌, ◌≡◌, refl, Option, none, some, List, [], ◌∷◌, ◌++◌, arith, length,
  get_elem?, take, drop, ◌==◌, if◌then◌else◌, u64_mod,
}
use fraud_scoring_platform.Raft.Types.{Entry}
use fraud_scoring_platform.Raft.Log.{RaftLog, entries, last_entry, last_index}

-- The entries `es` continue a log that ends in `e`.
abbrev pub Follows : Entry → List Entry → Type 0
Follows e [] = Unit
Follows e (x ∷ xs) = (x.index ≡ e.index + 1) × (e.term ≤ x.term) × Follows x xs

abbrev pub IsLog : RaftLog → Type 0
IsLog l = Follows l.first l.rest

-- The next index is still a uint64.
abbrev pub HasRoom : RaftLog → Type 0
HasRoom l = last_index l + 1 < u64_mod

unfoldable pub view_in : ℕ → List Entry → Option Entry
view_in i [] = none
view_in i (e ∷ es) = if e.index == i then some e else view_in i es

abbrev pub view : RaftLog → ℕ → Option Entry
view l i = view_in i (entries l)

pub index-last_entry :
    (e : Entry) (es : List Entry) → Follows e es → (last_entry e es).index ≡ e.index + length es
index-last_entry e [] h = omega arith
index-last_entry e (x ∷ xs) h = omega (arith, index-last_entry x xs h.2)

pub term-le-last_entry :
    (e : Entry) (es : List Entry) → Follows e es → e.term ≤ (last_entry e es).term
term-le-last_entry e [] h = omega arith
term-le-last_entry e (x ∷ xs) h = omega (arith, term-le-last_entry x xs h.2)

pub last_entry-append :
    (e : Entry) (es fs : List Entry) → last_entry e (es ++ fs) ≡ last_entry (last_entry e es) fs
last_entry-append e [] fs = refl
last_entry-append e (x ∷ xs) fs = last_entry-append x xs fs

pub Follows-append :
    (e : Entry) (es fs : List Entry)
    → Follows e es
    → Follows (last_entry e es) fs
    → Follows e (es ++ fs)
Follows-append e [] fs h k = k
Follows-append e (x ∷ xs) fs h k = (h.0, h.1, Follows-append x xs fs h.2 k)

pub Follows-take : (n : ℕ) (e : Entry) (es : List Entry) → Follows e es → Follows e (take n es)
Follows-take zero e es h = tt
Follows-take (suc n) e [] h = tt
Follows-take (suc n) e (x ∷ xs) h = (h.0, h.1, Follows-take n x xs h.2)

pub view_in-eq-none :
    (i : ℕ) (e : Entry) (es : List Entry) → Follows e es → i < e.index → view_in i (e ∷ es) ≡ none
unfolding view_in
view_in-eq-none i e [] h lt = ground arith
view_in-eq-none i e (x ∷ xs) h lt = ground (arith, view_in-eq-none i x xs h.2)

-- In a log without gaps the entry of index `i` stands `i - e.index` places behind `e`.
pub view_in-eq-get_elem? :
    (d i : ℕ) (e : Entry) (es : List Entry)
    → Follows e es
    → e.index + d ≡ i
    → view_in i (e ∷ es) ≡ get_elem? (e ∷ es) d
unfolding view_in
view_in-eq-get_elem? zero i e es h k = ground arith
view_in-eq-get_elem? (suc d) i e [] h k = ground arith
view_in-eq-get_elem? (suc d) i e (x ∷ xs) h k = ground (arith, view_in-eq-get_elem? d i x xs h.2)

pub get_elem?-eq-some :
    (d : ℕ) (e : Entry) (es : List Entry)
    → Follows e es
    → d ≤ length es
    → (x : Entry) × (get_elem? (e ∷ es) d ≡ some x)
      × (x.index ≡ e.index + d)
      × (e.term ≤ x.term)
      × (x.term ≤ (last_entry e es).term)
get_elem?-eq-some zero e es h le = (e, refl, omega arith, omega arith, term-le-last_entry e es h)
get_elem?-eq-some (suc d) e [] h le = absurd (omega arith)
get_elem?-eq-some (suc d) e (x ∷ xs) h le =
    let (y, found, at, lo, hi) = get_elem?-eq-some d x xs h.2 (omega arith) in
    (y, found, omega arith, omega arith, hi)

pub index-get_elem? :
    (d : ℕ) (e x : Entry) (es : List Entry)
    → Follows e es
    → get_elem? (e ∷ es) d ≡ some x
    → x.index ≡ e.index + d
index-get_elem? zero e x es h k = ground arith
index-get_elem? (suc d) e x [] h k = cc
index-get_elem? (suc d) e x (y ∷ ys) h k = omega (arith, index-get_elem? d y x ys h.2 k)

-- Only the index and the term of the last entry matter to what follows it.
pub Follows-same :
    (d e : Entry) (es : List Entry)
    → d.index ≡ e.index
    → d.term ≡ e.term
    → Follows d es
    → Follows e es
Follows-same d e [] i t h = tt
Follows-same d e (x ∷ xs) i t h = (omega arith, omega arith, h.2)

pub Follows-drop :
    (d : ℕ) (e x : Entry) (es : List Entry)
    → Follows e es
    → get_elem? (e ∷ es) d ≡ some x
    → Follows x (drop d es)
Follows-drop zero e x es h k = Follows-same e x es (ground arith) (ground arith) h
Follows-drop (suc d) e x [] h k = cc
Follows-drop (suc d) e x (y ∷ ys) h k = Follows-drop d y x ys h.2 k

pub get_elem?-last_entry :
    (e : Entry) (es : List Entry) → get_elem? (e ∷ es) (length es) ≡ some (last_entry e es)
get_elem?-last_entry e [] = refl
get_elem?-last_entry e (x ∷ xs) = get_elem?-last_entry x xs

-- Terms never go down along a log.
pub term_mono :
    (a b : ℕ) (e x y : Entry) (es : List Entry)
    → Follows e es
    → a ≤ b
    → get_elem? (e ∷ es) a ≡ some x
    → get_elem? (e ∷ es) b ≡ some y
    → x.term ≤ y.term
term_mono zero zero e x y es h le p q = ground arith
term_mono zero (suc b) e x y [] h le p q = cc
term_mono zero (suc b) e x y (z ∷ zs) h le p q =
    ground (arith, term_mono zero b z z y zs h.2 (omega arith) refl q)
term_mono (suc a) zero e x y es h le p q = absurd (omega arith)
term_mono (suc a) (suc b) e x y [] h le p q = cc
term_mono (suc a) (suc b) e x y (z ∷ zs) h le p q = term_mono a b z x y zs h.2 (omega arith) p q
