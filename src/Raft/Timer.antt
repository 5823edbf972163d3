-- ===== src/Raft/Timer.antt =====
-- The deadline that `resetElectionTimer` of raft/election.go draws.
mod Tests
use fraud_scoring_platform.Raft.Valid.{IsValid}
use fraud_scoring_platform.Raft.Node.{Config}
use fraud_scoring_platform.Prelude.Int.{leb_ℤ, ltb_ℤ, negsuc, pos, ℤ}
use fraud_scoring_platform.Prelude.{
  ◌∙◌, ap, ◌+◌, true, ◌≤◌, ◌≡◌, ◌-◌, ◌<◌, zero, suc, none, ◌%◌, ltb, some, add64, Option,
  if◌then◌else◌, sub64, ℕ, arith, refl,
}

-- An int64 as the uint64 of the same bits, and back.
abbrev pub to_bits : ℤ → ℕ
to_bits (pos n) = n % 18446744073709551616
to_bits (negsuc n) = 18446744073709551615 - n % 18446744073709551616

abbrev pub of_bits : ℕ → ℤ
of_bits n = if ltb n 9223372036854775808 then pos n else negsuc (18446744073709551615 - n)

-- A time.Duration is an int64.
abbrev pub add_int64 : ℤ → ℤ → ℤ
add_int64 a b = of_bits (add64 (to_bits a) (to_bits b))

abbrev pub sub_int64 : ℤ → ℤ → ℤ
sub_int64 a b = of_bits (sub64 (to_bits a) (to_bits b))

-- rand.Int64N, which panics (none) unless its argument is positive; `draw n` is the number below `n`
-- that is drawn.
abbrev pub draw_below : (ℕ → ℕ) → ℤ → Option ℤ
draw_below draw (negsuc n) = none
draw_below draw (pos zero) = none
draw_below draw (pos (suc n)) = some (pos (draw (suc n)))

abbrev pub add_drawn : ℤ → Option ℤ → Option ℤ
add_drawn least none = none
add_drawn least (some t) = some (add_int64 least t)

-- `timeout`, from the two bounds of the configuration.
unfoldable pub election_timeout : (ℕ → ℕ) → ℤ → ℤ → Option ℤ
election_timeout draw least most = add_drawn least (draw_below draw (sub_int64 most least))

sub_int64-pos :
    (a b : ℕ) → a < b → b < 9223372036854775808 → sub_int64 (pos b) (pos a) ≡ pos (b - a)
unfolding sub64
sub_int64-pos a b lt small = grind arith

add_int64-pos : (a d : ℕ) → a + d < 9223372036854775808 → add_int64 (pos a) (pos d) ≡ pos (a + d)
unfolding add64
add_int64-pos a d small = grind arith

draw_below-pos : (draw : ℕ → ℕ) (n : ℕ) → 0 < n → draw_below draw (pos n) ≡ some (pos (draw n))
draw_below-pos draw zero h = absurd (omega (arith, h))
draw_below-pos draw (suc n) h = refl

draw_between :
    (draw : ℕ → ℕ) (law : (n : ℕ) → 0 < n → draw n < n) (a b : ℕ)
    → a < b
    → b < 9223372036854775808
    → (t : ℕ) × (election_timeout draw (pos a) (pos b) ≡ some (pos t)) × (a ≤ t) × (t < b)
unfolding election_timeout
draw_between draw law a b lt small =
    let below = law (b - a) (omega arith) in
    (
      a + draw (b - a),
      ap (λ z. add_drawn (pos a) (draw_below draw z)) (sub_int64-pos a b lt small)
          ∙ ap (add_drawn (pos a)) (draw_below-pos draw (b - a) (omega arith))
          ∙ ap (λ z. some z) (add_int64-pos a (draw (b - a)) (omega (arith, below))),
      omega arith,
      omega (arith, below),
    )

below_max :
    (draw : ℕ → ℕ) (law : (n : ℕ) → 0 < n → draw n < n) (least most : ℤ)
    → ltb_ℤ (pos 0) least ≡ true
    → ltb_ℤ least most ≡ true
    → ltb_ℤ most (pos 9223372036854775808) ≡ true
    → (t : ℤ) × (election_timeout draw least most ≡ some t)
      × (leb_ℤ least t ≡ true)
      × (ltb_ℤ t most ≡ true)
below_max draw law (pos a) (pos b) low lt small =
    let (t, at, ge, below) =
      draw_between draw law a b (ground (arith, lt)) (ground (arith, small)) in
    (pos t, at, ground (arith, ge), ground (arith, below))
below_max draw law (pos a) (negsuc b) low lt small = ground (arith, lt)
below_max draw law (negsuc a) most low lt small = ground (arith, low)

module _ (draw : ℕ → ℕ) (law : (n : ℕ) → 0 < n → draw n < n) where
  -- For a configuration that `validate` accepts, with a maximal election timeout that is an int64,
  -- and a random number below n whenever one is drawn below n > 0: drawing an election timeout does
  -- not panic, nothing overflows, and the timeout is at least the minimal and below the maximal
  -- one.
  pub election_timeout_lem :
      {D : Type 0} (c : Config D)
      → IsValid c
      → ltb_ℤ c.election_timeout_max (pos 9223372036854775808) ≡ true
      → (t : ℤ) × (election_timeout draw c.election_timeout_min c.election_timeout_max ≡ some t)
        × (leb_ℤ c.election_timeout_min t ≡ true)
        × (ltb_ℤ t c.election_timeout_max ≡ true)
  election_timeout_lem c valid small =
      below_max draw law c.election_timeout_min c.election_timeout_max valid.election_min
        valid.election_max small
