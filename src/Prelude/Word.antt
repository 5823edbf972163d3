-- ===== src/Prelude/Word.antt =====
-- uint64 arithmetic: every result is taken modulo 2 ^ 64.
use Prim.Native.Nat.{ℕ, ◌+◌, ◌-◌, ◌%◌, ◌^◌, ◌≤◌, ◌<◌}
use mathlib.Core.Path.{◌≡◌}
use native.Mathlib.Omega.{arith}

abbrev pub u64_mod : ℕ
u64_mod = 2 ^ 64

unfoldable pub add64 : ℕ → ℕ → ℕ
add64 a b = (a + b) % u64_mod

unfoldable pub inc64 : ℕ → ℕ
inc64 a = (a + 1) % u64_mod

unfoldable pub sub64 : ℕ → ℕ → ℕ
sub64 a b = (a + u64_mod - b) % u64_mod

pub add64-eq-add : (a b : ℕ) → a + b < u64_mod → add64 a b ≡ a + b
unfolding add64
add64-eq-add a b h = omega arith

pub inc64-eq-add : (a : ℕ) → a + 1 < u64_mod → inc64 a ≡ a + 1
unfolding inc64
inc64-eq-add a h = omega arith

pub sub64-eq-sub : (a b : ℕ) → b ≤ a → a < u64_mod → sub64 a b ≡ a - b
unfolding sub64
sub64-eq-sub a b h k = omega arith
