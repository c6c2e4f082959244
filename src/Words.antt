-- ===== src/Words.antt =====
-- Unsigned 64-bit arithmetic: `std::uint_fast64_t`, `std::uint_least64_t` and `std::size_t`.
use arataga.Prelude.{ℕ, suc, ◌+◌, ◌-◌, ◌%◌, ◌<◌, ◌≡◌, arith}

abbrev pub u64_mod : ℕ
u64_mod = 18446744073709551616

-- `a + b`, with its wrap-around.
unfoldable pub add64 : ℕ → ℕ → ℕ
add64 a b = (a + b) % u64_mod

-- `a - b`, with its wrap-around.
unfoldable pub sub64 : ℕ → ℕ → ℕ
sub64 a b = (a + u64_mod - b) % u64_mod

pub add64_lem : (a b : ℕ) → a + b < u64_mod → add64 a b ≡ a + b
unfolding add64
add64_lem a b h = omega arith

pub add64_lt : (a b : ℕ) → add64 a b < u64_mod
unfolding add64
add64_lt a b = omega arith

pub sub64_lem : (a b : ℕ) → b < suc a → a < u64_mod → sub64 a b ≡ a - b
unfolding sub64
sub64_lem a b h k = omega arith
