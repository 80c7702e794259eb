-- ===== src/Base/Words.antt =====
-- Bytes and machine words: ranges, and the subtraction of `std::size_t`.
use Prim.Native.Nat.{ℕ, ◌+◌, ◌-◌, ◌%◌, ◌^◌, ◌≤◌, ◌<◌}
use mathlib.Core.Path.{◌≡◌}
use native.Mathlib.Omega.{arith}

abbrev pub IsByte : ℕ → Type 0
IsByte b = b < 256

abbrev pub IsU32 : ℕ → Type 0
IsU32 v = v < 2 ^ 32

abbrev pub IsU64 : ℕ → Type 0
IsU64 v = v < 2 ^ 64

-- `a - b`, `a + b` and `a * b` on 64-bit unsigned integers, which wrap around.
unfoldable pub sub64 : ℕ → ℕ → ℕ
sub64 a b = (a + 2 ^ 64 - b) % 2 ^ 64

unfoldable pub add64 : ℕ → ℕ → ℕ
add64 a b = (a + b) % 2 ^ 64

-- Where the difference is not negative, nothing wraps.
pub sub64_exact : (a b : ℕ) → b ≤ a → IsU64 a → sub64 a b ≡ a - b
unfolding sub64
sub64_exact a b h w = omega arith

pub add64_exact : (a b : ℕ) → IsU64 (a + b) → add64 a b ≡ a + b
unfolding add64
add64_exact a b w = omega arith
