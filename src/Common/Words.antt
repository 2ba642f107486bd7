-- ===== src/Common/Words.antt =====
-- Go's unsigned arithmetic: `uint32` sums and differences wrap around.
use Prim.Native.Nat.{ℕ, ◌+◌, ◌-◌, ◌*◌, ◌%◌, ◌≤◌, ◌<◌}
use mathlib.Core.Path.{◌≡◌}
use native.Mathlib.Omega.{arith}

abbrev pub u32_size : ℕ
u32_size = 4294967296

unfoldable pub add32 : ℕ → ℕ → ℕ
add32 a b = (a + b) % u32_size

unfoldable pub sub32 : ℕ → ℕ → ℕ
sub32 a b = (a + u32_size - b) % u32_size

unfoldable pub mul32 : ℕ → ℕ → ℕ
mul32 a b = (a * b) % u32_size

pub add32-exact : (a b : ℕ) → a + b < u32_size → add32 a b ≡ a + b
unfolding add32
add32-exact a b h = omega arith

pub sub32-exact : (a b : ℕ) → b ≤ a → a < u32_size → sub32 a b ≡ a - b
unfolding sub32
sub32-exact a b h k = omega arith

pub add32-lt : (a b : ℕ) → add32 a b < u32_size
unfolding add32
add32-lt a b = omega arith

pub mul32-exact : (a b : ℕ) → a * b < u32_size → mul32 a b ≡ a * b
unfolding mul32
mul32-exact a b h = omega arith
