-- ===== src/Base/Word.antt =====
-- Unsigned 64-bit arithmetic of a release build, which wraps.
use Prim.Native.Nat.{ℕ, ◌+◌, ◌-◌, ◌%◌, ◌^◌, ◌<◌}

-- `a + b` on u64
abbrev pub add64 : ℕ → ℕ → ℕ
add64 a b = (a + b) % 2 ^ 64

-- `a - b` on u64
abbrev pub sub64 : ℕ → ℕ → ℕ
sub64 a b = (a + 2 ^ 64 - b) % 2 ^ 64

-- the numbers that a u64 holds
abbrev pub IsU64 : ℕ → Type 0
IsU64 n = n < 2 ^ 64

-- `a + b` and `a - b` on usize, which has 32 bits in WebAssembly
abbrev pub add_usize : ℕ → ℕ → ℕ
add_usize a b = (a + b) % 2 ^ 32

abbrev pub sub_usize : ℕ → ℕ → ℕ
sub_usize a b = (a + 2 ^ 32 - b) % 2 ^ 32
