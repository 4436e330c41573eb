-- ===== src/Base/Words.antt =====
-- The machine words of the source: `uint` has 32 bits, `uint64` 64.
use Prim.Native.Nat.{ℕ, ◌+◌, ◌-◌, ◌%◌, ◌^◌}

abbrev pub u32 : ℕ
u32 = 2 ^ 32

abbrev pub u64 : ℕ
u64 = 2 ^ 64

-- `a + b` and `a - b` of two `uint`s, which wrap.
abbrev pub add32 : ℕ → ℕ → ℕ
add32 a b = (a + b) % u32

abbrev pub sub32 : ℕ → ℕ → ℕ
sub32 a b = (a + u32 - b) % u32

-- `a + b` of two `uint64`s, which wraps.
abbrev pub add64 : ℕ → ℕ → ℕ
add64 a b = (a + b) % u64
