-- ===== src/Base/Words.antt =====
-- Machine words: a w-bit value is a native number, and arithmetic wraps by `%`.
use Prim.Native.Nat.{ℕ, ◌+◌, ◌-◌, ◌%◌, ◌^◌}

-- A conversion to `uint32_t`, and to `uint64_t` or `size_t`.
abbrev pub u32 : ℕ → ℕ
u32 n = n % 2 ^ 32

abbrev pub u64 : ℕ → ℕ
u64 n = n % 2 ^ 64

-- Subtraction of 32-bit words wraps; `-` on ℕ is truncated, so the modulus is added first.
abbrev pub sub_u32 : ℕ → ℕ → ℕ
sub_u32 a b = (a + 2 ^ 32 - b) % 2 ^ 32
