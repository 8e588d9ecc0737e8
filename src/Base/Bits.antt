-- ===== src/Base/Bits.antt =====
-- Exclusive or with one bit, at the top of a word, as arithmetic.
use Prim.Native.Nat.{
  ℕ, zero, suc, ◌+◌, ◌*◌, ◌/◌, ◌%◌, ◌^◌, ◌≤◌, ◌<◌, bit_xor, digits, differ, bit_xor-bitwise,
}
use mathlib.Core.Path.{◌≡◌, refl}
use mathlib.Core.Logic.{◌⊎◌, inl, inr}
use native.Mathlib.Nat.{pow-suc}
use native.Mathlib.Omega.{arith}

abbrev xor_digits : ℕ → ℕ → ℕ → ℕ
xor_digits n a b = digits (λ b. b) differ n a b

xor_digits_fuel : (n m a b : ℕ) → a ≤ n → a ≤ m → xor_digits n a b ≡ xor_digits m a b
xor_digits_fuel zero zero a b p q = refl
xor_digits_fuel zero (suc m) zero b p q = refl
xor_digits_fuel zero (suc m) (suc a) b p q = absurd (omega arith)
xor_digits_fuel (suc n) zero zero b p q = refl
xor_digits_fuel (suc n) zero (suc a) b p q = absurd (omega arith)
xor_digits_fuel (suc n) (suc m) zero b p q = refl
xor_digits_fuel (suc n) (suc m) (suc a) b p q =
    omega (arith, xor_digits_fuel n m (suc a / 2) (b / 2) (omega arith) (omega arith))

zero-bit_xor : (b : ℕ) → bit_xor 0 b ≡ b
zero-bit_xor b = bit_xor-bitwise 0 b

bit_xor_step : (a b : ℕ) → bit_xor a b ≡ bit_xor (a / 2) (b / 2) * 2 + differ (a % 2) (b % 2)
bit_xor_step zero b = omega (arith, zero-bit_xor b, zero-bit_xor (b / 2))
bit_xor_step (suc a) b = omega (
  arith,
  bit_xor-bitwise (suc a) b,
  bit_xor-bitwise (suc a / 2) (b / 2),
  xor_digits_fuel a (suc a / 2) (suc a / 2) (b / 2) (omega arith) (omega arith),
)

differ-zero : (r : ℕ) → r < 2 → differ r 0 ≡ r
differ-zero zero h = refl
differ-zero (suc zero) h = refl
differ-zero (suc (suc r)) h = absurd (omega arith)

-- Flipping the top bit of a word adds it where it is clear, and takes it away where it is set.
pub bit_xor_top :
    (k x : ℕ)
    → x < 2 ^ suc k
    → (x < 2 ^ k) × (bit_xor x (2 ^ k) ≡ x + 2 ^ k) ⊎ (2 ^ k ≤ x) × (bit_xor x (2 ^ k) + 2 ^ k ≡ x)
bit_xor_top zero zero h = inl (omega arith, refl)
bit_xor_top zero (suc zero) h = inr (omega arith, refl)
bit_xor_top zero (suc (suc x)) h = absurd (omega arith)
bit_xor_top (suc k) x h = elim (bit_xor_top k (x / 2) (omega (arith, pow-suc 2 (suc k)))) [
  | inl (low, e) ↦ inl (omega (arith, pow-suc 2 k), omega (arith, step, pow-suc 2 k, tail))
  | inr (high, e) ↦ inr (omega (arith, pow-suc 2 k), omega (arith, step, pow-suc 2 k, tail))
]
  where
    tail : differ (x % 2) 0 ≡ x % 2
    tail = differ-zero (x % 2) (omega arith)

    halved : 2 ^ suc k / 2 ≡ 2 ^ k
    halved = omega (arith, pow-suc 2 k)

    even : 2 ^ suc k % 2 ≡ 0
    even = omega (arith, pow-suc 2 k)

    step : bit_xor x (2 ^ suc k) ≡ bit_xor (x / 2) (2 ^ k) * 2 + differ (x % 2) 0
    step = rw (bit_xor_step x (2 ^ suc k), halved, even) refl
