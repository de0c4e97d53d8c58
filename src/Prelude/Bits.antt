-- ===== src/Prelude/Bits.antt =====
-- The bit operations of the native numbers as arithmetic, at every width.
use Prim.Native.Nat.{ℕ, zero, suc, ◌+◌, ◌*◌, ◌/◌, ◌%◌, ◌^◌, ◌≤◌, ◌<◌, max}
use Prim.Native.Nat.{bit_or, bit_or-bitwise}
use mathlib.Core.Path.{◌≡◌, refl, ap}
use native.Mathlib.Nat.{pow-suc}
use native.Mathlib.Omega.{arith}
use yumtech_umbrel_apps.Prelude.Digits.{bitwise_step}

pub zero-bit_or : (b : ℕ) → bit_or 0 b ≡ b
zero-bit_or b = bit_or-bitwise 0 b

-- The lowest digit of a union, and the rest.
pub bit_or_step : (a b : ℕ) → bit_or a b ≡ bit_or (a / 2) (b / 2) * 2 + max (a % 2) (b % 2)
bit_or_step a b = omega (
  arith,
  bit_or-bitwise a b,
  bit_or-bitwise (a / 2) (b / 2),
  bitwise_step (λ b. b) max (λ b. omega arith) a b,
)

mul-two_pow_suc : (b k : ℕ) → b * 2 ^ suc k ≡ 2 * (b * 2 ^ k)
mul-two_pow_suc b k = omega (arith, ap (λ (t : ℕ). b * t) (pow-suc 2 k))

-- The union of a field of `k` bits with bits above it is their sum.
pub bit_or_add : (k a b : ℕ) → a < 2 ^ k → bit_or a (b * 2 ^ k) ≡ a + b * 2 ^ k
bit_or_add zero zero b h = omega (arith, zero-bit_or (b * 2 ^ 0))
bit_or_add zero (suc a) b h = absurd (omega arith)
bit_or_add (suc k) a b h = omega (
  arith,
  bit_or_step a (b * 2 ^ suc k),
  mul-two_pow_suc b k,
  pow-suc 2 k,
  halved,
  bit_or_add k (a / 2) b (omega (arith, pow-suc 2 k)),
)
  where
    halved : bit_or (a / 2) (b * 2 ^ suc k / 2) ≡ bit_or (a / 2) (b * 2 ^ k)
    halved = ap (bit_or (a / 2)) (omega (arith, mul-two_pow_suc b k))

bit_or-zero_fuel : (n a : ℕ) → a ≤ n → bit_or a 0 ≡ a
bit_or-zero_fuel n zero h = refl
bit_or-zero_fuel zero (suc a) h = absurd (omega arith)
bit_or-zero_fuel (suc n) (suc a) h =
    omega (arith, bit_or_step (suc a) 0, bit_or-zero_fuel n (suc a / 2) (omega arith))

-- The same with the upper bits first.
pub bit_or_add_high : (k a b : ℕ) → a < 2 ^ k → bit_or (b * 2 ^ k) a ≡ b * 2 ^ k + a
bit_or_add_high zero zero b h =
    omega (arith, bit_or-zero_fuel (b * 2 ^ 0) (b * 2 ^ 0) (omega arith))
bit_or_add_high zero (suc a) b h = absurd (omega arith)
bit_or_add_high (suc k) a b h = omega (
  arith,
  bit_or_step (b * 2 ^ suc k) a,
  mul-two_pow_suc b k,
  pow-suc 2 k,
  halved,
  bit_or_add_high k (a / 2) b (omega (arith, pow-suc 2 k)),
)
  where
    halved : bit_or (b * 2 ^ suc k / 2) (a / 2) ≡ bit_or (b * 2 ^ k) (a / 2)
    halved = ap (λ (t : ℕ). bit_or t (a / 2)) (omega (arith, mul-two_pow_suc b k))
