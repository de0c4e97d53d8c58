-- ===== src/Prelude/Xor.antt =====
-- Exclusive or of the native numbers: cancellation, size, and fields of bits.
use Prim.Native.Nat.{ℕ, zero, suc, ◌+◌, ◌*◌, ◌/◌, ◌%◌, ◌^◌, ◌≤◌, ◌<◌}
use Prim.Native.Nat.{bit_xor, differ, bit_xor-bitwise}
use mathlib.Core.Path.{◌≡◌, refl, ap, ap₂, ◌∙◌}
use native.Mathlib.Nat.{pow-suc}
use native.Mathlib.Omega.{arith}
use yumtech_umbrel_apps.Prelude.Digits.{bitwise_step}

differ-sum : (x y : ℕ) → x < 2 → y < 2 → differ x y ≡ (x + y) % 2
differ-sum zero y h k = omega arith
differ-sum (suc zero) zero h k = refl
differ-sum (suc zero) (suc zero) h k = refl
differ-sum (suc zero) (suc (suc y)) h k = absurd (omega arith)
differ-sum (suc (suc x)) y h k = absurd (omega arith)

pub zero-bit_xor : (b : ℕ) → bit_xor 0 b ≡ b
zero-bit_xor b = bit_xor-bitwise 0 b

-- The lowest digit, and the rest.
pub bit_xor_step : (a b : ℕ) → bit_xor a b ≡ bit_xor (a / 2) (b / 2) * 2 + (a % 2 + b % 2) % 2
bit_xor_step a b = omega (
  arith,
  bit_xor-bitwise a b,
  bit_xor-bitwise (a / 2) (b / 2),
  bitwise_step (λ b. b) differ
      (λ b. omega (arith, differ-sum 0 (b % 2) (omega arith) (omega arith))) a b,
  differ-sum (a % 2) (b % 2) (omega arith) (omega arith),
)

xor_zero_fuel : (n a : ℕ) → a ≤ n → bit_xor a 0 ≡ a
xor_zero_fuel zero a h = ap (λ t. bit_xor t 0) {y = 0} (omega arith) ∙ zero-bit_xor 0 ∙ omega arith
xor_zero_fuel (suc n) a h = omega (arith, bit_xor_step a 0, xor_zero_fuel n (a / 2) (omega arith))

pub bit_xor-zero : (a : ℕ) → bit_xor a 0 ≡ a
bit_xor-zero a = xor_zero_fuel a a (omega arith)

cancel_fuel : (n a b c : ℕ) → a ≤ n → b ≤ n → bit_xor a c ≡ bit_xor b c → a ≡ b
cancel_fuel zero a b c h k e = omega arith
cancel_fuel (suc n) a b c h k e = omega (
  arith,
  cancel_fuel n (a / 2) (b / 2) (c / 2) (omega arith) (omega arith) halves,
  bit_xor_step a c,
  bit_xor_step b c,
  e,
)
  where
    halves : bit_xor (a / 2) (c / 2) ≡ bit_xor (b / 2) (c / 2)
    halves = omega (arith, bit_xor_step a c, bit_xor_step b c, e)

pub bit_xor_cancel : (a b c : ℕ) → bit_xor a c ≡ bit_xor b c → a ≡ b
bit_xor_cancel a b c e = cancel_fuel (a + b) a b c (omega arith) (omega arith) e

same-bit_xor : (a b c d : ℕ) → a ≡ b → c ≡ d → bit_xor a c ≡ bit_xor b d
same-bit_xor a b c d e f = ap₂ bit_xor e f

-- Fields of `k` bits are combined apart from what stands above them.
pub bit_xor_fields :
    (k a1 a0 b1 b0 : ℕ)
    → a0 < 2 ^ k
    → b0 < 2 ^ k
    → (bit_xor (a1 * 2 ^ k + a0) (b1 * 2 ^ k + b0) ≡ bit_xor a1 b1 * 2 ^ k + bit_xor a0 b0)
      × (bit_xor a0 b0 < 2 ^ k)
bit_xor_fields zero a1 a0 b1 b0 h k = (
  same-bit_xor (a1 * 2 ^ 0 + a0) a1 (b1 * 2 ^ 0 + b0) b1 (omega arith) (omega arith)
      ∙ omega (arith, none'),
  omega (arith, none'),
)
  where
    none' : bit_xor a0 b0 ≡ 0
    none' = same-bit_xor a0 0 b0 0 (omega arith) (omega arith) ∙ zero-bit_xor 0
bit_xor_fields (suc k) a1 a0 b1 b0 h l =
    let (fields, small) =
      bit_xor_fields k a1 (a0 / 2) b1 (b0 / 2) (omega (arith, pow-suc 2 k))
        (omega (arith, pow-suc 2 k)) in
    (
      omega (
        arith,
        bit_xor_step (a1 * 2 ^ suc k + a0) (b1 * 2 ^ suc k + b0),
        bit_xor_step a0 b0,
        halved,
        fields,
        ap (λ t. a1 * t) (pow-suc 2 k),
        ap (λ t. b1 * t) (pow-suc 2 k),
        ap (λ t. bit_xor a1 b1 * t) (pow-suc 2 k),
      ),
      omega (arith, bit_xor_step a0 b0, small, pow-suc 2 k),
    )
  where
    halved :
        bit_xor ((a1 * 2 ^ suc k + a0) / 2) ((b1 * 2 ^ suc k + b0) / 2)
        ≡ bit_xor (a1 * 2 ^ k + a0 / 2) (b1 * 2 ^ k + b0 / 2)
    halved =
        same-bit_xor _ _ _ _ (omega (arith, ap (λ t. a1 * t) (pow-suc 2 k)))
          (omega (arith, ap (λ t. b1 * t) (pow-suc 2 k)))
