-- ===== src/Prelude/And.antt =====
-- Binary digits of the native numbers: of an intersection, a union and a complement, and equality by
-- digits.
use Prim.Native.Nat.{ℕ, zero, suc, ◌+◌, ◌-◌, ◌*◌, ◌/◌, ◌%◌, ◌^◌, ◌<◌, min, max}
use Prim.Native.Nat.{bit_and, bit_or, bit_and-bitwise}
use mathlib.Core.Path.{◌≡◌, ap, ◌∙◌}
use native.Mathlib.Nat.{pow-suc}
use native.Mathlib.Omega.{arith}
use yumtech_umbrel_apps.Prelude.Digits.{bitwise_step}
use yumtech_umbrel_apps.Prelude.Bits.{bit_or_step}

pub zero-bit_and : (b : ℕ) → bit_and 0 b ≡ 0
zero-bit_and b = bit_and-bitwise 0 b

-- The lowest digit of an intersection, and the rest.
bit_and_step : (a b : ℕ) → bit_and a b ≡ bit_and (a / 2) (b / 2) * 2 + min (a % 2) (b % 2)
bit_and_step a b = omega (
  arith,
  bit_and-bitwise a b,
  bit_and-bitwise (a / 2) (b / 2),
  bitwise_step (λ b. zero) min (λ b. omega arith) a b,
)

-- The digit of a number at a place.
unfoldable pub bit : ℕ → ℕ → ℕ
bit zero n = n % 2
bit (suc i) n = bit i (n / 2)

pub bit-below : (i n : ℕ) → bit i n < 2
unfolding bit
bit-below zero n = omega arith
bit-below (suc i) n = bit-below i (n / 2)

pub bit-bit_and : (i a b : ℕ) → bit i (bit_and a b) ≡ min (bit i a) (bit i b)
unfolding bit
bit-bit_and zero a b = omega (arith, bit_and_step a b)
bit-bit_and (suc i) a b =
    ap (bit i) {y = bit_and (a / 2) (b / 2)} (omega (arith, bit_and_step a b))
    ∙ bit-bit_and i (a / 2) (b / 2)

pub bit-bit_or : (i a b : ℕ) → bit i (bit_or a b) ≡ max (bit i a) (bit i b)
unfolding bit
bit-bit_or zero a b = omega (arith, bit_or_step a b)
bit-bit_or (suc i) a b =
    ap (bit i) {y = bit_or (a / 2) (b / 2)} (omega (arith, bit_or_step a b))
    ∙ bit-bit_or i (a / 2) (b / 2)

pub bit-complement : (i w m : ℕ) → i < w → m < 2 ^ w → bit i (2 ^ w - 1 - m) ≡ 1 - bit i m
unfolding bit
bit-complement i zero m h k = absurd (omega arith)
bit-complement zero (suc w) m h k = omega (arith, pow-suc 2 w)
bit-complement (suc i) (suc w) m h k =
    ap (bit i) {y = 2 ^ w - 1 - m / 2} (omega (arith, pow-suc 2 w, k))
    ∙ bit-complement i w (m / 2) (omega arith) (omega (arith, pow-suc 2 w, k))

pub bit-equal : (w a b : ℕ) → a < 2 ^ w → b < 2 ^ w → ((i : ℕ) → i < w → bit i a ≡ bit i b) → a ≡ b
bit-equal zero a b h k same = omega arith
bit-equal (suc w) a b h k same = omega (
  arith,
  lowest,
  bit-equal w (a / 2) (b / 2) (omega (arith, pow-suc 2 w, h)) (omega (arith, pow-suc 2 w, k)) above,
)
  where
    lowest : a % 2 ≡ b % 2
    lowest = unfold bit in same 0 (omega arith)

    above : (i : ℕ) → i < w → bit i (a / 2) ≡ bit i (b / 2)
    above i l = unfold bit in same (suc i) (omega arith)

pub bit_and-below : (w a b : ℕ) → a < 2 ^ w → bit_and a b < 2 ^ w
bit_and-below zero a b h =
    omega (arith, ap (λ t. bit_and t b) {x = a} {y = 0} (omega arith), zero-bit_and b)
bit_and-below (suc w) a b h = omega (
  arith,
  bit_and_step a b,
  bit_and-below w (a / 2) (b / 2) (omega (arith, pow-suc 2 w, h)),
  pow-suc 2 w,
)
