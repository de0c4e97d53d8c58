-- ===== src/Prelude/Digits.antt =====
-- The recursion on binary digits that the bit operations stand for: one step of it, for any operation
-- on two digits.
use Prim.Native.Nat.{ℕ, zero, suc, ◌+◌, ◌*◌, ◌/◌, ◌%◌, ◌≤◌, digits, bitwise}
use mathlib.Core.Path.{◌≡◌, refl, sym, ap, ◌∙◌}
use native.Mathlib.Omega.{arith}

module _ (run_out : ℕ → ℕ) (on_digits : ℕ → ℕ → ℕ) where
  digits-zero : (fuel b : ℕ) → digits run_out on_digits fuel 0 b ≡ run_out b
  digits-zero zero b = refl
  digits-zero (suc fuel) b = refl

  -- Any fuel that is not below the first number gives the same.
  digits_any :
      (a b fuel other : ℕ)
      → a ≤ fuel
      → a ≤ other
      → digits run_out on_digits fuel a b ≡ digits run_out on_digits other a b
  digits_any zero b fuel other h k = digits-zero fuel b ∙ sym (digits-zero other b)
  digits_any (suc a) b zero other h k = absurd (omega arith)
  digits_any (suc a) b (suc fuel) zero h k = absurd (omega arith)
  digits_any (suc a) b (suc fuel) (suc other) h k =
      ap (λ t. t * 2 + on_digits (suc a % 2) (b % 2))
        (digits_any (suc a / 2) (b / 2) fuel other (omega arith) (omega arith))

  -- The lowest digit, and the rest, if what is left when the first number has run out keeps to it.
  pub bitwise_step :
      ((b : ℕ) → run_out b ≡ run_out (b / 2) * 2 + on_digits 0 (b % 2))
      → (a b : ℕ)
      → bitwise run_out on_digits a b
        ≡ bitwise run_out on_digits (a / 2) (b / 2) * 2 + on_digits (a % 2) (b % 2)
  bitwise_step law zero b = law b
  bitwise_step law (suc a) b =
      ap (λ t. t * 2 + on_digits (suc a % 2) (b % 2))
        (digits_any (suc a / 2) (b / 2) a (suc a / 2) (omega arith) (omega arith))
