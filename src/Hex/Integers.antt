-- ===== src/Hex/Integers.antt =====
-- `int_to_hex` prints a number in fixed width; `std::from_chars` in base 16 reads it back.
use native.Mathlib.Nat.{mod-add-div', div-div-eq-div-mul, pow-suc}
use yumtech_umbrel_apps.Prelude.{
  ℕ, zero, suc, ◌+◌, ◌*◌, ◌/◌, ◌%◌, ◌^◌, ◌<◌, ◌≡◌, ap, ◌∙◌, Bool, true, false, [], ◌∷◌, Option,
  none, some, length, if◌then◌else◌, arith,
}
use yumtech_umbrel_apps.Hex.{Text, hex_digit, hex_nibble, int_to_hex_loop, int_to_hex}
use yumtech_umbrel_apps.Hex.RoundTrip.{hex_nibble-hex_digit}

-- The number that a text begins with in base 16: the longest run of digits counts, and it may not be
-- empty. It is that of `std::from_chars` on at most eight characters, which fit a `uint32_t`.
unfoldable pub from_chars_loop : Text → Bool → ℕ → Option ℕ
from_chars_loop [] started v = if started then some v else none
from_chars_loop (c ∷ s) started v = elim (hex_nibble c) [
  | none ↦ if started then some v else none
  | some n ↦ from_chars_loop s true (v * 16 + n)
]

unfoldable pub from_chars : Text → Option ℕ
unfolding from_chars_loop
from_chars s = from_chars_loop s false 0

pub length-int_to_hex_loop : (n v : ℕ) (s : Text) → length (int_to_hex_loop n v s) ≡ n + length s
unfolding int_to_hex_loop
length-int_to_hex_loop zero v s = omega arith
length-int_to_hex_loop (suc i) v s =
    omega (arith, length-int_to_hex_loop i (v / 2 ^ 4) (hex_digit (v % 16) ∷ s))

from_chars_loop-digit :
    (n : ℕ) (s : Text) (b : Bool) (a : ℕ)
    → n < 16
    → from_chars_loop (hex_digit n ∷ s) b a ≡ from_chars_loop s true (a * 16 + n)
unfolding from_chars_loop
from_chars_loop-digit n s b a h = rw (hex_nibble-hex_digit n h, from_chars_loop)

mod_split : (v k : ℕ) → v / 2 ^ 4 % k * 16 + v % 16 ≡ v % (k * 16)
mod_split v k = omega (
  arith,
  mod-add-div' (v / 16) k,
  mod-add-div' v (k * 16),
  ap (λ (t : ℕ). t * (k * 16))
      (div-div-eq-div-mul v 16 k ∙ ap (λ (t : ℕ). v / t) {x = 16 * k} {y = k * 16} (omega arith)),
)

abbrev started_by : ℕ → Bool → Bool
started_by zero b = b
started_by (suc n) b = true

from_chars_loop-int_to_hex_loop :
    (n v : ℕ) (s : Text) (b : Bool) (a : ℕ)
    → from_chars_loop (int_to_hex_loop n v s) b a
      ≡ from_chars_loop s (started_by n b) (a * 16 ^ n + v % 16 ^ n)
unfolding int_to_hex_loop
from_chars_loop-int_to_hex_loop zero v s b a =
    ap (from_chars_loop s b) {y = a * 16 ^ 0 + v % 16 ^ 0} (omega arith)
from_chars_loop-int_to_hex_loop (suc i) v s b a =
    from_chars_loop-int_to_hex_loop i (v / 2 ^ 4) (hex_digit (v % 16) ∷ s) b a
    ∙ from_chars_loop-digit (v % 16) s _ _ (omega arith)
    ∙ ap (from_chars_loop s true) sum
  where
    sum : (a * 16 ^ i + v / 2 ^ 4 % 16 ^ i) * 16 + v % 16 ≡ a * 16 ^ suc i + v % 16 ^ suc i
    sum = rw (pow-suc 16 i) (omega (arith, mod_split v (16 ^ i)))

-- The eight digits of `int_to_hex` are read back by `std::from_chars` as the number, if it has at most
-- 32 bits.
pub from_chars-int_to_hex : (v : ℕ) → v < 2 ^ 32 → from_chars (int_to_hex v 8) ≡ some v
unfolding from_chars int_to_hex
from_chars-int_to_hex v h = from_chars_loop-int_to_hex_loop 8 v [] false 0 ∙ ap some (omega arith)
