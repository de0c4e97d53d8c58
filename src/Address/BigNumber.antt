-- ===== src/Address/BigNumber.antt =====
-- `base58_decode` gives the bytes of the number that its digits spell.
pub mod Decoded
use yumtech_umbrel_apps.Prelude.{
  ℕ, zero, suc, ◌+◌, ◌-◌, ◌*◌, ◌/◌, ◌%◌, ◌^◌, ◌<◌, ◌≤◌, ◌≡◌, refl, sym, subst, ap, ◌∙◌, ◌⊎◌, inl,
  inr, Bool, true, false, ◌&&◌, List, [], ◌∷◌, ◌++◌, Option, none, some, length, drop, replicate,
  All, leb, ltb, leb→le, ◌==◌, ==_iff, if◌then◌else◌, Bool-cases, Option-cases, length-append,
  length-drop, arith,
}
use mathlib.Core.List.{reverse, reverse-cons}
use native.Mathlib.Nat.{pow-suc, mul-le-mul_left, mul-le-mul_right, pow-le-pow_right}
use yumtech_umbrel_apps.Prelude.Texts.{Text}
use yumtech_umbrel_apps.Prelude.Tables.{every_below, every_below-lookup}
use yumtech_umbrel_apps.Address.{Bytes, Error, bad_character, Expected, expected, unexpected}
use yumtech_umbrel_apps.Address.Regroup.{number}
use yumtech_umbrel_apps.Address.Base58.{
  base58_alphabet, index_of, leading_ones, add_digit, accumulate, skip_zeros, base58_decode,
}

-- The digits of a text, if all its characters are in the alphabet.
abbrev pub cons_digit : ℕ → Option Bytes → Option Bytes
cons_digit d none = none
cons_digit d (some ds) = some (d ∷ ds)

unfoldable pub base58_digits : Text → Option Bytes
base58_digits [] = some []
base58_digits (c ∷ s) = elim (index_of c base58_alphabet) [
  | none ↦ none
  | some d ↦ cons_digit d (base58_digits s)
]

-- The number of a list with the lowest byte first.
unfoldable pub le_number : Bytes → ℕ
le_number [] = 0
le_number (b ∷ bs) = b + 256 * le_number bs

pub index_of-below : (c : ℕ) (xs : Text) (i : ℕ) → index_of c xs ≡ some i → i < length xs
unfolding index_of
index_of-below c [] i e = cc
index_of-below c (x ∷ xs) i e = elim (Bool-cases (x == c)) [
  | inl here ↦ ground arith
  | inr on ↦ elim (Option-cases (index_of c xs)) [
    | inl absent ↦ absurd (ground arith)
    | inr (j, found) ↦ ground (arith, index_of-below c xs j found)
  ]
]

pub record Added (carry : ℕ) (bs : Bytes) (out : Bytes) (left : ℕ) : Type 0 where
  same : length out ≡ length bs
  bytes : All (λ b. b < 256) out
  sum : le_number out + left * 256 ^ length bs ≡ carry + 58 * le_number bs

add_digit-Added :
    (carry : ℕ) (bs : Bytes) → let (out, left) = add_digit carry bs in Added carry bs out left
unfolding add_digit le_number
add_digit-Added carry [] = record { same = refl; bytes = tt; sum = omega arith }
add_digit-Added carry (b ∷ bs) =
    let k = add_digit-Added ((carry + 58 * b) / 256) bs in
    let left = (add_digit ((carry + 58 * b) / 256) bs).1 in
    record {
      same = ap suc k.same;
      bytes = (omega arith, k.bytes);
      sum = omega (arith, k.sum, ap (λ t. left * t) (pow-suc 256 (length bs)));
    }

-- With room for the number of every text of this length, the loop reads the digits, or meets a
-- character that is none.
pub record Accumulated (ds b256 out : Bytes) : Type 0 where
  pub bytes : All (λ b. b < 256) out
  pub value : le_number out ≡ le_number b256 * 58 ^ length ds + number 58 ds

unfoldable pub Outcome : Option Bytes → Bytes → Expected Bytes → Type 0
Outcome none b256 r = r ≡ unexpected bad_character
Outcome (some ds) b256 r = (out : Bytes) × (r ≡ expected out) × Accumulated ds b256 out

accumulate_bad :
    (c : ℕ) (s : Text) (b256 : Bytes)
    → index_of c base58_alphabet ≡ none
    → (base58_digits (c ∷ s) ≡ none) × (accumulate (c ∷ s) b256 ≡ unexpected bad_character)
unfolding base58_digits accumulate
accumulate_bad c s b256 e = (rw (e, base58_digits) refl, rw (e, accumulate) refl)

accumulate_good :
    (c d : ℕ) (s : Text) (b256 : Bytes)
    → index_of c base58_alphabet ≡ some d
    → (add_digit d b256).1 ≡ 0
    → (base58_digits (c ∷ s) ≡ cons_digit d (base58_digits s))
      × (accumulate (c ∷ s) b256 ≡ accumulate s (add_digit d b256).0)
unfolding base58_digits accumulate
accumulate_good c d s b256 e z = (rw (e, base58_digits) refl, rw (e, accumulate) (rw z refl))

positive : (m : ℕ) → 0 < 58 ^ m
positive zero = omega arith
positive (suc m) = omega (arith, pow-suc 58 m, positive m)

-- The capacity leaves no carry, and is kept.
capacity :
    (d m before after left room : ℕ)
    → d < 58
    → after + left * room ≡ d + 58 * before
    → (before + 1) * 58 ^ suc m ≤ room
    → (left ≡ 0) × ((after + 1) * 58 ^ m ≤ room)
capacity d m before after zero room hd e h = (
  refl,
  omega (
    arith,
    mul-le-mul_right {m = after + 1} {n = 58 * (before + 1)} (58 ^ m) (omega arith),
    ap (λ t. (before + 1) * t) (pow-suc 58 m),
  ),
)
capacity d m before after (suc left) room hd e h = absurd (
    omega (
      arith,
      mul-le-mul_left {m = 58} {n = 58 ^ suc m} (before + 1)
          (omega (arith, pow-suc 58 m, positive m)),
    ))

cons-Outcome :
    (d : ℕ) (ds : Option Bytes) (b256 next : Bytes) (r : Expected Bytes)
    → le_number next ≡ d + 58 * le_number b256
    → Outcome ds next r
    → Outcome (cons_digit d ds) b256 r
unfolding Outcome number
cons-Outcome d none b256 next r e h = h
cons-Outcome d (some ds) b256 next r e (out, er, k) = (
  out,
  er,
  record {
    bytes = k.bytes;
    value = omega (
      arith,
      k.value,
      ap (λ t. t * 58 ^ length ds) e,
      ap (λ t. le_number b256 * t) (pow-suc 58 (length ds)),
    );
  },
)

pub accumulate-Outcome :
    (s : Text) (b256 : Bytes)
    → All (λ b. b < 256) b256
    → (le_number b256 + 1) * 58 ^ length s ≤ 256 ^ length b256
    → Outcome (base58_digits s) b256 (accumulate s b256)
unfolding base58_digits accumulate number
accumulate-Outcome [] b256 v h =
    unfold Outcome in (b256, refl, record { bytes = v; value = omega arith })
accumulate-Outcome (c ∷ s) b256 v h = elim (Option-cases (index_of c base58_alphabet)) [
  | inl bad ↦ let (ed, ea) = accumulate_bad c s b256 bad in rw (ed, ea) (unfold Outcome in refl)
  | inr (d, found) ↦
      let k = add_digit-Added d b256 in
      let (none', room) =
        capacity d (length s) (le_number b256) (le_number (add_digit d b256).0) (add_digit d b256).1
          (256 ^ length b256) (index_of-below c base58_alphabet d found) k.sum h in
      let (ed, ea) = accumulate_good c d s b256 found none' in
      rw (ed, ea)
        (cons-Outcome d (base58_digits s) b256 (add_digit d b256).0
          (accumulate s (add_digit d b256).0)
          (omega (arith, k.sum, ap (λ t. t * 256 ^ length b256) none'))
          (accumulate-Outcome s (add_digit d b256).0 k.bytes (
            subst (λ n. (le_number (add_digit d b256).0 + 1) * 58 ^ length s ≤ 256 ^ n) (sym k.same)
              room)))
]
