-- ===== src/Address/BigNumber/Decoded.antt =====
-- `base58_decode` from the leading ones to the bytes: the number of the digits, or a bad character.
use yumtech_umbrel_apps.Prelude.{
  ℕ, zero, suc, ◌+◌, ◌*◌, ◌/◌, ◌^◌, ◌<◌, ◌≤◌, ◌≡◌, refl, sym, subst, ap, ◌∙◌, inl, inr, true, [],
  ◌∷◌, ◌++◌, Option, none, some, length, drop, replicate, All, leb, leb→le, ◌==◌, ==_iff,
  Bool-cases, Option-cases, length-append, length-drop, arith,
}
use mathlib.Core.List.{reverse, reverse-cons}
use native.Mathlib.Nat.{pow-suc, pow-le-pow_right}
use yumtech_umbrel_apps.Prelude.Texts.{Text}
use yumtech_umbrel_apps.Prelude.Tables.{every_below, every_below-lookup}
use yumtech_umbrel_apps.Address.{Bytes, bad_character, expected, unexpected}
use yumtech_umbrel_apps.Address.Regroup.{number}
use yumtech_umbrel_apps.Address.Base58.{
  index_of, leading_ones, accumulate, skip_zeros, base58_decode,
}
use yumtech_umbrel_apps.Address.BigNumber.{
  base58_digits, cons_digit, le_number, Outcome, accumulate-Outcome,
}

le_number-replicate : (n : ℕ) → le_number (replicate n 0) ≡ 0
unfolding le_number
le_number-replicate zero = refl
le_number-replicate (suc n) = omega (arith, le_number-replicate n)

replicate-bytes : (n : ℕ) → All (λ b. b < 256) (replicate n 0)
replicate-bytes zero = tt
replicate-bytes (suc n) = (omega arith, replicate-bytes n)

number-append_one : (xs : Bytes) (y : ℕ) → number 256 (xs ++ (y ∷ [])) ≡ number 256 xs * 256 + y
unfolding number
number-append_one [] y = omega arith
number-append_one (x ∷ xs) y = omega (
  arith,
  number-append_one xs y,
  length-append xs (y ∷ []),
  ap (λ n. x * 256 ^ n) (length-append xs (y ∷ [])),
  ap (λ n. x * 256 ^ n) {x = length xs + 1} {y = suc (length xs)} (omega arith),
  ap (λ t. x * t) (pow-suc 256 (length xs)),
)

number-reverse : (bs : Bytes) → number 256 (reverse bs) ≡ le_number bs
unfolding number le_number
number-reverse [] = refl
number-reverse (b ∷ bs) =
    rw reverse-cons (omega (arith, number-append_one (reverse bs) b, number-reverse bs))

number-skip_zeros : (bs : Bytes) → number 256 (skip_zeros bs) ≡ number 256 bs
unfolding number skip_zeros
number-skip_zeros [] = refl
number-skip_zeros (b ∷ bs) = elim (Bool-cases (b == 0)) [
  | inl z ↦ rw z (
      omega (
        arith,
        number-skip_zeros bs,
        (==_iff b 0).0 z,
        ap (λ t. t * 256 ^ length bs) ((==_iff b 0).0 z),
      ))
  | inr k ↦ rw k refl
]

number-zeros : (n : ℕ) (bs : Bytes) → number 256 (replicate n 0 ++ bs) ≡ number 256 bs
unfolding number
number-zeros zero bs = refl
number-zeros (suc n) bs = omega (arith, number-zeros n bs)

-- The leading ones are zeros.
Same : Option Bytes → Option Bytes → Type 0
Same none none = Unit {0}
Same none (some es) = ⊥
Same (some ds) none = ⊥
Same (some ds) (some es) = number 58 ds ≡ number 58 es

Same-refl : (ds : Option Bytes) → Same ds ds
unfolding Same
Same-refl none = tt
Same-refl (some ds) = refl

zero-Same : (ds es : Option Bytes) → Same ds es → Same (cons_digit 0 ds) es
unfolding Same number
zero-Same none none h = tt
zero-Same none (some es) h = h
zero-Same (some ds) none h = h
zero-Same (some ds) (some es) h = omega (arith, h)

digits-one : (s : Text) → base58_digits (b'1' ∷ s) ≡ cons_digit 0 (base58_digits s)
unfolding base58_digits index_of
digits-one s = refl

leading_ones-Same : (s : Text) → Same (base58_digits s) (base58_digits (drop (leading_ones s) s))
unfolding leading_ones
leading_ones-Same [] = Same-refl (base58_digits [])
leading_ones-Same (c ∷ s) = elim (Bool-cases (c == b'1')) [
  | inl one ↦ rw one (
      subst (λ d. Same (base58_digits (d ∷ s)) (base58_digits (drop (leading_ones s) s)))
        (sym ((==_iff c b'1').0 one))
        (rw digits-one (
          zero-Same (base58_digits s) (base58_digits (drop (leading_ones s) s))
            (leading_ones-Same s))))
  | inr other ↦ rw other (Same-refl (base58_digits (c ∷ s)))
]

length-replicate : (n : ℕ) → length (replicate {A = ℕ} n 0) ≡ n
length-replicate zero = refl
length-replicate (suc n) = ap suc (length-replicate n)

room_table : every_below 129 (λ n. leb (58 ^ n) (256 ^ (n * 733 / 1000 + 1))) ≡ true
unfolding every_below
room_table = refl

fits :
    (s : Text)
    → length s ≤ 128
    → (le_number (replicate (length s * 733 / 1000 + 1) 0) + 1)
        * 58 ^ length (drop (leading_ones s) s)
      ≤ 256 ^ length (replicate {A = ℕ} (length s * 733 / 1000 + 1) 0)
fits s h =
    rw (le_number-replicate, length-replicate)
      (omega (
        arith,
        leb→le (58 ^ length s) (256 ^ (length s * 733 / 1000 + 1))
            (every_below-lookup 129 _ room_table (length s) (omega arith)),
        pow-le-pow_right {n = 58} (omega arith) {i = length (drop (leading_ones s) s)}
            {j = length s} (omega (arith, length-drop (leading_ones s) s)),
      ))

bytes-append :
    (xs ys : Bytes) → All (λ b. b < 256) xs → All (λ b. b < 256) ys → All (λ b. b < 256) (xs ++ ys)
bytes-append [] ys v w = w
bytes-append (x ∷ xs) ys (h, v) w = (h, bytes-append xs ys v w)

bytes-reverse : (xs : Bytes) → All (λ b. b < 256) xs → All (λ b. b < 256) (reverse xs)
bytes-reverse [] v = tt
bytes-reverse (x ∷ xs) (h, v) =
    rw reverse-cons (bytes-append (reverse xs) (x ∷ []) (bytes-reverse xs v) (h, tt))

bytes-skip_zeros : (xs : Bytes) → All (λ b. b < 256) xs → All (λ b. b < 256) (skip_zeros xs)
unfolding skip_zeros
bytes-skip_zeros [] v = tt
bytes-skip_zeros (x ∷ xs) (h, v) = elim (Bool-cases (x == 0)) [
  | inl z ↦ rw z (bytes-skip_zeros xs v)
  | inr k ↦ rw k (h, v)
]

-- What the loop gives for the text behind the leading ones.
loop-Outcome :
    (s : Text)
    → length s ≤ 128
    → Outcome
        (base58_digits (drop (leading_ones s) s))
        (replicate (length s * 733 / 1000 + 1) 0)
        (accumulate (drop (leading_ones s) s) (replicate (length s * 733 / 1000 + 1) 0))
loop-Outcome s h = accumulate-Outcome _ _ (replicate-bytes _) (fits s h)

-- A text of at most 128 characters, all of them in the alphabet, is read as the bytes of the number
-- that its digits spell.
pub base58_decode-number :
    (s : Text) (ds : Bytes)
    → length s ≤ 128
    → base58_digits s ≡ some ds
    → (out : Bytes) × (base58_decode s ≡ expected out)
      × (number 256 out ≡ number 58 ds)
      × All (λ b. b < 256) out
unfolding base58_decode Outcome Same
base58_decode-number s ds h e = elim (Option-cases (base58_digits (drop (leading_ones s) s))) [
  | inl bad ↦ absurd (rw (e, bad) at (leading_ones-Same s))
  | inr (es, good) ↦
      let same : number 58 ds ≡ number 58 es = rw (e, good) at (leading_ones-Same s) in
      let (b256, read, k) = rw good at (loop-Outcome s h) in
      (
        replicate (leading_ones s) 0 ++ skip_zeros (reverse b256),
        rw (read, base58_decode) refl,
        number-zeros (leading_ones s) (skip_zeros (reverse b256))
            ∙ number-skip_zeros (reverse b256)
            ∙ number-reverse b256
            ∙ omega (
              arith,
              k.value,
              le_number-replicate (length s * 733 / 1000 + 1),
              ap (λ t. t * 58 ^ length es) (le_number-replicate (length s * 733 / 1000 + 1)),
              same,
            ),
        bytes-append (replicate (leading_ones s) 0) (skip_zeros (reverse b256))
            (replicate-bytes (leading_ones s))
            (bytes-skip_zeros (reverse b256) (bytes-reverse b256 k.bytes)),
      )
]

-- A text of at most 128 characters with one that is not in the alphabet is refused for that, never
-- for its size.
pub base58_decode-bad_character :
    (s : Text)
    → length s ≤ 128
    → base58_digits s ≡ none
    → base58_decode s ≡ unexpected bad_character
unfolding base58_decode Outcome Same
base58_decode-bad_character s h e = elim (Option-cases (base58_digits (drop (leading_ones s) s))) [
  | inl bad ↦ rw (rw bad at (loop-Outcome s h), base58_decode) refl
  | inr (es, good) ↦ absurd (rw (e, good) at (leading_ones-Same s))
]
