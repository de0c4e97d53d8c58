-- ===== src/Block/Target.antt =====
-- The target that a compact form stands for: `target_from_bits_hex` against its meaning.
use yumtech_umbrel_apps.Prelude.{
  ℕ, zero, suc, ◌+◌, ◌-◌, ◌*◌, ◌/◌, ◌%◌, ◌^◌, ◌<◌, ◌≤◌, ◌≡◌, refl, sym, ap, ◌∙◌, inl, inr, true,
  ◌∷◌, ◌++◌, length, replicate, ltb, ltb→lt, ltb_false→le, le→ltb, ◌==◌, ==_iff, if◌then◌else◌,
  Bool-cases, arith,
}
use native.Mathlib.Nat.{pow-suc}
use yumtech_umbrel_apps.Address.Regroup.{number}
use yumtech_umbrel_apps.Block.{Bytes, put, put_mantissa, expand_target}

replicate-split : (i j : ℕ) → replicate {A = ℕ} (i + j) 0 ≡ replicate i 0 ++ replicate j 0
replicate-split zero j = ap (λ n. replicate n 0) (omega arith)
replicate-split (suc i) j =
    ap (λ n. replicate {A = ℕ} n 0) {x = suc i + j} {y = suc (i + j)} (omega arith)
    ∙ ap (λ t. 0 ∷ t) (replicate-split i j)

put-replicate :
    (i k v : ℕ) (bs : Bytes) → put (i + k) v (replicate i 0 ++ bs) ≡ replicate i 0 ++ put k v bs
unfolding put
put-replicate zero k v bs = ap (λ j. put j v bs) (omega arith)
put-replicate (suc i) k v bs =
    ap (λ j. put j v (0 ∷ (replicate i 0 ++ bs))) {x = suc i + k} {y = suc (i + k)} (omega arith)
    ∙ ap (λ t. 0 ∷ t) (put-replicate i k v bs)

number-zeros : (n : ℕ) (bs : Bytes) → number 256 (replicate n 0 ++ bs) ≡ number 256 bs
unfolding number
number-zeros zero bs = refl
number-zeros (suc n) bs = omega (arith, number-zeros n bs)

number-replicate : (n : ℕ) → number 256 (replicate n 0) ≡ 0
unfolding number
number-replicate zero = refl
number-replicate (suc n) = omega (arith, number-replicate n)

length-replicate : (n : ℕ) → length (replicate {A = ℕ} n 0) ≡ n
length-replicate zero = refl
length-replicate (suc n) = ap suc (length-replicate n)

three-put :
    (i j x y z : ℕ)
    → put (i + 2) x (put (i + 1) y (put i z (replicate (i + (3 + j)) 0)))
      ≡ replicate i 0 ++ (z ∷ y ∷ x ∷ replicate j 0)
unfolding put
three-put i j x y z =
    ap (λ bs. put (i + 2) x (put (i + 1) y (put i z bs)))
      (replicate-split i (3 + j) ∙ ap (λ bs. replicate i 0 ++ bs) (replicate-split 3 j))
    ∙ ap (λ bs. put (i + 2) x (put (i + 1) y bs))
        (ap (λ k. put k z (replicate i 0 ++ (0 ∷ 0 ∷ 0 ∷ replicate j 0))) {x = i} {y = i + 0}
            (omega arith)
          ∙ put-replicate i 0 z (0 ∷ 0 ∷ 0 ∷ replicate j 0))
    ∙ ap (put (i + 2) x) (put-replicate i 1 y (z ∷ 0 ∷ 0 ∷ replicate j 0))
    ∙ put-replicate i 2 x (z ∷ y ∷ 0 ∷ replicate j 0)

-- Three bytes of a mantissa in an array of zeros, with `j` bytes behind them.
put_mantissa-number :
    (i j m : ℕ)
    → m < 2 ^ 24
    → number 256 (put_mantissa i m (replicate (i + (3 + j)) 0)) ≡ m * 256 ^ j
unfolding put_mantissa number
put_mantissa-number i j m h =
    ap (number 256) (three-put i j (m % 256) (m / 2 ^ 8 % 256) (m / 2 ^ 16 % 256))
    ∙ number-zeros i (m / 2 ^ 16 % 256 ∷ m / 2 ^ 8 % 256 ∷ m % 256 ∷ replicate j 0)
    ∙ rw (length-replicate, number-replicate)
        (omega (
          arith,
          ap (λ t. m / 2 ^ 16 % 256 * t) (pow-suc 256 (suc j)),
          ap (λ t. m / 2 ^ 16 % 256 * t) (pow-suc 256 j),
          ap (λ t. m / 2 ^ 8 % 256 * t) (pow-suc 256 j),
          ap (λ t. t * 256 ^ j) digits,
        ))
  where
    digits : m ≡ m / 2 ^ 16 % 256 * 65536 + m / 2 ^ 8 % 256 * 256 + m % 256
    digits = omega arith

shifted-below : (exp mant : ℕ) → exp < 3 → mant < 2 ^ 24 → mant / 2 ^ ((3 - exp) * 8) < 2 ^ 24
shifted-below zero mant h k = omega arith
shifted-below (suc zero) mant h k = omega arith
shifted-below (suc (suc zero)) mant h k = omega arith
shifted-below (suc (suc (suc n))) mant h k = absurd (omega arith)

shifted-zero : (exp mant : ℕ) → exp < 3 → mant ≡ 0 → mant / 2 ^ ((3 - exp) * 8) ≡ 0
shifted-zero zero mant h e = omega arith
shifted-zero (suc zero) mant h e = omega arith
shifted-zero (suc (suc zero)) mant h e = omega arith
shifted-zero (suc (suc (suc n))) mant h e = absurd (omega arith)

meaning-zero :
    (exp mant : ℕ)
    → mant ≡ 0
    → (if ltb exp 3 then mant / 2 ^ ((3 - exp) * 8) else mant * 256 ^ (exp - 3)) ≡ 0
meaning-zero exp mant e = elim (Bool-cases (ltb exp 3)) [
  | inl low ↦ rw low (shifted-zero exp mant (ltb→lt exp 3 low) e)
  | inr high ↦ rw high (omega (arith, ap (λ t. t * 256 ^ (exp - 3)) e))
]

no_mantissa : (exp mant : ℕ) → (mant == 0) ≡ true → expand_target exp mant ≡ replicate 32 0
unfolding expand_target
no_mantissa exp mant z = rw z refl

-- For an exponent of at most 32 bytes and a mantissa of 24 bits, the target is the mantissa moved up
-- by the exponent less three bytes, or down if that is negative.
pub expand_target-number :
    (exp mant : ℕ)
    → exp ≤ 32
    → mant < 2 ^ 24
    → number 256 (expand_target exp mant)
      ≡ (if ltb exp 3 then mant / 2 ^ ((3 - exp) * 8) else mant * 256 ^ (exp - 3))
unfolding expand_target
expand_target-number exp mant h k = elim (Bool-cases (mant == 0)) [
  | inl z ↦
      ap (number 256) (no_mantissa exp mant z)
      ∙ number-replicate 32
      ∙ sym (meaning-zero exp mant ((==_iff mant 0).0 z))
  | inr p ↦ elim (Bool-cases (ltb exp 3)) [
    | inl low ↦
        rw (p, low)
          (put_mantissa-number 29 0 (mant / 2 ^ ((3 - exp) * 8))
              (shifted-below exp mant (ltb→lt exp 3 low) k)
            ∙ omega arith)
    | inr high ↦
        let three : 3 ≤ exp = ltb_false→le exp 3 high in
        rw (p, high, le→ltb 32 exp h)
          (ap (λ n. number 256 (put_mantissa (32 - exp) mant (replicate n 0))) {x = 32}
              {y = 32 - exp + (3 + (exp - 3))} (omega arith)
            ∙ put_mantissa-number (32 - exp) (exp - 3) mant k)
  ]
]
