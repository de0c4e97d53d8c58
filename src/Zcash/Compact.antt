-- ===== src/Zcash/Compact.antt =====
-- A compact size is read as it was written, and utils.hpp writes the same bytes.
use yumtech_umbrel_apps.Prelude.{
  ℕ, zero, suc, ◌+◌, ◌*◌, ◌/◌, ◌%◌, ◌^◌, ◌<◌, ◌≡◌, refl, sym, ap, ap₂, ◌∙◌, inl, inr, true, [], ◌∷◌,
  ◌++◌, append_assoc, some, length, length-append, All, ltb, leb, ltb→lt, leb→le, Bool-cases, arith,
}
use native.Mathlib.Nat.{mul-le-mul_right}
use yumtech_umbrel_apps.Prelude.Bits.{bit_or_add}
use yumtech_umbrel_apps.Hex.{hex_digit, hex_to_bytes, bytes_to_hex, put_le, encode_varint}
use yumtech_umbrel_apps.Hex.RoundTrip.{IsByte, hex_to_bytes-bytes_to_hex}
use yumtech_umbrel_apps.Address.Regroup.{two_pow_3, two_pow_5}
use yumtech_umbrel_apps.Block.Pushes.{le_number}
use yumtech_umbrel_apps.Zcash.{Bytes, at, rd, read_compact, low_bytes, write_compact}

at-append : (pre : Bytes) (x : ℕ) (rest : Bytes) → at (pre ++ (x ∷ rest)) (length pre) ≡ some x
unfolding at
at-append [] x rest = refl
at-append (p ∷ pre) x rest = at-append pre x rest

pow_next : (i : ℕ) → 2 ^ (8 * (i + 1)) ≡ 2 ^ (8 * i) * 256
pow_next i =
    ap (λ (n : ℕ). 2 ^ n) {x = 8 * (i + 1)} {y = 8 * i + 3 + 5} (omega arith)
    ∙ omega (arith, two_pow_5 (8 * i + 3), two_pow_3 (8 * i))

pair_up : {a b c d : ℕ} → a ≡ b → c ≡ d → ◌≡◌ {A = ℕ × ℕ} (a, c) (b, d)
pair_up e f = ap₂ (λ a c. (a, c)) e f

-- The loop reads the number of the bytes before it.
rd-number :
    (ds pre rest : Bytes) (i v : ℕ)
    → All IsByte ds
    → v < 2 ^ (8 * i)
    → rd (length ds) i (pre ++ (ds ++ rest)) (length pre) v
      ≡ some (v + le_number ds * 2 ^ (8 * i), length pre + length ds)
unfolding rd
rd-number [] pre rest i v b h = ap some (pair_up (omega arith) (omega arith))
rd-number (d ∷ ds) pre rest i v (hd, b) h =
    rw (at-append pre d (ds ++ rest), bit_or_add (8 * i) v d h)
      (sym (
          ap₂ (λ bytes n. rd (length ds) (i + 1) bytes n (v + d * 2 ^ (8 * i)))
            (append_assoc pre (d ∷ []) (ds ++ rest)) (length-append pre (d ∷ [])))
        ∙ rd-number ds (pre ++ (d ∷ [])) rest (i + 1) (v + d * 2 ^ (8 * i)) b below
        ∙ ap some (
            pair_up (omega (arith, ap (λ t. le_number ds * t) (pow_next i)))
              (omega (arith, length-append pre (d ∷ [])))))
  where
    below : v + d * 2 ^ (8 * i) < 2 ^ (8 * (i + 1))
    below =
        omega (arith, pow_next i, mul-le-mul_right {m = d} {n = 255} (2 ^ (8 * i)) (omega arith))

-- The same behind the byte that says how many follow.
rd-behind :
    (m : ℕ) (ds pre rest : Bytes)
    → All IsByte ds
    → rd (length ds) 0 (pre ++ (m ∷ (ds ++ rest))) (length pre + 1) 0
      ≡ some (le_number ds, length pre + suc (length ds))
rd-behind m ds pre rest b =
    sym (
      ap₂ (λ bytes n. rd (length ds) 0 bytes n 0) (append_assoc pre (m ∷ []) (ds ++ rest))
        (length-append pre (m ∷ [])))
    ∙ rd-number ds (pre ++ (m ∷ [])) rest 0 0 b (omega arith)
    ∙ ap some (pair_up (omega arith) (omega (arith, length-append pre (m ∷ []))))

low_bytes-bytes : (k i n : ℕ) → All IsByte (low_bytes k i n)
unfolding low_bytes
low_bytes-bytes zero i n = tt
low_bytes-bytes (suc k) i n = (omega arith, low_bytes-bytes k (i + 1) n)

-- A size below 2^32 is read from where it was written, and the position is behind it.
pub read_compact-write_compact :
    (pre rest : Bytes) (n : ℕ)
    → n < 2 ^ 32
    → read_compact (pre ++ (write_compact n ++ rest)) (length pre)
      ≡ some (n, length pre + length (write_compact n))
unfolding read_compact write_compact low_bytes
read_compact-write_compact pre rest n h = elim (Bool-cases (ltb n 0xfd)) [
  | inl small ↦ rw (small, at-append pre n rest, small) refl
  | inr big ↦ elim (Bool-cases (leb n 0xffff)) [
    | inl two ↦
        rw (big, two, at-append pre 0xfd ((n % 256) ∷ (n / 2 ^ 8 % 256) ∷ rest))
          (rd-behind 0xfd ((n % 256) ∷ (n / 2 ^ 8 % 256) ∷ []) pre rest
              (omega arith, (omega arith, tt))
            ∙ ap some (pair_up (omega (arith, leb→le n 0xffff two)) refl))
    | inr four ↦
        rw (big, four, at-append pre 0xfe (low_bytes 4 0 n ++ rest))
          (rd-behind 0xfe (low_bytes 4 0 n) pre rest (low_bytes-bytes 4 0 n)
            ∙ ap some (pair_up (omega arith) refl))
  ]
]

encode_varint-bytes : (n : ℕ) → n < 2 ^ 32 → encode_varint n ≡ bytes_to_hex (write_compact n)
unfolding encode_varint write_compact low_bytes put_le bytes_to_hex hex_digit
encode_varint-bytes n h = elim (Bool-cases (ltb n 0xfd)) [
  | inl small ↦
      rw small
        (ap (λ d. hex_digit d ∷ hex_digit (n % 16) ∷ []) (omega (arith, ltb→lt n 0xfd small)))
  | inr big ↦ elim (Bool-cases (leb n 0xffff)) [
    | inl two ↦
        rw (big, two)
          (ap
            (λ b.
              b'f'
              ∷ b'd'
              ∷ hex_digit (b / 2 ^ 4)
              ∷ hex_digit (b % 16)
              ∷ hex_digit (n / 2 ^ 8 % 256 / 2 ^ 4)
              ∷ hex_digit (n / 2 ^ 8 % 256 % 16)
              ∷ [])
            {x = n / 2 ^ (8 * 0) % 256} {y = n % 256} (omega arith))
    | inr four ↦ rw (big, four, below) refl
  ]
]
  where
    below : leb n 0xffffffff ≡ true
    below = ground arith

write_compact-bytes : (n : ℕ) → All IsByte (write_compact n)
unfolding write_compact
write_compact-bytes n = elim (Bool-cases (ltb n 0xfd)) [
  | inl small ↦ rw small (omega (arith, ltb→lt n 0xfd small), tt)
  | inr big ↦ elim (Bool-cases (leb n 0xffff)) [
    | inl two ↦ rw (big, two) (omega arith, (omega arith, (omega arith, tt)))
    | inr four ↦ rw (big, four) (omega arith, low_bytes-bytes 4 0 n)
  ]
]

-- The text of `encode_varint` is that of the bytes of `write_compact`, for sizes below 2^32.
pub encode_varint-write_compact :
    (n : ℕ) → n < 2 ^ 32 → hex_to_bytes (encode_varint n) ≡ some (write_compact n)
encode_varint-write_compact n h =
    rw (encode_varint-bytes n h)
      (hex_to_bytes-bytes_to_hex (write_compact n) (write_compact-bytes n))
