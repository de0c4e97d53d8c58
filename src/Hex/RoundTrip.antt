-- ===== src/Hex/RoundTrip.antt =====
-- Printing and reading hexadecimal text are inverse.
use yumtech_umbrel_apps.Prelude.{
  ℕ, ◌+◌, ◌*◌, ◌/◌, ◌%◌, ◌^◌, ◌<◌, bit_or, ◌≡◌, refl, ap, ◌∙◌, Bool, true, false, ◌&&◌, List, [],
  ◌∷◌, none, some, length, All, leb, ◌==◌, ==_iff, if◌then◌else◌, arith,
}
use yumtech_umbrel_apps.Prelude.Bits.{bit_or_add_high}
use yumtech_umbrel_apps.Prelude.Tables.{every_below, every_below-lookup}
use yumtech_umbrel_apps.Hex.{hex_digit, hex_nibble, hex_pairs, hex_to_bytes, bytes_to_hex}

abbrev pub IsByte : ℕ → Type 0
IsByte b = b < 256

-- A nibble is read back from its digit.
abbrev reads_back : ℕ → Bool
reads_back n = elim (hex_nibble (hex_digit n)) [ none ↦ false | some m ↦ m == n ]

nibble_table : every_below 16 (λ n. reads_back n) ≡ true
unfolding every_below hex_nibble hex_digit
nibble_table = refl

pub hex_nibble-hex_digit : (n : ℕ) → n < 16 → hex_nibble (hex_digit n) ≡ some n
hex_nibble-hex_digit n h =
    ground (arith, every_below-lookup 16 (λ n. reads_back n) nibble_table n h)

pub join_nibbles : (hi lo : ℕ) → lo < 16 → hi < 16 → bit_or (hi * 2 ^ 4) lo % 256 ≡ hi * 16 + lo
join_nibbles hi lo p q = rw (bit_or_add_high 4 lo hi p) (omega arith)

hex_pairs-bytes_to_hex : (bs : List ℕ) → All IsByte bs → hex_pairs (bytes_to_hex bs) ≡ some bs
unfolding hex_pairs bytes_to_hex
hex_pairs-bytes_to_hex [] h = refl
hex_pairs-bytes_to_hex (b ∷ bs) (p, h) =
    rw
      (
        hex_nibble-hex_digit (b / 2 ^ 4) (omega arith),
        hex_nibble-hex_digit (b % 16) (omega arith),
        hex_pairs-bytes_to_hex bs h,
      )
      (ap (λ c. some (c ∷ bs))
        (join_nibbles (b / 2 ^ 4) (b % 16) (omega arith) (omega arith) ∙ whole))
  where
    whole : b / 2 ^ 4 * 16 + b % 16 ≡ b
    whole = omega arith

pub length-bytes_to_hex : (bs : List ℕ) → length (bytes_to_hex bs) ≡ 2 * length bs
unfolding bytes_to_hex
length-bytes_to_hex [] = omega arith
length-bytes_to_hex (b ∷ bs) = omega (arith, length-bytes_to_hex bs)

even-bytes_to_hex : (bs : List ℕ) → (length (bytes_to_hex bs) % 2 == 0) ≡ true
even-bytes_to_hex bs =
    (==_iff (length (bytes_to_hex bs) % 2) 0).1 (omega (arith, length-bytes_to_hex bs))

-- The digits that are printed for bytes are read back as these bytes.
pub hex_to_bytes-bytes_to_hex :
    (bs : List ℕ) → All IsByte bs → hex_to_bytes (bytes_to_hex bs) ≡ some bs
unfolding hex_to_bytes
hex_to_bytes-bytes_to_hex bs h = rw (even-bytes_to_hex bs, hex_pairs-bytes_to_hex bs h)

-- `tolower` on the letters of hexadecimal text.
unfoldable pub lower : ℕ → ℕ
lower c = if leb b'A' c && leb c b'F' then c + 32 else c

pub nibble_inv : (c n : ℕ) → hex_nibble c ≡ some n → (n < 16) × (c < 128)
unfolding hex_nibble
nibble_inv c n h = ground arith

digit_back : ℕ → Bool
unfolding hex_nibble hex_digit lower
digit_back c = elim (hex_nibble c) [ none ↦ true | some n ↦ hex_digit n == lower c ]

digit_table : every_below 128 digit_back ≡ true
unfolding every_below digit_back
digit_table = refl

pub hex_digit-hex_nibble : (c n : ℕ) → hex_nibble c ≡ some n → hex_digit n ≡ lower c
hex_digit-hex_nibble c n h =
    unfold digit_back in
    ground (arith, nibble_inv c n h, every_below-lookup 128 digit_back digit_table c)
