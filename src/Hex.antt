-- ===== src/Hex.antt =====
-- Hexadecimal text: the first part of yumtech/mkpool-src/src/utils.hpp. A text is the list of its
-- character codes, and `none` is a thrown `std::runtime_error`.
pub mod RoundTrip
pub mod Reading
pub mod Integers
pub use yumtech_umbrel_apps.Prelude.Texts.{Text}
use yumtech_umbrel_apps.Prelude.{
  ℕ, zero, suc, ◌+◌, ◌-◌, ◌*◌, ◌/◌, ◌%◌, ◌^◌, bit_or, Bool, true, false, ◌&&◌, ◌||◌, not, List, [],
  ◌∷◌, ◌++◌, Option, none, some, length, get_or, take, leb, ltb, ◌==◌, if◌then◌else◌,
}

-- Fallible code: `none` is an exception.
infixl 5 ◌>>=◌
abbrev pub ◌>>=◌ {ℓ κ} : {A : Type ℓ} {B : Type κ} → Option A → (A → Option B) → Option B
none >>= f = none
some a >>= f = f a

-- `"0123456789abcdef"`.
abbrev pub hex_digits : Text
hex_digits =
    b'0' ∷ b'1' ∷ b'2' ∷ b'3' ∷ b'4' ∷ b'5' ∷ b'6' ∷ b'7' ∷ b'8' ∷ b'9' ∷ b'a' ∷ b'b' ∷ b'c' ∷ b'd'
    ∷ b'e' ∷ b'f' ∷ []

-- `L[n]`.
unfoldable pub hex_digit : ℕ → ℕ
hex_digit n = get_or hex_digits n 0

unfoldable pub hex_nibble : ℕ → Option ℕ
hex_nibble c =
    if leb b'0' c && leb c b'9'
    then some (c - b'0')
    else if leb b'a' c && leb c b'f'
    then some (c - b'a' + 10)
    else if leb b'A' c && leb c b'F'
    then some (c - b'A' + 10)
    else none

-- The loop over pairs; a single character is left only by an odd length.
unfoldable pub hex_pairs : Text → Option Text
hex_pairs [] = some []
hex_pairs (a ∷ []) = none
hex_pairs (a ∷ b ∷ h) = do
  hi ← hex_nibble a
  lo ← hex_nibble b
  rest ← hex_pairs h
  some ((bit_or (hi * 2 ^ 4) lo % 256) ∷ rest)

unfoldable pub hex_to_bytes : Text → Option (List ℕ)
unfolding hex_pairs
hex_to_bytes h = if length h % 2 == 0 then hex_pairs h else none

unfoldable pub bytes_to_hex : List ℕ → Text
bytes_to_hex [] = []
bytes_to_hex (b ∷ bs) = hex_digit (b / 2 ^ 4) ∷ hex_digit (b % 16) ∷ bytes_to_hex bs

abbrev pub is_hex_char : ℕ → Bool
is_hex_char c = leb b'0' c && leb c b'9' || leb b'a' c && leb c b'f' || leb b'A' c && leb c b'F'

all_hex : Text → Bool
all_hex [] = true
all_hex (c ∷ s) = is_hex_char c && all_hex s

unfoldable pub valid_hex : Text → Bool
unfolding all_hex
valid_hex s = all_hex s && not (length s == 0)

-- The loop of `int_to_hex` writes the digits of `v` from the last place to the first; `s` is what
-- stands behind the place to be written.
unfoldable pub int_to_hex_loop : ℕ → ℕ → Text → Text
int_to_hex_loop zero v s = s
int_to_hex_loop (suc i) v s = int_to_hex_loop i (v / 2 ^ 4) (hex_digit (v % 16) ∷ s)

unfoldable pub int_to_hex : ℕ → ℕ → Text
unfolding int_to_hex_loop
int_to_hex v width = int_to_hex_loop width v []

-- The digits of the bytes of `v`, lowest byte first; the rounds left, and the loop's `i`.
unfoldable pub put_le : ℕ → ℕ → ℕ → Text
put_le zero i v = []
put_le (suc n) i v =
    let b = v / 2 ^ (8 * i) % 256 in hex_digit (b / 2 ^ 4) ∷ hex_digit (b % 16) ∷ put_le n (i + 1) v

unfoldable pub le_hex_u64 : ℕ → Text
unfolding put_le
le_hex_u64 v = put_le 8 0 v

unfoldable pub le_hex_u32 : ℕ → Text
unfolding le_hex_u64
le_hex_u32 v = take 8 (le_hex_u64 v)

unfoldable pub encode_varint : ℕ → Text
unfolding put_le
encode_varint v =
    if ltb v 0xfd
    then hex_digit (v / 2 ^ 4 % 16) ∷ hex_digit (v % 16) ∷ []
    else if leb v 0xffff
    then b'f' ∷ b'd' ∷ put_le 2 0 v
    else if leb v 0xffffffff
    then b'f' ∷ b'e' ∷ put_le 4 0 v
    else b'f' ∷ b'f' ∷ put_le 8 0 v
