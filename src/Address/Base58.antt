-- ===== src/Address/Base58.antt =====
-- Base58Check: `base58_decode` and `base58check_verify` of yumtech/mkpool-src/src/address.cpp. SHA-256
-- is OpenSSL's, a parameter; `none` is its exception.
use yumtech_umbrel_apps.Prelude.{
  ℕ, suc, ◌+◌, ◌-◌, ◌*◌, ◌/◌, ◌%◌, Bool, false, [], ◌∷◌, ◌++◌, Option, none, some, length, take,
  drop, replicate, ltb, ◌==◌, if◌then◌else◌,
}
use mathlib.Core.List.{reverse}
use yumtech_umbrel_apps.Prelude.Texts.{Text, text_eq}
use yumtech_umbrel_apps.Hex.{◌>>=◌}
use yumtech_umbrel_apps.Address.{Bytes, bad_length, bad_character, Expected, expected, unexpected}

abbrev pub base58_alphabet : Text
base58_alphabet =
    b'1' ∷ b'2' ∷ b'3' ∷ b'4' ∷ b'5' ∷ b'6' ∷ b'7' ∷ b'8' ∷ b'9' ∷ b'A' ∷ b'B' ∷ b'C' ∷ b'D' ∷ b'E'
    ∷ b'F' ∷ b'G' ∷ b'H' ∷ b'J' ∷ b'K' ∷ b'L' ∷ b'M' ∷ b'N' ∷ b'P' ∷ b'Q' ∷ b'R' ∷ b'S' ∷ b'T'
    ∷ b'U' ∷ b'V' ∷ b'W' ∷ b'X' ∷ b'Y' ∷ b'Z' ∷ b'a' ∷ b'b' ∷ b'c' ∷ b'd' ∷ b'e' ∷ b'f' ∷ b'g'
    ∷ b'h' ∷ b'i' ∷ b'j' ∷ b'k' ∷ b'm' ∷ b'n' ∷ b'o' ∷ b'p' ∷ b'q' ∷ b'r' ∷ b's' ∷ b't' ∷ b'u'
    ∷ b'v' ∷ b'w' ∷ b'x' ∷ b'y' ∷ b'z' ∷ []

-- The place of a character in an alphabet: `map[c]` here, `find` elsewhere.
unfoldable pub index_of : ℕ → Text → Option ℕ
index_of c [] = none
index_of c (x ∷ xs) =
    if x == c then some 0 else (elim (index_of c xs) [ none ↦ none | some i ↦ some (suc i) ])

unfoldable pub leading_ones : Text → ℕ
leading_ones [] = 0
leading_ones (c ∷ s) = let n = leading_ones s in if c == b'1' then suc n else 0

-- The inner loop from the last byte on: the list is `b256` from its back, and the result holds the
-- new bytes and the carry that is left.
unfoldable pub add_digit : ℕ → Bytes → Bytes × ℕ
add_digit carry [] = ([], carry)
add_digit carry (b ∷ bs) =
    let t = carry + 58 * b in let (rest, left) = add_digit (t / 256) bs in ((t % 256) ∷ rest, left)

-- The outer loop over the characters behind the leading ones.
unfoldable pub accumulate : Text → Bytes → Expected Bytes
accumulate [] b256 = expected b256
accumulate (c ∷ s) b256 = elim (index_of c base58_alphabet) [
  | none ↦ unexpected bad_character
  | some d ↦
      let (next, left) = add_digit d b256 in
      let rest = accumulate s next in if left == 0 then rest else unexpected bad_length
]

-- `find_if` for the first byte that is not zero, and what stands from there on.
unfoldable pub skip_zeros : Bytes → Bytes
skip_zeros [] = []
skip_zeros (b ∷ bs) = let rest = skip_zeros bs in if b == 0 then rest else b ∷ bs

unfoldable pub base58_decode : Text → Expected Bytes
unfolding leading_ones accumulate skip_zeros
base58_decode s =
    let zeros = leading_ones s in
    elim (accumulate (drop zeros s) (replicate (length s * 733 / 1000 + 1) 0)) [
      | unexpected e ↦ unexpected e
      | expected b256 ↦ expected (replicate zeros 0 ++ skip_zeros (reverse b256))
    ]

module _ (sha256 : Bytes → Option Bytes) where
  unfoldable pub base58check_verify : Bytes → Option Bool
  base58check_verify payload = if ltb (length payload) 5 then some false else (do
    h1 ← sha256 (take (length payload - 4) payload)
    h2 ← sha256 h1
    some (text_eq (take 4 h2) (drop (length payload - 4) payload)))
