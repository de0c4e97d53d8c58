-- ===== src/Address/CashAddr.antt =====
-- CashAddr: `cashaddr_polymod` to `cashaddr_decode` of yumtech/mkpool-src/src/address.cpp.
use yumtech_umbrel_apps.Prelude.{
  ℕ, ◌+◌, ◌-◌, ◌*◌, ◌/◌, ◌%◌, ◌^◌, bit_xor, false, ◌&&◌, List, [], ◌∷◌, ◌++◌, map, Option, none,
  some, length, take, drop, get_or, ltb, ◌==◌, if◌then◌else◌,
}
use yumtech_umbrel_apps.Prelude.Texts.{Text}
use yumtech_umbrel_apps.Address.{
  Bytes, bad_length, bad_checksum, bad_character, Expected, expected, unexpected, ◌>>=◌, to_lower,
}
use yumtech_umbrel_apps.Address.Base58.{index_of}
use yumtech_umbrel_apps.Address.ConvertBits.{convert_bits}
use yumtech_umbrel_apps.Address.Bech32.{feedback, is_upper, is_lower, has, symbols}

abbrev pub cash_words : List ℕ
cash_words = 0x98f2bc8e61 ∷ 0x79b76d99e2 ∷ 0xf33e5fb3c4 ∷ 0xae2eabe2a8 ∷ 0x1e4f43e470 ∷ []

-- The loop; the inner one is that of Bech32 with other words.
unfoldable pub cash_loop : ℕ → Bytes → ℕ
unfolding feedback
cash_loop c [] = c
cash_loop c (d ∷ ds) =
    cash_loop (feedback cash_words (c / 2 ^ 35 % 256) 0 (bit_xor (c % 2 ^ 35 * 2 ^ 5) d)) ds

unfoldable pub cashaddr_polymod : Bytes → ℕ
unfolding cash_loop
cashaddr_polymod v = bit_xor (cash_loop 1 v) 1

unfoldable pub cashaddr_expand_prefix : Text → Bytes
cashaddr_expand_prefix prefix = map (λ c. c % 32) prefix ++ (0 ∷ [])

pub record CashDecoded : Type 0 where
  pub prefix : Text
  pub type_bits : ℕ
  pub hash : Bytes

abbrev pub bitcoincash : Text
bitcoincash = b'b' ∷ b'i' ∷ b't' ∷ b'c' ∷ b'o' ∷ b'i' ∷ b'n' ∷ b'c' ∷ b'a' ∷ b's' ∷ b'h' ∷ []

-- `s.find(':')`.
unfoldable pub find_colon : Text → Option ℕ
unfolding index_of
find_colon s = index_of b':' s

-- `kSizeMap`, in bits.
abbrev pub size_map : List ℕ
size_map = 160 ∷ 192 ∷ 224 ∷ 256 ∷ 320 ∷ 384 ∷ 448 ∷ 512 ∷ []

-- The version byte and the hash behind it.
unfoldable pub cash_hash : Text → Bytes → Expected CashDecoded
cash_hash prefix [] = unexpected bad_length
cash_hash prefix (version ∷ hash) =
    if length hash == get_or size_map (version % 8) 0 / 8
    then expected (record { prefix = prefix; type_bits = version / 2 ^ 3 % 32; hash = hash })
    else unexpected bad_length

unfoldable pub cash_values : Text → Bytes → Expected CashDecoded
unfolding cash_hash cashaddr_polymod cashaddr_expand_prefix convert_bits
cash_values prefix values =
    if ltb (length values) 8
    then unexpected bad_length
    else if cashaddr_polymod (cashaddr_expand_prefix prefix ++ values) == 0
    then convert_bits (take (length values - 8) values) 5 8 false >>= cash_hash prefix
    else unexpected bad_checksum

unfoldable pub cash_payload : Text → Text → Expected CashDecoded
unfolding cash_values symbols has to_lower
cash_payload prefix payload =
    if has is_upper payload && has is_lower payload
    then unexpected bad_character
    else symbols (map to_lower payload) >>= cash_values (map to_lower prefix)

unfoldable pub cashaddr_decode : Text → Expected CashDecoded
unfolding find_colon cash_payload
cashaddr_decode s = elim (find_colon s) [
  | none ↦ cash_payload bitcoincash s
  | some colon ↦ cash_payload (take colon s) (drop (colon + 1) s)
]
