-- ===== src/Address/Bech32.antt =====
-- Bech32 and Bech32m: `bech32_polymod` to `segwit_decode` of yumtech/mkpool-src/src/address.cpp.
use yumtech_umbrel_apps.Prelude.{
  ℕ, suc, ◌+◌, ◌-◌, ◌*◌, ◌/◌, ◌%◌, ◌^◌, bit_xor, Bool, false, ◌||◌, ◌&&◌, not, List, [], ◌∷◌, ◌++◌,
  map, Option, none, some, length, take, drop, ltb, leb, ◌==◌, if◌then◌else◌,
}
use yumtech_umbrel_apps.Prelude.Texts.{Text, text_eq}
use yumtech_umbrel_apps.Address.{
  Bytes, unknown_prefix, bad_length, bad_checksum, bad_character, unsupported_version, Expected,
  expected, unexpected, ◌>>=◌, to_lower,
}
use yumtech_umbrel_apps.Address.Base58.{index_of}
use yumtech_umbrel_apps.Address.ConvertBits.{convert_bits}

abbrev pub bech32_charset : Text
bech32_charset =
    b'q' ∷ b'p' ∷ b'z' ∷ b'r' ∷ b'y' ∷ b'9' ∷ b'x' ∷ b'8' ∷ b'g' ∷ b'f' ∷ b'2' ∷ b't' ∷ b'v' ∷ b'd'
    ∷ b'w' ∷ b'0' ∷ b's' ∷ b'3' ∷ b'j' ∷ b'n' ∷ b'5' ∷ b'4' ∷ b'k' ∷ b'h' ∷ b'c' ∷ b'e' ∷ b'6'
    ∷ b'm' ∷ b'u' ∷ b'a' ∷ b'7' ∷ b'l' ∷ []

abbrev pub bech32_const : ℕ
bech32_const = 1

abbrev pub bech32m_const : ℕ
bech32m_const = 0x2bc830a3

-- The inner loop over the words of `G`, with the bits of `b` from `i` on.
unfoldable pub feedback : List ℕ → ℕ → ℕ → ℕ → ℕ
feedback [] b i chk = chk
feedback (g ∷ gs) b i chk =
    feedback gs b (i + 1) (if b / 2 ^ i % 2 == 1 then bit_xor chk g else chk)

abbrev pub bech32_words : List ℕ
bech32_words = 0x3b6a57b2 ∷ 0x26508e6d ∷ 0x1ea119fa ∷ 0x3d4233dd ∷ 0x2a1462b3 ∷ []

unfoldable pub polymod_step : ℕ → ℕ → ℕ
unfolding feedback
polymod_step chk v = feedback bech32_words (chk / 2 ^ 25) 0 (bit_xor (chk % 2 ^ 25 * 2 ^ 5) v)

unfoldable pub polymod_loop : ℕ → Bytes → ℕ
unfolding polymod_step
polymod_loop chk [] = chk
polymod_loop chk (v ∷ vs) = polymod_loop (polymod_step chk v) vs

unfoldable pub bech32_polymod : Bytes → ℕ
unfolding polymod_loop
bech32_polymod values = polymod_loop 1 values

unfoldable pub bech32_hrp_expand : Text → Bytes
bech32_hrp_expand hrp = map (λ c. c / 2 ^ 5) hrp ++ (0 ∷ map (λ c. c % 32) hrp)

abbrev pub is_upper : ℕ → Bool
is_upper c = leb b'A' c && leb c b'Z'

abbrev pub is_lower : ℕ → Bool
is_lower c = leb b'a' c && leb c b'z'

-- Does some character pass the test?
unfoldable pub has : (ℕ → Bool) → Text → Bool
has p [] = false
has p (c ∷ s) = p c || has p s

-- `rfind('1')`.
unfoldable pub last_one : Text → Option ℕ
last_one [] = none
last_one (c ∷ s) = elim (last_one s) [
  | some i ↦ some (suc i)
  | none ↦ if c == b'1' then some 0 else none
]

-- The loop that reads the characters of the data part, also that of `cashaddr_decode`, whose
-- alphabet is the same.
unfoldable pub symbols : Text → Expected Bytes
unfolding index_of
symbols [] = expected []
symbols (c ∷ s) = elim (index_of c bech32_charset) [
  | none ↦ unexpected bad_character
  | some i ↦ symbols s >>= (λ vs. expected (i ∷ vs))
]

-- The encoding that a checksum stands for.
unfoldable pub encoding_of : ℕ → Option ℕ
encoding_of chk =
    if chk == bech32_const then some 0 else if chk == bech32m_const then some 1 else none

-- The data without its checksum, if there is an encoding.
unfoldable pub strip_checksum : Option ℕ → Bytes → Expected (ℕ × Bytes)
strip_checksum none values = unexpected bad_checksum
strip_checksum (some encoding) values = expected (encoding, take (length values - 6) values)

-- The part behind the checks of case and length; `pos` is the place of the separator.
unfoldable pub bech32_parts : Text → Text → ℕ → Expected (ℕ × Bytes)
unfolding symbols strip_checksum encoding_of bech32_polymod bech32_hrp_expand
bech32_parts hrp_expected lower pos =
    let hrp = take pos lower in
    if text_eq hrp hrp_expected
    then symbols (drop (pos + 1) lower) >>= (λ values.
      strip_checksum (encoding_of (bech32_polymod (bech32_hrp_expand hrp ++ values))) values)
    else unexpected unknown_prefix

unfoldable pub bech32_decode : Text → Text → Expected (ℕ × Bytes)
unfolding has last_one bech32_parts to_lower
bech32_decode hrp_expected s =
    let lower = map to_lower s in
    if has is_upper s && has is_lower s then unexpected bad_character else (elim (last_one lower) [
      | none ↦ unexpected bad_length
      | some pos ↦
          if ltb pos 1 || ltb (length lower) (pos + 7)
          then unexpected bad_length
          else bech32_parts hrp_expected lower pos
    ])

pub record SegwitInfo : Type 0 where
  pub version : ℕ
  pub program : Bytes
  pub encoding : ℕ

-- The checks on a version and its program.
unfoldable pub segwit_checks : ℕ → ℕ → Bytes → Expected SegwitInfo
segwit_checks encoding version program =
    let n = length program in
    if ltb n 2 || ltb 40 n
    then unexpected bad_length
    else if version == 0 && (not (n == 20) && not (n == 32))
    then unexpected bad_length
    else if version == 0 && not (encoding == 0) || leb 1 version && not (encoding == 1)
    then unexpected bad_checksum
    else expected (record { version = version; program = program; encoding = encoding })

unfoldable pub segwit_data : ℕ → Bytes → Expected SegwitInfo
unfolding segwit_checks convert_bits
segwit_data encoding [] = unexpected bad_length
segwit_data encoding (version ∷ groups) =
    if ltb 16 version
    then unexpected unsupported_version
    else convert_bits groups 5 8 false >>= segwit_checks encoding version

unfoldable pub segwit_decode : Text → Text → Expected SegwitInfo
unfolding bech32_decode segwit_data
segwit_decode hrp s = bech32_decode hrp s >>= (λ p. segwit_data p.0 p.1)
