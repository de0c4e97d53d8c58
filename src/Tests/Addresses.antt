-- ===== src/Tests/Addresses.antt =====
-- Addresses at concrete inputs.
use yumtech_umbrel_apps.Prelude.{
  ℕ, ◌+◌, ◌*◌, ◌^◌, ◌<◌, ◌≡◌, ◌++◌, refl, inl, false, [], ◌∷◌, Option, none, some, length, All,
  arith,
}
use yumtech_umbrel_apps.Prelude.Texts.{Text, text_eq}
use yumtech_umbrel_apps.Address.{
  Bytes, p2wpkh, bitcoin_mainnet, bad_character, expected, unexpected, Decoded, script_pubkey_hex,
  output_vbytes,
}
use yumtech_umbrel_apps.Address.Base58.{base58_decode, index_of}
use yumtech_umbrel_apps.Address.ConvertBits.{convert_bits, regroup, emit}
use yumtech_umbrel_apps.Address.Decoder.{decode, try_bech, looks_like, witness_result, witness_type}
use yumtech_umbrel_apps.Address.CashAddr.{find_colon}
use yumtech_umbrel_apps.Address.Bech32.{segwit_decode, bech32_parts}
use yumtech_umbrel_apps.Address.OneCharacter.{bech32_parts-one_character}
use yumtech_umbrel_apps.Address.Outputs.{script_pubkey_hex-decode}
use yumtech_umbrel_apps.Address.Regroup.{number, convert_bits-number}
use yumtech_umbrel_apps.Address.BigNumber.{base58_digits}
use yumtech_umbrel_apps.Address.BigNumber.Decoded.{
  base58_decode-number, base58_decode-bad_character,
}

-- The first example of BIP 173.
abbrev segwit : Text
segwit =
    b'b' ∷ b'c' ∷ b'1' ∷ b'q' ∷ b'w' ∷ b'5' ∷ b'0' ∷ b'8' ∷ b'd' ∷ b'6' ∷ b'q' ∷ b'e' ∷ b'j' ∷ b'x'
    ∷ b't' ∷ b'd' ∷ b'g' ∷ b'4' ∷ b'y' ∷ b'5' ∷ b'r' ∷ b'3' ∷ b'z' ∷ b'a' ∷ b'r' ∷ b'v' ∷ b'a'
    ∷ b'r' ∷ b'y' ∷ b'0' ∷ b'c' ∷ b'5' ∷ b'x' ∷ b'w' ∷ b'7' ∷ b'k' ∷ b'v' ∷ b'8' ∷ b'f' ∷ b'3'
    ∷ b't' ∷ b'4' ∷ []

abbrev paid : Decoded
paid = record {
  kind = p2wpkh;
  network = bitcoin_mainnet;
  program =
      117 ∷ 30 ∷ 118 ∷ 232 ∷ 25 ∷ 145 ∷ 150 ∷ 212 ∷ 84 ∷ 148 ∷ 28 ∷ 69 ∷ 209 ∷ 179 ∷ 163 ∷ 35 ∷ 241
      ∷ 67 ∷ 59 ∷ 214 ∷ [];
}

-- A witness address needs no SHA-256.
abbrev no_sha256 : Bytes → Option Bytes
no_sha256 d = none

segwit_decoded : decode no_sha256 segwit ≡ expected paid
unfolding decode find_colon try_bech looks_like witness_result segwit_decode text_eq witness_type
segwit_decoded = refl

script_pubkey_hex-decode_example :
    length (script_pubkey_hex paid) + 18 ≡ 2 * output_vbytes paid.kind
script_pubkey_hex-decode_example =
    script_pubkey_hex-decode no_sha256 segwit paid segwit_decoded (inl refl)

eight_ones : convert_bits (31 ∷ 28 ∷ []) 5 8 false ≡ expected (255 ∷ [])
unfolding convert_bits regroup emit
eight_ones = refl

convert_bits-number_example :
    (rest : ℕ) × (rest < 5)
    × (5 * 2 ≡ 8 * 1 + rest)
    × (number 32 (31 ∷ 28 ∷ []) ≡ number 256 (255 ∷ []) * 2 ^ rest)
    × All (λ b. b < 256) (255 ∷ [])
convert_bits-number_example = convert_bits-number (31 ∷ 28 ∷ []) (255 ∷ []) eight_ones

abbrev one_z : Text
one_z = b'1' ∷ b'z' ∷ []

one_z-digits : base58_digits one_z ≡ some (0 ∷ 57 ∷ [])
unfolding base58_digits index_of
one_z-digits = refl

base58_decode-number_example :
    (out : Bytes) × (base58_decode one_z ≡ expected out)
    × (number 256 out ≡ number 58 (0 ∷ 57 ∷ []))
    × All (λ b. b < 256) out
base58_decode-number_example = base58_decode-number one_z (0 ∷ 57 ∷ []) (omega arith) one_z-digits

abbrev zero_z : Text
zero_z = b'0' ∷ b'z' ∷ []

zero_z-digits : base58_digits zero_z ≡ none
unfolding base58_digits index_of
zero_z-digits = refl

base58_decode-bad_character_example : base58_decode zero_z ≡ unexpected bad_character
base58_decode-bad_character_example = base58_decode-bad_character zero_z (omega arith) zero_z-digits

-- The characters of `segwit` around its ninth.
abbrev segwit_front : Text
segwit_front = b'b' ∷ b'c' ∷ b'1' ∷ b'q' ∷ b'w' ∷ b'5' ∷ b'0' ∷ b'8' ∷ []

abbrev segwit_back : Text
segwit_back =
    b'6' ∷ b'q' ∷ b'e' ∷ b'j' ∷ b'x' ∷ b't' ∷ b'd' ∷ b'g' ∷ b'4' ∷ b'y' ∷ b'5' ∷ b'r' ∷ b'3' ∷ b'z'
    ∷ b'a' ∷ b'r' ∷ b'v' ∷ b'a' ∷ b'r' ∷ b'y' ∷ b'0' ∷ b'c' ∷ b'5' ∷ b'x' ∷ b'w' ∷ b'7' ∷ b'k'
    ∷ b'v' ∷ b'8' ∷ b'f' ∷ b'3' ∷ b't' ∷ b'4' ∷ []

abbrev segwit_groups : Bytes
segwit_groups =
    0 ∷ 14 ∷ 20 ∷ 15 ∷ 7 ∷ 13 ∷ 26 ∷ 0 ∷ 25 ∷ 18 ∷ 6 ∷ 11 ∷ 13 ∷ 8 ∷ 21 ∷ 4 ∷ 20 ∷ 3 ∷ 17 ∷ 2 ∷ 29
    ∷ 3 ∷ 12 ∷ 29 ∷ 3 ∷ 4 ∷ 15 ∷ 24 ∷ 20 ∷ 6 ∷ 14 ∷ 30 ∷ 22 ∷ []

segwit_accepted :
    bech32_parts (b'b' ∷ b'c' ∷ []) (segwit_front ++ (b'd' ∷ segwit_back)) 2
    ≡ expected (0, segwit_groups)
unfolding bech32_parts text_eq
segwit_accepted = refl

bech32_parts-one_character_example :
    ¬ bech32_parts (b'b' ∷ b'c' ∷ []) (segwit_front ++ (b'q' ∷ segwit_back)) 2
    ≡ expected (0, segwit_groups)
bech32_parts-one_character_example =
    bech32_parts-one_character (b'b' ∷ b'c' ∷ []) segwit_front b'd' b'q' segwit_back 2 0
      segwit_groups segwit_groups (omega arith) (omega arith) segwit_accepted
