-- ===== src/Zcash/Transparent.antt =====
-- The script of a transparent address of Zcash: `b58_decode` and `taddr_to_script` of
-- yumtech/mkpool-src/src/zcash.hpp. SHA-256 is a parameter.
use mathlib.Core.List.{reverse}
use yumtech_umbrel_apps.Prelude.{
  ℕ, zero, suc, ◌+◌, ◌*◌, ◌/◌, ◌%◌, [], ◌∷◌, ◌++◌, ◌||◌, ◌&&◌, Option, none, some, length, take,
  drop, replicate, ◌==◌, if◌then◌else◌,
}
use yumtech_umbrel_apps.Prelude.Texts.{Text, text_eq}
use yumtech_umbrel_apps.Address.Base58.{base58_alphabet, index_of, leading_ones}
use yumtech_umbrel_apps.Zcash.{Bytes}

-- `while (carry)`. A carry is at most 57, so that two rounds are enough.
unfoldable pub push_carry : ℕ → ℕ → Bytes
push_carry zero carry = []
push_carry (suc rounds) carry =
    let rest = push_carry rounds (carry / 256) in if carry == 0 then [] else (carry % 256) ∷ rest

-- A digit into the number, whose bytes are lowest first.
unfoldable pub append_digit : ℕ → Bytes → Bytes
unfolding push_carry
append_digit carry [] = push_carry 2 carry
append_digit carry (d ∷ b) = let c = carry + 58 * d in (c % 256) ∷ append_digit (c / 256) b

unfoldable pub b58_digits : Text → Bytes → Option Bytes
unfolding append_digit
b58_digits [] b = some b
b58_digits (c ∷ s) b = elim (index_of c base58_alphabet) [
  | none ↦ none
  | some digit ↦ b58_digits s (append_digit digit b)
]

unfoldable pub b58_decode : Text → Option Bytes
unfolding b58_digits
b58_decode s = elim (b58_digits s []) [
  | none ↦ none
  | some b ↦ some (reverse (b ++ replicate (leading_ones s) 0))
]

-- The script for the two bytes of a version, if they are known.
unfoldable pub transparent_script : ℕ → Bytes → Bytes
transparent_script ver h160 =
    if ver == 0x1cb8 || ver == 0x1d25
    then 0x76 ∷ 0xa9 ∷ 0x14 ∷ (h160 ++ (0x88 ∷ 0xac ∷ []))
    else if ver == 0x1cbd || ver == 0x1cba
    then 0xa9 ∷ 0x14 ∷ (h160 ++ (0x87 ∷ []))
    else []

abbrev byte_at : ℕ → Bytes → ℕ
byte_at i raw = elim (drop i raw) [ [] ↦ 0 | b ∷ bs ↦ b ]

-- Empty on failure.
unfoldable pub taddr_to_script : (Bytes → Bytes) → Text → Bytes
unfolding b58_decode transparent_script
taddr_to_script sha256 addr = elim (b58_decode addr) [
  | none ↦ []
  | some raw ↦
      if length raw == 26 && text_eq (drop 22 raw) (take 4 (sha256 (sha256 (take 22 raw))))
      then transparent_script (byte_at 0 raw * 256 + byte_at 1 raw) (take 20 (drop 2 raw))
      else []
]
