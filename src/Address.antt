-- ===== src/Address.antt =====
-- Addresses: yumtech/mkpool-src/src/address.hpp, and the end of address.cpp. The types of a decoded
-- address, its script and the size of an output. A text is the list of its character codes, taken as
-- unsigned. The file repeats `to_hex`: `Hex.bytes_to_hex` stands for it. `Type` is `AddressType`.
pub mod Base58
pub mod ConvertBits
pub mod Bech32
pub mod CashAddr
pub mod Decoder
pub mod Results
pub mod Programs
pub mod Outputs
pub mod Regroup
pub mod BigNumber
pub mod Checksum
pub mod OneCharacter
use yumtech_umbrel_apps.Prelude.{
  ℕ, ◌-◌, ◌+◌, ◌%◌, ◌/◌, ◌^◌, ◌*◌, Bool, true, false, ◌&&◌, List, [], ◌∷◌, ◌++◌, Option, none, some,
  map, leb, ltb, ◌==◌, if◌then◌else◌,
}
use yumtech_umbrel_apps.Prelude.Texts.{Text}
use yumtech_umbrel_apps.Hex.{bytes_to_hex}

abbrev pub Bytes : Type 0
Bytes = List ℕ

pub data Network : Type 0 where
  bitcoin_mainnet bitcoin_testnet bitcoin_signet bitcoin_regtest bch_mainnet bch_testnet
        bch_regtest :
      Network

pub data AddressType : Type 0 where
  p2pkh p2sh p2wpkh p2wsh p2tr bch_p2pkh bch_p2sh : AddressType

pub data Error : Type 0 where
  empty unknown_prefix bad_length bad_checksum bad_character unsupported_version unsupported_network
        internal :
      Error

-- `std::expected` with an `Error`.
pub data Expected {ℓ} (A : Type ℓ) : Type ℓ where
  expected : A → Expected A
  unexpected : Error → Expected A

infixl 5 ◌>>=◌
abbrev pub ◌>>=◌ {ℓ κ} : {A : Type ℓ} {B : Type κ} → Expected A → (A → Expected B) → Expected B
expected a >>= f = f a
unexpected e >>= f = unexpected e

pub record Decoded : Type 0 where
  pub kind : AddressType
  pub network : Network
  pub program : Bytes

-- `std::tolower` in the C locale.
unfoldable pub to_lower : ℕ → ℕ
to_lower c = if leb b'A' c && leb c b'Z' then c + 32 else c

unfoldable pub script_pubkey_hex : Decoded → Text
script_pubkey_hex d = script d.kind (bytes_to_hex d.program)
  where
    script : AddressType → Text → Text
    script p2pkh h =
        (b'7' ∷ b'6' ∷ b'a' ∷ b'9' ∷ b'1' ∷ b'4' ∷ []) ++ (h ++ (b'8' ∷ b'8' ∷ b'a' ∷ b'c' ∷ []))
    script bch_p2pkh h =
        (b'7' ∷ b'6' ∷ b'a' ∷ b'9' ∷ b'1' ∷ b'4' ∷ []) ++ (h ++ (b'8' ∷ b'8' ∷ b'a' ∷ b'c' ∷ []))
    script p2sh h = (b'a' ∷ b'9' ∷ b'1' ∷ b'4' ∷ []) ++ (h ++ (b'8' ∷ b'7' ∷ []))
    script bch_p2sh h = (b'a' ∷ b'9' ∷ b'1' ∷ b'4' ∷ []) ++ (h ++ (b'8' ∷ b'7' ∷ []))
    script p2wpkh h = (b'0' ∷ b'0' ∷ b'1' ∷ b'4' ∷ []) ++ h
    script p2wsh h = (b'0' ∷ b'0' ∷ b'2' ∷ b'0' ∷ []) ++ h
    script p2tr h = (b'5' ∷ b'1' ∷ b'2' ∷ b'0' ∷ []) ++ h

unfoldable pub output_vbytes : AddressType → ℕ
output_vbytes p2pkh = 34
output_vbytes bch_p2pkh = 34
output_vbytes p2sh = 32
output_vbytes bch_p2sh = 32
output_vbytes p2wpkh = 31
output_vbytes p2wsh = 43
output_vbytes p2tr = 43
