-- ===== src/Address/Decoder.antt =====
-- The decoder: `decode_impl`, `decode` and `decode_to_script_hex` of
-- yumtech/mkpool-src/src/address.cpp. `none` is an exception, which `decode` turns into `internal`.
use yumtech_umbrel_apps.Prelude.{
  ℕ, ◌+◌, ◌-◌, ◌*◌, ◌^◌, bit_or, Bool, true, false, ◌||◌, ◌&&◌, List, [], ◌∷◌, Option, none, some,
  length, take, drop, get_or, ltb, leb, ◌==◌, if◌then◌else◌,
}
use yumtech_umbrel_apps.Prelude.Texts.{Text, text_eq}
use yumtech_umbrel_apps.Hex.{◌>>=◌}
use yumtech_umbrel_apps.Address.{
  Bytes, Network, bitcoin_mainnet, bitcoin_testnet, bitcoin_regtest, bch_mainnet, bch_testnet,
  bch_regtest, AddressType, p2pkh, p2sh, p2wpkh, p2wsh, p2tr, bch_p2pkh, bch_p2sh, empty,
  unknown_prefix, bad_length, bad_checksum, unsupported_version, unsupported_network, internal,
  Expected, expected, unexpected, Decoded, to_lower, script_pubkey_hex,
}
use yumtech_umbrel_apps.Address.Base58.{base58_decode, base58check_verify}
use yumtech_umbrel_apps.Address.Bech32.{SegwitInfo, segwit_decode}
use yumtech_umbrel_apps.Address.CashAddr.{CashDecoded, bitcoincash, find_colon, cashaddr_decode}

-- Is the text one of the list?
unfoldable pub one_of : Text → List Text → Bool
one_of t [] = false
one_of t (s ∷ ss) = text_eq t s || one_of t ss

abbrev pub mainnet_prefixes : List Text
mainnet_prefixes =
    bitcoincash
    ∷ (b'e' ∷ b'c' ∷ b'a' ∷ b's' ∷ b'h' ∷ [])
    ∷ (b'b' ∷ b'i' ∷ b't' ∷ b'c' ∷ b'o' ∷ b'i' ∷ b'n' ∷ b'c' ∷ b'a' ∷ b's' ∷ b'h' ∷ b'i' ∷ b'i'
        ∷ [])
    ∷ []

abbrev pub testnet_prefixes : List Text
testnet_prefixes =
    (b'b' ∷ b'c' ∷ b'h' ∷ b't' ∷ b'e' ∷ b's' ∷ b't' ∷ [])
    ∷ (b'e' ∷ b'c' ∷ b't' ∷ b'e' ∷ b's' ∷ b't' ∷ [])
    ∷ []

abbrev pub regtest_prefixes : List Text
regtest_prefixes =
    (b'b' ∷ b'c' ∷ b'h' ∷ b'r' ∷ b'e' ∷ b'g' ∷ []) ∷ (b'e' ∷ b'c' ∷ b'r' ∷ b'e' ∷ b'g' ∷ []) ∷ []

unfoldable pub cash_network : Text → Option Network
unfolding one_of
cash_network prefix =
    if one_of prefix mainnet_prefixes
    then some bch_mainnet
    else if one_of prefix testnet_prefixes
    then some bch_testnet
    else if one_of prefix regtest_prefixes
    then some bch_regtest
    else none

unfoldable pub cash_result : CashDecoded → Expected Decoded
cash_result cad = elim (cash_network cad.prefix) [
  | none ↦ unexpected unsupported_network
  | some net ↦ expected (record {
    kind = if cad.type_bits == 0 then bch_p2pkh else bch_p2sh;
    network = net;
    program = cad.hash;
  })
]

-- The types of a witness program that the pool pays to.
unfoldable pub witness_type : ℕ → ℕ → Option AddressType
witness_type version n =
    if version == 0 && n == 20
    then some p2wpkh
    else if version == 0 && n == 32
    then some p2wsh
    else if version == 1 && n == 32
    then some p2tr
    else none

unfoldable pub witness_result : Network → Expected SegwitInfo → Option Decoded
witness_result net (unexpected e) = none
witness_result net (expected sw) = do
  kind ← witness_type sw.version (length sw.program)
  some (record { kind = kind; network = net; program = sw.program })

-- The test before an address is read as one of `hrp`.
unfoldable pub looks_like : Text → Text → Bool
unfolding to_lower
looks_like hrp addr =
    ltb (length hrp + 1) (length addr)
    && (to_lower (get_or addr 0 0) == get_or hrp 0 0)
    && (to_lower (get_or addr 1 0) == (if ltb 1 (length hrp) then get_or hrp 1 0 else 0))
    && (get_or addr (length hrp) 0 == b'1'
        || leb 3 (length hrp)
          && ltb (length hrp) (length addr)
          && (to_lower (get_or addr 2 0) == get_or hrp 2 0))

unfoldable pub try_bech : Text → Text × Network → Option Decoded
try_bech addr (hrp, net) =
    if looks_like hrp addr then witness_result net (segwit_decode hrp addr) else none

-- The first that succeeds.
unfoldable pub try_all : Text → List (Text × Network) → Option Decoded
try_all addr [] = none
try_all addr (h ∷ hs) = elim (try_bech addr h) [ some d ↦ some d | none ↦ try_all addr hs ]

abbrev pub known_hrps : List (Text × Network)
known_hrps =
    ((b'b' ∷ b'c' ∷ []), bitcoin_mainnet)
    ∷ ((b't' ∷ b'b' ∷ []), bitcoin_testnet)
    ∷ ((b'b' ∷ b'c' ∷ b'r' ∷ b't' ∷ []), bitcoin_regtest)
    ∷ ((b'l' ∷ b't' ∷ b'c' ∷ []), bitcoin_mainnet)
    ∷ ((b't' ∷ b'l' ∷ b't' ∷ b'c' ∷ []), bitcoin_testnet)
    ∷ ((b'd' ∷ b'g' ∷ b'b' ∷ []), bitcoin_mainnet)
    ∷ ((b'd' ∷ b'g' ∷ b'b' ∷ b't' ∷ []), bitcoin_testnet)
    ∷ ((b't' ∷ b'd' ∷ b'g' ∷ b'b' ∷ []), bitcoin_testnet)
    ∷ []

-- The two-byte versions of Zcash, and the versions of one byte.
unfoldable pub zcash_version : ℕ → Option (AddressType × Network)
zcash_version version =
    if version == 0x1cb8
    then some (p2pkh, bitcoin_mainnet)
    else if version == 0x1cbd
    then some (p2sh, bitcoin_mainnet)
    else if version == 0x1d25
    then some (p2pkh, bitcoin_testnet)
    else if version == 0x1cba
    then some (p2sh, bitcoin_testnet)
    else none

-- The cases of the switch.
abbrev pub legacy_table : List (ℕ × (AddressType × Network))
legacy_table =
    (0x00, (p2pkh, bitcoin_mainnet))
    ∷ (0x05, (p2sh, bitcoin_mainnet))
    ∷ (0x6f, (p2pkh, bitcoin_testnet))
    ∷ (0xc4, (p2sh, bitcoin_testnet))
    ∷ (0x30, (p2pkh, bitcoin_mainnet))
    ∷ (0x32, (p2sh, bitcoin_mainnet))
    ∷ (0x3a, (p2sh, bitcoin_testnet))
    ∷ (0x1e, (p2pkh, bitcoin_mainnet))
    ∷ (0x16, (p2sh, bitcoin_mainnet))
    ∷ (0x71, (p2pkh, bitcoin_testnet))
    ∷ (0x3f, (p2sh, bitcoin_mainnet))
    ∷ (0x7e, (p2pkh, bitcoin_testnet))
    ∷ (0x8c, (p2sh, bitcoin_testnet))
    ∷ []

unfoldable pub case_of : ℕ → List (ℕ × (AddressType × Network)) → Option (AddressType × Network)
case_of version [] = none
case_of version ((v, r) ∷ rs) = if v == version then some r else case_of version rs

unfoldable pub legacy_version : ℕ → Option (AddressType × Network)
unfolding case_of
legacy_version version = case_of version legacy_table

-- The check of the size, and what a version stands for.
unfoldable pub legacy_body : Bytes → Option (AddressType × Network) → Expected Decoded
legacy_body body version =
    if length body == 20
    then (elim version [
      | none ↦ unexpected unsupported_version
      | some (kind, net) ↦ expected (record { kind = kind; network = net; program = body })
    ])
    else unexpected bad_length

unfoldable pub legacy_result : Bytes → Expected Decoded
unfolding legacy_body zcash_version legacy_version
legacy_result raw =
    let size = length raw in
    if size == 26
    then legacy_body (take (size - 6) (drop 2 raw))
        (zcash_version (bit_or (get_or raw 0 0 * 2 ^ 8) (get_or raw 1 0)))
    else legacy_body (take (size - 5) (drop 1 raw)) (legacy_version (get_or raw 0 0))

-- Is there no colon, and one of the letters that a CashAddr begins with?
unfoldable pub prefixless_cash : Text → Bool
unfolding to_lower
prefixless_cash addr =
    let first = to_lower (get_or addr 0 0) in first == b'q' || first == b'p' || first == b'r'

module _ (sha256 : Bytes → Option Bytes) where
  unfoldable pub base58_result : Bytes → Option (Expected Decoded)
  unfolding legacy_result
  base58_result raw = if ltb (length raw) 5 then some (unexpected bad_length) else (do
    valid ← base58check_verify sha256 raw
    some (if valid then legacy_result raw else unexpected bad_checksum))

  -- The part behind CashAddr.
  unfoldable pub decode_rest : Text → Option (Expected Decoded)
  unfolding try_all base58_result
  decode_rest addr = elim (try_all addr known_hrps) [
    | some d ↦ some (expected d)
    | none ↦ elim (base58_decode addr) [
      | expected raw ↦ base58_result raw
      | unexpected e ↦ some (unexpected unknown_prefix)
    ]
  ]

  unfoldable pub decode_cash : Bool → Text → Option (Expected Decoded)
  unfolding decode_rest cash_result
  decode_cash has_colon addr = elim (cashaddr_decode addr) [
    | expected cad ↦ some (cash_result cad)
    | unexpected e ↦ if has_colon then some (unexpected e) else decode_rest addr
  ]

  unfoldable pub decode_impl : Text → Option (Expected Decoded)
  unfolding decode_cash prefixless_cash
  decode_impl addr =
      if length addr == 0
      then some (unexpected empty)
      else if ltb 128 (length addr)
      then some (unexpected bad_length)
      else (elim (find_colon addr) [
        | some colon ↦ decode_cash true addr
        | none ↦ if prefixless_cash addr then decode_cash false addr else decode_rest addr
      ])

  unfoldable pub decode : Text → Expected Decoded
  unfolding decode_impl
  decode addr = elim (decode_impl addr) [ none ↦ unexpected internal | some r ↦ r ]

  unfoldable pub decode_to_script_hex : Text → Expected Text
  unfolding decode script_pubkey_hex
  decode_to_script_hex addr = elim (decode addr) [
    | unexpected e ↦ unexpected e
    | expected d ↦ expected (script_pubkey_hex d)
  ]
