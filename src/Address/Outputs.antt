-- ===== src/Address/Outputs.antt =====
-- What `decode` accepts: the size of every program, and the weight of an output to it.
use yumtech_umbrel_apps.Prelude.{
  ℕ, ◌+◌, ◌-◌, ◌*◌, ◌^◌, bit_or, ◌≡◌, subst, ap, ◌∙◌, ◌⊎◌, inl, inr, Bool, true, false, Option,
  some, length, get_or, take, drop, ltb, ◌==◌, ==_iff, if◌then◌else◌, Bool-cases, Option-cases,
  length-append, arith,
}
use yumtech_umbrel_apps.Prelude.Texts.{Text}
use yumtech_umbrel_apps.Hex.{bytes_to_hex}
use yumtech_umbrel_apps.Hex.Reading.{>>=-some, some_inj}
use yumtech_umbrel_apps.Hex.RoundTrip.{length-bytes_to_hex}
use yumtech_umbrel_apps.Address.{
  Bytes, Network, AddressType, p2pkh, p2sh, p2wpkh, p2wsh, p2tr, bch_p2pkh, bch_p2sh, Error,
  expected, unexpected, bad_checksum, Decoded, script_pubkey_hex, output_vbytes,
}
use yumtech_umbrel_apps.Address.Results.{expected_inj, Expected-cases}
use yumtech_umbrel_apps.Address.Base58.{base58_decode, base58check_verify}
use yumtech_umbrel_apps.Address.CashAddr.{find_colon, cashaddr_decode}
use yumtech_umbrel_apps.Address.Decoder.{
  try_all, known_hrps, zcash_version, legacy_version, legacy_result, base58_result, decode_rest,
  decode_cash, decode_impl, decode, prefixless_cash,
}
use yumtech_umbrel_apps.Address.Programs.{
  is_cash, size_ok, IsSized, zcash_version-size, legacy_version-size, legacy_body-IsSized,
  try_all-IsSized, cashaddr_decode-size, cash_result-IsSized,
}

legacy_result-IsSized : (raw : Bytes) (d : Decoded) → legacy_result raw ≡ expected d → IsSized d
unfolding legacy_result
legacy_result-IsSized raw d e = elim (Bool-cases (length raw == 26)) [
  | inl zcash ↦
      legacy_body-IsSized (take (length raw - 6) (drop 2 raw)) (zcash_version v) d
        (zcash_version-size v) (rw zcash at e)
  | inr legacy ↦
      legacy_body-IsSized (take (length raw - 5) (drop 1 raw)) (legacy_version (get_or raw 0 0)) d
        (legacy_version-size (get_or raw 0 0)) (rw legacy at e)
]
  where
    v : ℕ
    v = bit_or (get_or raw 0 0 * 2 ^ 8) (get_or raw 1 0)

module _ (sha256 : Bytes → Option Bytes) where
  base58_result-IsSized :
      (raw : Bytes) (d : Decoded) → base58_result sha256 raw ≡ some (expected d) → IsSized d
  unfolding base58_result
  base58_result-IsSized raw d e = elim (Bool-cases (ltb (length raw) 5)) [
    | inl short ↦ absurd (ground arith)
    | inr long ↦
        let (valid, ev, rest) =
          >>=-some (base58check_verify sha256 raw)
            (λ valid. some (if valid then legacy_result raw else unexpected bad_checksum))
            (expected d) (rw long at e) in
        checked valid (some_inj _ _ rest)
  ]
    where
      checked :
          (valid : Bool)
          → (if valid then legacy_result raw else unexpected bad_checksum) ≡ expected d
          → IsSized d
      checked true e = legacy_result-IsSized raw d e
      checked false e = absurd (ground arith)

  decode_rest-IsSized :
      (addr : Text) (d : Decoded) → decode_rest sha256 addr ≡ some (expected d) → IsSized d
  unfolding decode_rest
  decode_rest-IsSized addr d e = elim (Option-cases (try_all addr known_hrps)) [
    | inr (d', witness) ↦
        subst IsSized (expected_inj _ _ (some_inj _ _ (rw (witness, decode_rest) at e)))
          (try_all-IsSized addr known_hrps d' witness)
    | inl none' ↦ elim (Expected-cases (base58_decode addr)) [
      | inl (raw, er) ↦ base58_result-IsSized raw d (rw (none', decode_rest, er) at e)
      | inr (x, er) ↦ absurd (ground arith)
    ]
  ]

  decode_cash-IsSized :
      (c : Bool) (addr : Text) (d : Decoded)
      → decode_cash sha256 c addr ≡ some (expected d)
      → IsSized d
  unfolding decode_cash
  decode_cash-IsSized c addr d e = elim (Expected-cases (cashaddr_decode addr)) [
    | inl (cad, read) ↦
        cash_result-IsSized cad d (cashaddr_decode-size addr cad read)
          (some_inj _ _ (rw (read, decode_cash) at e))
    | inr (x, failed) ↦ other c x (rw (failed, decode_cash) at e)
  ]
    where
      other :
          (c : Bool) (x : Error)
          → (if c then some (unexpected x) else decode_rest sha256 addr) ≡ some (expected d)
          → IsSized d
      other true x e = absurd (ground arith)
      other false x e = decode_rest-IsSized addr d e

  decode_impl-IsSized :
      (addr : Text) (d : Decoded) → decode_impl sha256 addr ≡ some (expected d) → IsSized d
  unfolding decode_impl
  decode_impl-IsSized addr d e = elim (Bool-cases (length addr == 0)) [
    | inl none' ↦ absurd (ground arith)
    | inr one ↦ elim (Bool-cases (ltb 128 (length addr))) [
      | inl long ↦ absurd (ground arith)
      | inr short ↦ elim (Option-cases (find_colon addr)) [
        | inr (i, colon) ↦
            decode_cash-IsSized true addr d (rw (one, short, colon, decode_impl) at e)
        | inl bare ↦ elim (Bool-cases (prefixless_cash addr)) [
          | inl cash ↦
              decode_cash-IsSized false addr d (rw (one, short, bare, decode_impl, cash) at e)
          | inr other ↦ decode_rest-IsSized addr d (rw (one, short, bare, decode_impl, other) at e)
        ]
      ]
    ]
  ]

  pub decode-size :
      (addr : Text) (d : Decoded)
      → decode sha256 addr ≡ expected d
      → size_ok d.kind (length d.program) ≡ true
  unfolding decode
  decode-size addr d e = elim (Option-cases (decode_impl sha256 addr)) [
    | inl thrown ↦ absurd (ground arith)
    | inr (r, returned) ↦
        decode_impl-IsSized addr d (returned ∙ ap some (rw (returned, decode) at e))
  ]

script-weight :
    (k : AddressType) (net : Network) (p : Bytes)
    → size_ok k (length p) ≡ true
    → ((is_cash k ≡ false) ⊎ (length p ≡ 20))
    → length (script_pubkey_hex (record { kind = k; network = net; program = p })) + 18
      ≡ 2 * output_vbytes k
unfolding script_pubkey_hex output_vbytes
script-weight p2pkh net p h c =
    omega
      (arith, (==_iff (length p) 20).0 h, length-append (bytes_to_hex p) _, length-bytes_to_hex p)
script-weight p2sh net p h c =
    omega
      (arith, (==_iff (length p) 20).0 h, length-append (bytes_to_hex p) _, length-bytes_to_hex p)
script-weight p2wpkh net p h c = omega (arith, (==_iff (length p) 20).0 h, length-bytes_to_hex p)
script-weight p2wsh net p h c = omega (arith, (==_iff (length p) 32).0 h, length-bytes_to_hex p)
script-weight p2tr net p h c = omega (arith, (==_iff (length p) 32).0 h, length-bytes_to_hex p)
script-weight bch_p2pkh net p h (inl e) = cc
script-weight bch_p2pkh net p h (inr e) =
    omega (arith, length-append (bytes_to_hex p) _, length-bytes_to_hex p)
script-weight bch_p2sh net p h (inl e) = cc
script-weight bch_p2sh net p h (inr e) =
    omega (arith, length-append (bytes_to_hex p) _, length-bytes_to_hex p)

-- For an address that is accepted, and is not a CashAddr with a hash of other than 20 bytes, the
-- weight of an output is its 8 bytes of value, one byte of length, and the bytes of the script.
pub script_pubkey_hex-decode :
    (sha256 : Bytes → Option Bytes) (addr : Text) (d : Decoded)
    → decode sha256 addr ≡ expected d
    → ((is_cash d.kind ≡ false) ⊎ (length d.program ≡ 20))
    → length (script_pubkey_hex d) + 18 ≡ 2 * output_vbytes d.kind
script_pubkey_hex-decode sha256 addr d e c =
    script-weight d.kind d.network d.program (decode-size sha256 addr d e) c
