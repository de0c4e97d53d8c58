-- ===== src/Address/Programs.antt =====
-- The programs of decoded addresses: their sizes, and what their outputs weigh.
use yumtech_umbrel_apps.Prelude.{
  ℕ, ◌+◌, ◌-◌, ◌/◌, ◌%◌, ◌≡◌, refl, subst, ◌∙◌, inl, inr, Bool, true, false, ◌||◌, ◌&&◌, List, [],
  ◌∷◌, ◌++◌, Option, none, some, map, take, drop, length, get_or, ltb, ◌==◌, ==_iff, if◌then◌else◌,
  Bool-cases, Option-cases, arith,
}
use yumtech_umbrel_apps.Prelude.Texts.{Text}
use yumtech_umbrel_apps.Prelude.Tables.{every_below, every_below-lookup}
use yumtech_umbrel_apps.Hex.Reading.{>>=-some, some_inj}
use yumtech_umbrel_apps.Address.{
  Bytes, Network, AddressType, p2pkh, p2sh, p2wpkh, p2wsh, p2tr, bch_p2pkh, bch_p2sh, Expected,
  expected, unexpected, to_lower, Decoded,
}
use yumtech_umbrel_apps.Address.Results.{expected_inj, >>=-expected}
use yumtech_umbrel_apps.Address.Bech32.{SegwitInfo, segwit_decode, has, is_upper, is_lower, symbols}
use yumtech_umbrel_apps.Address.ConvertBits.{convert_bits}
use yumtech_umbrel_apps.Address.CashAddr.{
  CashDecoded, cashaddr_polymod, cashaddr_expand_prefix, bitcoincash, size_map, cash_hash,
  cash_values, cash_payload, cashaddr_decode, find_colon,
}
use yumtech_umbrel_apps.Address.Decoder.{
  cash_network, cash_result, witness_type, witness_result, try_bech, try_all, looks_like,
  zcash_version, case_of, legacy_version, legacy_body,
}

abbrev pub is_cash : AddressType → Bool
is_cash bch_p2pkh = true
is_cash bch_p2sh = true
is_cash k = false

-- The sizes of CashAddr hashes, in bytes.
unfoldable pub is_cash_size : ℕ → Bool
is_cash_size n =
    n == 20 || n == 24 || n == 28 || n == 32 || n == 40 || n == 48 || n == 56 || n == 64

-- The sizes that an address of a type can have.
abbrev pub size_ok : AddressType → ℕ → Bool
size_ok p2pkh n = n == 20
size_ok p2sh n = n == 20
size_ok p2wpkh n = n == 20
size_ok p2wsh n = n == 32
size_ok p2tr n = n == 32
size_ok bch_p2pkh n = is_cash_size n
size_ok bch_p2sh n = is_cash_size n

abbrev pub IsSized : Decoded → Type 0
IsSized d = size_ok d.kind (length d.program) ≡ true

witness_type-size : (v n : ℕ) (k : AddressType) → witness_type v n ≡ some k → size_ok k n ≡ true
unfolding witness_type
witness_type-size v n k e = ground arith

witness_result-IsSized :
    (net : Network) (r : Expected SegwitInfo) (d : Decoded)
    → witness_result net r ≡ some d
    → IsSized d
unfolding witness_result
witness_result-IsSized net (unexpected e) d h = cc
witness_result-IsSized net (expected sw) d h =
    let (k, ek, e) = >>=-some (witness_type sw.version (length sw.program)) _ d h in
    subst IsSized (some_inj _ _ e) (witness_type-size sw.version (length sw.program) k ek)

pub zcash_version-size :
    (v : ℕ) (k : AddressType) (net : Network)
    → zcash_version v ≡ some (k, net)
    → size_ok k 20 ≡ true
unfolding zcash_version
zcash_version-size v k net e = ground arith

pub legacy_version-size :
    (v : ℕ) (k : AddressType) (net : Network)
    → legacy_version v ≡ some (k, net)
    → size_ok k 20 ≡ true
unfolding legacy_version case_of
legacy_version-size v k net e = ground arith

try_bech-IsSized :
    (addr : Text) (h : Text × Network) (d : Decoded) → try_bech addr h ≡ some d → IsSized d
unfolding try_bech
try_bech-IsSized addr (hrp, net) d e = elim (Bool-cases (looks_like hrp addr)) [
  | inl yes' ↦ witness_result-IsSized net (segwit_decode hrp addr) d (rw yes' at e)
  | inr no' ↦ absurd (ground arith)
]

pub try_all-IsSized :
    (addr : Text) (hs : List (Text × Network)) (d : Decoded) → try_all addr hs ≡ some d → IsSized d
unfolding try_all
try_all-IsSized addr [] d e = cc
try_all-IsSized addr (h ∷ hs) d e = elim (Option-cases (try_bech addr h)) [
  | inl failed ↦ try_all-IsSized addr hs d (rw (failed, try_all) at e)
  | inr (d', found) ↦ try_bech-IsSized addr h d (found ∙ rw (found, try_all) at e)
]

pub legacy_body-IsSized :
    (body : Bytes) (v : Option (AddressType × Network)) (d : Decoded)
    → ((k : AddressType) (net : Network) → v ≡ some (k, net) → size_ok k 20 ≡ true)
    → legacy_body body v ≡ expected d
    → IsSized d
unfolding legacy_body
legacy_body-IsSized body none d k e = absurd (ground arith)
legacy_body-IsSized body (some (kind, net)) d k e = elim (Bool-cases (length body == 20)) [
  | inl size ↦
      subst IsSized (expected_inj _ _ (rw size at e))
        (rw ((==_iff (length body) 20).0 size) (k kind net refl))
  | inr size ↦ absurd (ground arith)
]

cash_table : every_below 8 (λ v. is_cash_size (get_or size_map v 0 / 8)) ≡ true
unfolding every_below is_cash_size
cash_table = refl

cash_hash-size :
    (prefix : Text) (bytes : Bytes) (cad : CashDecoded)
    → cash_hash prefix bytes ≡ expected cad
    → is_cash_size (length cad.hash) ≡ true
unfolding cash_hash
cash_hash-size prefix [] cad e = cc
cash_hash-size prefix (version ∷ hash) cad e =
    elim (Bool-cases (length hash == get_or size_map (version % 8) 0 / 8)) [
      | inl size ↦
          subst (λ c. is_cash_size (length c.hash) ≡ true) (expected_inj _ _ (rw size at e))
            (rw ((==_iff (length hash) (get_or size_map (version % 8) 0 / 8)).0 size)
              (every_below-lookup 8 _ cash_table (version % 8) (omega arith)))
      | inr size ↦ absurd (ground arith)
    ]

cash_values-size :
    (prefix : Text) (values : Bytes) (cad : CashDecoded)
    → cash_values prefix values ≡ expected cad
    → is_cash_size (length cad.hash) ≡ true
unfolding cash_values
cash_values-size prefix values cad e = elim (Bool-cases (ltb (length values) 8)) [
  | inl short ↦ absurd (ground arith)
  | inr long ↦ elim (Bool-cases (cashaddr_polymod (cashaddr_expand_prefix prefix ++ values) == 0)) [
    | inl valid ↦
        let (bytes, converted, hash) =
          >>=-expected (convert_bits (take (length values - 8) values) 5 8 false) (cash_hash prefix)
            cad (rw (long, valid) at e) in
        cash_hash-size prefix bytes cad hash
    | inr invalid ↦ absurd (ground arith)
  ]
]

cash_payload-size :
    (prefix payload : Text) (cad : CashDecoded)
    → cash_payload prefix payload ≡ expected cad
    → is_cash_size (length cad.hash) ≡ true
unfolding cash_payload
cash_payload-size prefix payload cad e =
    elim (Bool-cases (has is_upper payload && has is_lower payload)) [
      | inl mixed ↦ absurd (ground arith)
      | inr uniform ↦
          let (values, read, rest) =
            >>=-expected (symbols (map to_lower payload)) (cash_values (map to_lower prefix)) cad
              (rw uniform at e) in
          cash_values-size (map to_lower prefix) values cad rest
    ]

pub cashaddr_decode-size :
    (s : Text) (cad : CashDecoded)
    → cashaddr_decode s ≡ expected cad
    → is_cash_size (length cad.hash) ≡ true
unfolding cashaddr_decode
cashaddr_decode-size s cad e = elim (Option-cases (find_colon s)) [
  | inl absent ↦ cash_payload-size bitcoincash s cad (rw (absent, cashaddr_decode) at e)
  | inr (i, found) ↦
      cash_payload-size (take i s) (drop (i + 1) s) cad (rw (found, cashaddr_decode) at e)
]

pub cash_result-IsSized :
    (cad : CashDecoded) (d : Decoded)
    → is_cash_size (length cad.hash) ≡ true
    → cash_result cad ≡ expected d
    → IsSized d
unfolding cash_result
cash_result-IsSized cad d h e = elim (Option-cases (cash_network cad.prefix)) [
  | inl unknown ↦ absurd (ground arith)
  | inr (net, known) ↦
      subst IsSized (expected_inj _ _ (rw (known, cash_result) at e)) (kinds (cad.type_bits == 0))
]
  where
    kinds : (b : Bool) → size_ok (if b then bch_p2pkh else bch_p2sh) (length cad.hash) ≡ true
    kinds true = h
    kinds false = h
