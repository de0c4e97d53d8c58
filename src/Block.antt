-- ===== src/Block.antt =====
-- Blocks and their parts as hexadecimal text: the helpers of yumtech/mkpool-src/src/utils.hpp from
-- `rebuild_coinbase` to `valid_ntime`, without the floating-point ones. `none` is an exception. A
-- height of 32 bits is taken as unsigned, as the cast leaves it. SHA-256 is OpenSSL's, a parameter;
-- its failures to allocate are left out.
pub mod Pushes
pub mod Reversal
pub mod Target
use yumtech_umbrel_apps.Prelude.{
  ℕ, zero, suc, ◌+◌, ◌-◌, ◌*◌, ◌/◌, ◌%◌, ◌^◌, bit_or, Bool, true, false, List, [], ◌∷◌, ◌++◌,
  Option, none, some, length, get_or, replicate, ltb, leb, ◌==◌, if◌then◌else◌,
}
use yumtech_umbrel_apps.Prelude.Texts.{Text}
use yumtech_umbrel_apps.Hex.{◌>>=◌, hex_to_bytes, bytes_to_hex, encode_varint}

abbrev pub Bytes : Type 0
Bytes = List ℕ

unfoldable pub rebuild_coinbase : Text → Text → Text → Text
rebuild_coinbase cb1 cb2 full_extranonce = cb1 ++ (full_extranonce ++ cb2)

-- The pairs written in reverse order, in front of `out`. An odd last character is not copied: its
-- place holds the zero of `resize`.
unfoldable pub reverse_pairs : Text → Text → Text
reverse_pairs [] out = out
reverse_pairs (a ∷ []) out = out ++ (0 ∷ [])
reverse_pairs (a ∷ b ∷ hex) out = reverse_pairs hex (a ∷ b ∷ out)

unfoldable pub byte_reverse_hex : Text → Text
unfolding reverse_pairs
byte_reverse_hex hex = reverse_pairs hex []

unfoldable pub build_block_header : Text → Text → Text → Text → Text → Text → Text
build_block_header version prevhash merkleroot ntime bits nonce =
    version ++ (prevhash ++ (merkleroot ++ (ntime ++ (bits ++ nonce))))

module _ (sha256 : Bytes → Bytes) where
  unfoldable pub compute_coinbase_txid_le : Text → Option Text
  compute_coinbase_txid_le coinbase_hex = do
    bytes ← hex_to_bytes coinbase_hex
    some (bytes_to_hex (sha256 (sha256 bytes)))

unfoldable pub join : List Text → Text
join [] = []
join (tx ∷ txs) = tx ++ join txs

unfoldable pub assemble_full_block : Text → Text → List Text → Text
unfolding join
assemble_full_block header coinbase txs =
    header ++ (encode_varint (1 + length txs) ++ (coinbase ++ join txs))

-- `out[i] = v`, inside the array.
unfoldable pub put : ℕ → ℕ → Bytes → Bytes
put i v [] = []
put zero v (b ∷ bs) = v ∷ bs
put (suc i) v (b ∷ bs) = b ∷ put i v bs

-- Three bytes of `m` from `start` on.
unfoldable pub put_mantissa : ℕ → ℕ → Bytes → Bytes
unfolding put
put_mantissa start m out =
    put (start + 2) (m % 256) (put (start + 1) (m / 2 ^ 8 % 256) (put start (m / 2 ^ 16 % 256) out))

-- The part behind the parsing, for the exponent and the mantissa.
unfoldable pub expand_target : ℕ → ℕ → Bytes
unfolding put_mantissa
expand_target exp mant =
    let out = replicate 32 0 in
    if mant == 0
    then out
    else if ltb exp 3
    then put_mantissa 29 (mant / 2 ^ ((3 - exp) * 8)) out
    else if ltb 32 exp
    then out
    else put_mantissa (32 - exp) mant out

unfoldable pub target_from_bits_hex : Text → Option Bytes
unfolding expand_target
target_from_bits_hex bits_hex =
    if length bits_hex == 8
    then (do
      b ← hex_to_bytes bits_hex
      some (
          expand_target (get_or b 0 0)
            (bit_or (bit_or (get_or b 1 0 * 2 ^ 16) (get_or b 2 0 * 2 ^ 8)) (get_or b 3 0))))
    else some (replicate 32 0)

-- `while (h)`; the fuel is the number of bytes of the type.
unfoldable pub height_bytes : ℕ → ℕ → Bytes
height_bytes zero h = []
height_bytes (suc n) h =
    let rest = height_bytes n (h / 2 ^ 8) in if h == 0 then [] else (h % 256) ∷ rest

-- `b` behind the loop and the push of a zero.
unfoldable pub height_payload : ℕ → Bytes
height_payload height = if height == 0 then 0 ∷ [] else height_bytes 4 height

unfoldable pub encode_bip34_height : ℕ → Option Text
encode_bip34_height height =
    let b = height_payload height in
    if leb (2 ^ 31) height then none else some (bytes_to_hex (length b ∷ []) ++ bytes_to_hex b)

unfoldable pub encode_push_bytes : Bytes → Option Text
encode_push_bytes data' =
    if ltb 0x4b (length data')
    then none
    else some (bytes_to_hex (length data' ∷ []) ++ bytes_to_hex data')

unfoldable pub encode_push_ascii : Text → Option Text
unfolding encode_push_bytes
encode_push_ascii s = encode_push_bytes s

-- Times have 32 bits, and the sum wraps around.
unfoldable pub valid_ntime : ℕ → ℕ → ℕ → ℕ → Bool
valid_ntime submitted mintime now_unix future_slack =
    if ltb submitted mintime
    then false
    else if ltb ((now_unix + future_slack) % 2 ^ 32) submitted
    then false
    else true
