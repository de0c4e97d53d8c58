-- ===== src/Block/Pushes.antt =====
-- What a reader of a script finds in the pushes that the coinbase is made of.
use yumtech_umbrel_apps.Prelude.{
  ℕ, zero, suc, ◌+◌, ◌*◌, ◌/◌, ◌^◌, ◌<◌, ◌≤◌, ◌≡◌, refl, sym, ap, inl, inr, false, List, [], ◌∷◌,
  ◌++◌, some, length, All, leb, le→ltb, ◌==◌, ==_iff, Bool-cases, arith,
}
use native.Mathlib.Nat.{pow-suc}
use yumtech_umbrel_apps.Hex.{hex_to_bytes, bytes_to_hex}
use yumtech_umbrel_apps.Hex.RoundTrip.{IsByte, hex_to_bytes-bytes_to_hex}
use yumtech_umbrel_apps.Block.{
  Bytes, height_bytes, height_payload, encode_bip34_height, encode_push_bytes,
}

-- The number of a list with the lowest byte first.
abbrev pub le_number : Bytes → ℕ
le_number [] = 0
le_number (b ∷ bs) = b + 256 * le_number bs

bytes_to_hex-cons :
    (b : ℕ) (bs : Bytes) → bytes_to_hex (b ∷ []) ++ bytes_to_hex bs ≡ bytes_to_hex (b ∷ bs)
unfolding bytes_to_hex
bytes_to_hex-cons b bs = refl

-- A push of at most 75 bytes reads as their number and the bytes; a longer one is refused.
pub encode_push_bytes-read :
    (bs : Bytes)
    → All IsByte bs
    → (length bs ≤ 75)
    → (s : List ℕ) × (encode_push_bytes bs ≡ some s) × (hex_to_bytes s ≡ some (length bs ∷ bs))
unfolding encode_push_bytes
encode_push_bytes-read bs v h = (
  bytes_to_hex (length bs ∷ bs),
  rw (le→ltb 75 (length bs) h) (ap some (bytes_to_hex-cons (length bs) bs)),
  hex_to_bytes-bytes_to_hex (length bs ∷ bs) (omega arith, v),
)

record HeightBytes (h : ℕ) (bs : Bytes) : Type 0 where
  bytes : All IsByte bs
  value : le_number bs ≡ h

height_bytes-HeightBytes : (n h : ℕ) → h < 256 ^ n → HeightBytes h (height_bytes n h)
unfolding height_bytes
height_bytes-HeightBytes zero h k = record { bytes = tt; value = omega arith }
height_bytes-HeightBytes (suc n) h k = elim (Bool-cases (h == 0)) [
  | inl z ↦ rw z (record { bytes = tt; value = sym ((==_iff h 0).0 z) })
  | inr p ↦
      let i = height_bytes-HeightBytes n (h / 2 ^ 8) (omega (arith, pow-suc 256 n)) in
      rw p (record { bytes = (omega arith, i.bytes); value = omega (arith, i.value) })
]

length-height_bytes : (n h : ℕ) → length (height_bytes n h) ≤ n
unfolding height_bytes
length-height_bytes zero h = omega arith
length-height_bytes (suc n) h = ground (arith, length-height_bytes n (h / 2 ^ 8))

height_payload-HeightBytes :
    (h : ℕ) → h < 2 ^ 31 → HeightBytes h (height_payload h) × (length (height_payload h) ≤ 4)
unfolding height_payload
height_payload-HeightBytes h k = elim (Bool-cases (h == 0)) [
  | inl z ↦ rw z (record { bytes = (omega arith, tt); value = sym ((==_iff h 0).0 z) }, omega arith)
  | inr p ↦ rw p (height_bytes-HeightBytes 4 h (omega arith), length-height_bytes 4 h)
]

-- The height of a block, below 2^31, is pushed as at most four bytes that spell it, the lowest first.
pub encode_bip34_height-read :
    (height : ℕ)
    → height < 2 ^ 31
    → (s : List ℕ) × (bs : Bytes) × (encode_bip34_height height ≡ some s)
      × (hex_to_bytes s ≡ some (length bs ∷ bs))
      × (le_number bs ≡ height)
      × (length bs ≤ 4)
unfolding encode_bip34_height
encode_bip34_height-read height h =
    let (i, few) = height_payload-HeightBytes height h in
    let b = height_payload height in
    (
      bytes_to_hex (length b ∷ b),
      b,
      rw below (ap some (bytes_to_hex-cons (length b) b)),
      hex_to_bytes-bytes_to_hex (length b ∷ b) (omega arith, i.bytes),
      i.value,
      few,
    )
  where
    below : leb (2 ^ 31) height ≡ false
    below = ground arith
