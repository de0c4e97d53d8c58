-- ===== src/Hex/Reading.antt =====
-- What `hex_to_bytes` accepts and returns, on any text.
use yumtech_umbrel_apps.Prelude.{
  subst, ◌-◌, ℕ, ◌+◌, ◌*◌, ◌/◌, ◌%◌, ◌^◌, ◌<◌, bit_or, ◌≡◌, refl, ◌⊎◌, inl, inr, true, false, ◌&&◌,
  List, [], ◌∷◌, map, Option, none, some, length, All, leb, ◌==◌, Bool-cases, arith,
}
use yumtech_umbrel_apps.Hex.{
  Text, ◌>>=◌, hex_nibble, hex_pairs, hex_to_bytes, bytes_to_hex, is_hex_char,
}
use yumtech_umbrel_apps.Hex.RoundTrip.{
  IsByte, lower, join_nibbles, nibble_inv, hex_digit-hex_nibble,
}

pub >>=-some {ℓ κ} :
    {A : Type ℓ} {B : Type κ} (o : Option A) (f : A → Option B) (b : B)
    → (o >>= f) ≡ some b
    → (a : A) × (o ≡ some a) × (f a ≡ some b)
>>=-some (some a) f b h = (a, refl, h)
>>=-some none f b h = cc

pub some_inj {ℓ} : {A : Type ℓ} (a b : A) → some a ≡ some b → a ≡ b
some_inj a b e = cc

-- One pair of digits and the byte that it makes.
pair-byte :
    (hi lo : ℕ)
    → hi < 16
    → lo < 16
    → let v = bit_or (hi * 2 ^ 4) lo % 256 in (v / 2 ^ 4 ≡ hi) × (v % 16 ≡ lo) × (v < 256)
pair-byte hi lo p q = rw (join_nibbles hi lo q p) (omega arith)

-- A successful read of a pair and the rest.
pair_inv :
    (a b : ℕ) (h : Text) (bs : List ℕ)
    → hex_pairs (a ∷ b ∷ h) ≡ some bs
    → (hi : ℕ) × (lo : ℕ) × (rest : List ℕ) × (hex_nibble a ≡ some hi)
      × (hex_nibble b ≡ some lo)
      × (hex_pairs h ≡ some rest)
      × ((bit_or (hi * 2 ^ 4) lo % 256) ∷ rest ≡ bs)
unfolding hex_pairs
pair_inv a b h bs e =
    let (hi, ehi, k1) = >>=-some (hex_nibble a) _ bs e in
    let (lo, elo, k2) = >>=-some (hex_nibble b) _ bs k1 in
    let (rest, erest, k3) = >>=-some (hex_pairs h) _ bs k2 in
    (hi, lo, rest, ehi, elo, erest, some_inj _ _ k3)

-- The bytes print as the text that they were read from, in lower case.
abbrev Prints : Text → List ℕ → Type 0
Prints h bs = (bytes_to_hex bs ≡ map lower h) × All IsByte bs

hex_pairs-Prints : (h : Text) (bs : List ℕ) → hex_pairs h ≡ some bs → Prints h bs
unfolding bytes_to_hex hex_pairs
hex_pairs-Prints [] bs e = subst (Prints []) (some_inj [] bs e) (refl, tt)
hex_pairs-Prints (a ∷ []) bs e = cc
hex_pairs-Prints (a ∷ b ∷ h) bs e =
    let (hi, lo, rest, ehi, elo, erest, ebs) = pair_inv a b h bs e in
    let (print, bytes) = hex_pairs-Prints h rest erest in
    let (top, low, small) = pair-byte hi lo (nibble_inv a hi ehi).0 (nibble_inv b lo elo).0 in
    subst (Prints (a ∷ b ∷ h)) ebs (
      rw (top, low, hex_digit-hex_nibble a hi ehi, hex_digit-hex_nibble b lo elo, print) refl,
      (small, bytes),
    )

-- A text that is read gives bytes, and they print as the same text in lower case.
pub bytes_to_hex-hex_to_bytes :
    (h : Text) (bs : List ℕ)
    → hex_to_bytes h ≡ some bs
    → (bytes_to_hex bs ≡ map lower h) × All IsByte bs
unfolding hex_to_bytes
bytes_to_hex-hex_to_bytes h bs e = elim (Bool-cases (length h % 2 == 0)) [
  | inl even ↦ hex_pairs-Prints h bs (rw even at e)
  | inr odd ↦ cc (rw odd at e)
]

nibble-is_hex_char :
    (c : ℕ)
    → ((is_hex_char c ≡ true) × ((n : ℕ) × (hex_nibble c ≡ some n)))
      ⊎ ((is_hex_char c ≡ false) × (hex_nibble c ≡ none))
unfolding hex_nibble
nibble-is_hex_char c = elim (Bool-cases (leb b'0' c && leb c b'9')) [
  | inl d ↦ inl (rw d refl, (c - b'0', rw d refl))
  | inr d ↦ elim (Bool-cases (leb b'a' c && leb c b'f')) [
    | inl l ↦ inl (rw (d, l) refl, (c - b'a' + 10, rw (d, l) refl))
    | inr l ↦ elim (Bool-cases (leb b'A' c && leb c b'F')) [
      | inl u ↦ inl (rw (d, l, u) refl, (c - b'A' + 10, rw (d, l, u) refl))
      | inr u ↦ inr (rw (d, l, u) refl, rw (d, l, u) refl)
    ]
  ]
]
