-- ===== src/Address/ConvertBits.antt =====
-- Regrouping of bits: `convert_bits` of yumtech/mkpool-src/src/address.cpp.
use yumtech_umbrel_apps.Prelude.{
  ℕ, zero, suc, ◌+◌, ◌-◌, ◌*◌, ◌/◌, ◌%◌, ◌^◌, bit_or, Bool, ◌||◌, not, [], ◌∷◌, ◌++◌, leb, ◌==◌,
  if◌then◌else◌,
}
use yumtech_umbrel_apps.Address.{
  Bytes, bad_length, bad_character, Expected, expected, unexpected, ◌>>=◌,
}

-- The loop `while (bits >= to_bits)`: the groups that it emits, and the bits that are left. A round
-- takes `to_bits` bits, so `bits` is fuel enough.
unfoldable pub emit : ℕ → ℕ → ℕ → ℕ → Bytes × ℕ
emit zero to_bits acc bits = ([], bits)
emit (suc fuel) to_bits acc bits =
    let (out, left) = emit fuel to_bits acc (bits - to_bits) in
    if leb to_bits bits
    then ((acc / 2 ^ (bits - to_bits) % 2 ^ to_bits % 256) ∷ out, left)
    else ([], bits)

-- The loop's variables behind the last group.
pub record Rest : Type 0 where
  pub acc : ℕ
  pub bits : ℕ

-- The loop over the groups of `from_bits` bits: what it emits, and its variables at the end.
unfoldable pub regroup : ℕ → ℕ → Bytes → Rest → Expected (Bytes × Rest)
unfolding emit
regroup from_bits to_bits [] r = expected ([], r)
regroup from_bits to_bits (v ∷ vs) r =
    let acc = bit_or (r.acc * 2 ^ from_bits % 2 ^ 32) v % 2 ^ (from_bits + to_bits - 1) in
    let (out, left) = emit (r.bits + from_bits) to_bits acc (r.bits + from_bits) in
    let rest = regroup from_bits to_bits vs (record { acc = acc; bits = left }) in
    if v / 2 ^ from_bits == 0
    then rest >>= (λ p. expected (out ++ p.0, p.1))
    else unexpected bad_character

-- The bits that are left, moved up to a whole group.
abbrev pub padding : ℕ → Rest → ℕ
padding to_bits r = r.acc * 2 ^ (to_bits - r.bits) % 2 ^ 32 % 2 ^ to_bits

unfoldable pub convert_bits : Bytes → ℕ → ℕ → Bool → Expected Bytes
unfolding regroup
convert_bits input from_bits to_bits pad =
    elim (regroup from_bits to_bits input (record { acc = 0; bits = 0 })) [
      | unexpected e ↦ unexpected e
      | expected (out, r) ↦
          if pad
          then expected (if r.bits == 0 then out else out ++ ((padding to_bits r % 256) ∷ []))
          else if leb from_bits r.bits || not (padding to_bits r == 0)
          then unexpected bad_length
          else expected out
    ]
