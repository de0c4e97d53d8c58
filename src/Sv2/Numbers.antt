-- ===== src/Sv2/Numbers.antt =====
-- The reading methods of numbers decode what the writing methods of the same type append.
use yumtech_umbrel_apps.Prelude.{
  ℕ, zero, suc, ◌+◌, ◌*◌, ◌/◌, ◌%◌, ◌^◌, ◌≤◌, ◌<◌, bit_or, ◌≡◌, refl, ap, ◌∙◌, Bool, true, false,
  [], ◌∷◌, ◌++◌, append_assoc, get_or, arith,
}
use native.Mathlib.Nat.{
  mod-eq_of_lt, mod-lt, one-le-pow, pow-le-pow_right, mod-add-div', div-div-eq-div-mul,
}
use native.Mathlib.Numerals.{towards_suc}
use yumtech_umbrel_apps.Prelude.Bits.{bit_or_add}
use yumtech_umbrel_apps.Sv2.Writer.{
  Bytes, IsU16, IsU24, IsU32, IsU64, write_u8, write_bool, write_u16, write_u24, write_u32,
  write_u64, write_f32,
}
use yumtech_umbrel_apps.Sv2.Reader.{
  Reader, byte, le8, le16, le24, le32, read_u8, read_bool, read_u16, read_u24, read_u32,
  read_u64_loop, read_u64, read_f32,
}
use yumtech_umbrel_apps.Sv2.Decodes.{
  Codes, bind-Codes, pure-Codes, at, get_or-append, fixed-Decodes,
}

pub u8-Codes : (v : ℕ) → Codes read_u8 (λ w. write_u8 w v) v
unfolding read_u8 write_u8
u8-Codes v = record {
  tail = v ∷ [];
  appends = λ w. refl;
  decodes = fixed-Decodes 1 le8 (v ∷ []) v refl (λ pre rest. get_or-append pre (v ∷ rest) 0);
}

pub bool-Codes : (v : Bool) → Codes read_bool (λ w. write_bool w v) v
unfolding read_bool write_bool write_u8
bool-Codes true = bind-Codes _ (u8-Codes 1) (pure-Codes true)
bool-Codes false = bind-Codes _ (u8-Codes 0) (pure-Codes false)

union16 : (v : ℕ) → IsU16 v → bit_or (v % 256) (v / 2 ^ 8 % 256 * 2 ^ 8) % 2 ^ 16 ≡ v
union16 v h = rw (bit_or_add 8 (v % 256) (v / 2 ^ 8 % 256) (omega arith)) (omega arith)

pub u16-Codes : (v : ℕ) → IsU16 v → Codes read_u16 (λ w. write_u16 w v) v
unfolding read_u16 write_u16
u16-Codes v h = record {
  tail = write_u16 [] v;
  appends = λ w. refl;
  decodes =
      fixed-Decodes 2 le16 (write_u16 [] v) v refl
        (λ pre rest. simp (get_or-append pre) (union16 v h));
}

-- `low | (byte << k)`, where `low` has `k` bits.
union24 :
    (v : ℕ)
    → IsU24 v
    → bit_or (bit_or (v % 256) (v / 2 ^ 8 % 256 * 2 ^ 8)) (v / 2 ^ 16 % 256 * 2 ^ 16) % 2 ^ 32 ≡ v
union24 v h =
    let low : ℕ = v % 256 + v / 2 ^ 8 % 256 * 2 ^ 8 in
    rw (bit_or_add 8 (v % 256) (v / 2 ^ 8 % 256) (omega arith))
      (rw (bit_or_add 16 low (v / 2 ^ 16 % 256) (omega arith)) (omega arith))

pub u24-Codes : (v : ℕ) → IsU24 v → Codes read_u24 (λ w. write_u24 w v) v
unfolding read_u24 write_u24
u24-Codes v h = record {
  tail = write_u24 [] v;
  appends = λ w. refl;
  decodes =
      fixed-Decodes 3 le24 (write_u24 [] v) v refl
        (λ pre rest. simp (get_or-append pre) (union24 v h));
}

union32 :
    (v : ℕ)
    → IsU32 v
    → bit_or
          (bit_or (bit_or (v % 256) (v / 2 ^ 8 % 256 * 2 ^ 8)) (v / 2 ^ 16 % 256 * 2 ^ 16))
          (v / 2 ^ 24 % 256 * 2 ^ 24)
        % 2 ^ 32
      ≡ v
union32 v h =
    let low : ℕ = v % 256 + v / 2 ^ 8 % 256 * 2 ^ 8 in
    let mid : ℕ = low + v / 2 ^ 16 % 256 * 2 ^ 16 in
    rw (bit_or_add 8 (v % 256) (v / 2 ^ 8 % 256) (omega arith)) (
      rw (bit_or_add 16 low (v / 2 ^ 16 % 256) (omega arith))
        (rw (bit_or_add 24 mid (v / 2 ^ 24 % 256) (omega arith)) (omega arith)))

pub u32-Codes : (v : ℕ) → IsU32 v → Codes read_u32 (λ w. write_u32 w v) v
unfolding read_u32 write_u32
u32-Codes v h = record {
  tail = write_u32 [] v;
  appends = λ w. refl;
  decodes =
      fixed-Decodes 4 le32 (write_u32 [] v) v refl
        (λ pre rest. simp (get_or-append pre) (union32 v h));
}

pow_byte : (i : ℕ) → 2 ^ ((i + 1) * 8) ≡ 2 ^ (i * 8) * 256
pow_byte i = let e : (i + 1) * 8 ≡ i * 8 + 8 = omega arith in rw e (simp towards_suc (omega arith))

mod_grow : (v m : ℕ) → v % m + v / m % 256 * m ≡ v % (m * 256)
mod_grow v m = omega (
  arith,
  mod-add-div' v m,
  mod-add-div' v (m * 256),
  ap (λ (t : ℕ). t * (m * 256)) (div-div-eq-div-mul v m 256),
  ap (λ (t : ℕ). t * m) (mod-add-div' (v / m) 256),
)

-- One round of the loop of `read_u64`: the low bits of `v` grow by a byte.
union_round :
    (i v : ℕ)
    → 2 ^ (i * 8) * 256 ≤ 2 ^ 64
    → bit_or (v % 2 ^ (i * 8)) (v / 2 ^ (i * 8) % 256 * 2 ^ (i * 8) % 2 ^ 64)
      ≡ v % 2 ^ ((i + 1) * 8)
union_round i v h =
    rw (mod-eq_of_lt {n = v / p % 256 * p} {m = 2 ^ 64} fits)
      (rw (bit_or_add (i * 8) (v % p) (v / p % 256) (mod-lt v pos), pow_byte i) (mod_grow v p))
  where
    p : ℕ
    p = 2 ^ (i * 8)

    pos : 0 < p
    pos = one-le-pow (i * 8) 2 (omega arith)

    below : v / p % 256 < 256
    below = omega arith

    fits : v / p % 256 * p < 2 ^ 64
    fits = grind arith

-- The loop, from round `i` on.
union_loop :
    (n i v : ℕ) (r : Reader)
    → ((j : ℕ) → j < 8 → byte r j ≡ v / 2 ^ (j * 8) % 256)
    → i + n ≡ 8
    → read_u64_loop n i (v % 2 ^ (i * 8)) r ≡ v % 2 ^ 64
unfolding read_u64_loop
union_loop zero i v r h b = ap (λ (k : ℕ). v % 2 ^ (k * 8)) {y = 8} (omega arith)
union_loop (suc n) i v r h b =
    rw (h i (omega arith), union_round i v fits) (union_loop n (i + 1) v r h (omega arith))
  where
    fits : 2 ^ (i * 8) * 256 ≤ 2 ^ 64
    fits = rw (← pow_byte i) (pow-le-pow_right (omega arith) {j = 64} (omega arith))

write_u64-bytes :
    (v : ℕ) (rest : Bytes) (j : ℕ)
    → j < 8
    → get_or (write_u64 [] v ++ rest) j 0 ≡ v / 2 ^ (j * 8) % 256
unfolding write_u64
write_u64-bytes v rest zero h = refl
write_u64-bytes v rest (suc zero) h = refl
write_u64-bytes v rest (suc (suc zero)) h = refl
write_u64-bytes v rest (suc (suc (suc zero))) h = refl
write_u64-bytes v rest (suc (suc (suc (suc zero)))) h = refl
write_u64-bytes v rest (suc (suc (suc (suc (suc zero))))) h = refl
write_u64-bytes v rest (suc (suc (suc (suc (suc (suc zero)))))) h = refl
write_u64-bytes v rest (suc (suc (suc (suc (suc (suc (suc zero))))))) h = refl
write_u64-bytes v rest (suc (suc (suc (suc (suc (suc (suc (suc j)))))))) h = absurd (omega arith)

u64-value :
    (v : ℕ) (pre rest : Bytes) → IsU64 v → read_u64_loop 8 0 0 (at pre (write_u64 [] v ++ rest)) ≡ v
u64-value v pre rest h =
    ap (λ (a : ℕ). read_u64_loop 8 0 a r) {x = 0} {y = v % 2 ^ (0 * 8)} (omega arith)
    ∙ union_loop 8 0 v r bytes refl
    ∙ mod-eq_of_lt h
  where
    r : Reader
    r = at pre (write_u64 [] v ++ rest)

    bytes : (j : ℕ) → j < 8 → byte r j ≡ v / 2 ^ (j * 8) % 256
    bytes j lt = get_or-append pre (write_u64 [] v ++ rest) j ∙ write_u64-bytes v rest j lt

pub u64-Codes : (v : ℕ) → IsU64 v → Codes read_u64 (λ w. write_u64 w v) v
unfolding read_u64 write_u64
u64-Codes v h = record {
  tail = write_u64 [] v;
  appends = λ w. simp append_assoc;
  decodes =
      fixed-Decodes 8 (read_u64_loop 8 0 0) (write_u64 [] v) v refl
        (λ pre rest. u64-value v pre rest h);
}

pub f32-Codes : (v : ℕ) → IsU32 v → Codes read_f32 (λ w. write_f32 w v) v
unfolding read_f32 write_f32
f32-Codes v h = u32-Codes v h
