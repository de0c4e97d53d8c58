-- ===== src/Sv2/Blobs.antt =====
-- The reading methods of byte strings, options and sequences against the writing methods.
use yumtech_umbrel_apps.Prelude.{
  take_all, if◌then◌else◌, ℕ, zero, suc, ◌≤◌, min, ◌≡◌, refl, ap, subst, List, [], ◌∷◌, ◌++◌,
  Option, none, some, length, take, All, ltb, le→ltb, length-take, take-length_append,
  drop-length_append, arith,
}
use yumtech_umbrel_apps.Sv2.Writer.{
  Bytes, IsU32, IsU256, write_u256, write_str0_255, write_b0_32, write_b0_255, write_b0_64k,
  write_option_u32, write_u256_loop, write_seq0_255_u256,
}
use yumtech_umbrel_apps.Sv2.Reader.{
  throw, too_long, fixed, slice, read_u256, read_str0_255, read_b0_32, read_b0_255, read_b0_64k,
  read_option_u32, read_u256_loop, read_seq0_255_u256,
}
use yumtech_umbrel_apps.Sv2.Decodes.{Codes, bind-Codes, pure-Codes, at, Decodes, fixed-Decodes}
use yumtech_umbrel_apps.Sv2.Numbers.{u8-Codes, u16-Codes, u32-Codes}

-- The bytes from the reader's position on.
slice-at : (pre bs rest : Bytes) → slice (length bs) (at pre (bs ++ rest)) ≡ bs
slice-at pre bs rest = rw drop-length_append (take-length_append bs rest)

-- A read of `n` bytes.
slice-Decodes : (n : ℕ) (bs : Bytes) → length bs ≡ n → Decodes (fixed n (slice n)) bs bs
slice-Decodes n bs e =
    subst (λ k. Decodes (fixed k (slice k)) bs bs) e
      (fixed-Decodes (length bs) (slice (length bs)) bs bs refl (λ pre rest. slice-at pre bs rest))

slice-Codes : (n : ℕ) (bs : Bytes) → length bs ≡ n → Codes (fixed n (slice n)) (λ w. w ++ bs) bs
slice-Codes n bs e = record { tail = bs; appends = λ w. refl; decodes = slice-Decodes n bs e }

pub u256-Codes : (v : Bytes) → IsU256 v → Codes read_u256 (λ w. write_u256 w v) v
unfolding read_u256 write_u256
u256-Codes v h = slice-Codes 32 v h

take-min : (n : ℕ) (v : Bytes) → take (min (length v) n) v ≡ take n v
take-min zero v = ap (λ k. take k v) {y = 0} (omega arith)
take-min (suc n) [] = ap (λ k. take k []) {y = 0} (omega arith)
take-min (suc n) (x ∷ v) =
    let e : min (suc (length v)) (suc n) ≡ suc (min (length v) n) = omega arith in
    rw e (ap (◌∷◌ x) (take-min n v))

-- What `write_…` keeps of `v` under a limit of `n` bytes, behind its length.
cut-Codes :
    (n : ℕ) (v : Bytes)
    → Codes
        (fixed (min (length v) n) (slice (min (length v) n)))
        (λ w. w ++ take (min (length v) n) v)
        (take n v)
cut-Codes n v = rw (← take-min n v) (
    slice-Codes (min (length v) n) (take (min (length v) n) v)
      (omega (arith, length-take (min (length v) n) v)))

pub str0_255-Codes : (v : Bytes) → Codes read_str0_255 (λ w. write_str0_255 w v) (take 255 v)
unfolding read_str0_255 write_str0_255
str0_255-Codes v = bind-Codes _ (u8-Codes (min (length v) 255)) (cut-Codes 255 v)

pub b0_255-Codes : (v : Bytes) → Codes read_b0_255 (λ w. write_b0_255 w v) (take 255 v)
unfolding read_b0_255 write_b0_255
b0_255-Codes v = bind-Codes _ (u8-Codes (min (length v) 255)) (cut-Codes 255 v)

pub b0_64k-Codes : (v : Bytes) → Codes read_b0_64k (λ w. write_b0_64k w v) (take 65535 v)
unfolding read_b0_64k write_b0_64k
b0_64k-Codes v = bind-Codes _ (u16-Codes (min (length v) 65535) (omega arith)) (cut-Codes 65535 v)

short-Codes :
    (v : Bytes)
    → let len = min (length v) 32 in
      Codes
        (if ltb 32 len then throw too_long else fixed len (slice len))
        (λ w. w ++ take len v)
        (take 32 v)
short-Codes v = rw (le→ltb 32 (min (length v) 32) (omega arith)) (cut-Codes 32 v)

pub b0_32-Codes : (v : Bytes) → Codes read_b0_32 (λ w. write_b0_32 w v) (take 32 v)
unfolding read_b0_32 write_b0_32
b0_32-Codes v = bind-Codes _ (u8-Codes (min (length v) 32)) (short-Codes v)

abbrev pub IsOptionU32 : Option ℕ → Type 0
IsOptionU32 none = Unit {0}
IsOptionU32 (some x) = IsU32 x

pub option_u32-Codes :
    (v : Option ℕ) → IsOptionU32 v → Codes read_option_u32 (λ w. write_option_u32 w v) v
unfolding read_option_u32 write_option_u32
option_u32-Codes none h = bind-Codes _ (u8-Codes 0) (pure-Codes none)
option_u32-Codes (some x) h =
    bind-Codes _ (u8-Codes 1) (bind-Codes _ (u32-Codes x h) (pure-Codes (some x)))

u256_loop-Codes :
    (vs : List Bytes)
    → All IsU256 vs
    → Codes (read_u256_loop (length vs)) (λ w. write_u256_loop (length vs) w vs) vs
unfolding read_u256_loop write_u256_loop
u256_loop-Codes [] h = pure-Codes []
u256_loop-Codes (v ∷ vs) (p, h) =
    bind-Codes _ (u256-Codes v p) (bind-Codes _ (u256_loop-Codes vs h) (pure-Codes (v ∷ vs)))

pub seq0_255_u256-Codes :
    (vs : List Bytes)
    → All IsU256 vs
    → length vs ≤ 255
    → Codes read_seq0_255_u256 (λ w. write_seq0_255_u256 w vs) vs
unfolding read_seq0_255_u256 write_seq0_255_u256
seq0_255_u256-Codes vs h b =
    let e : min (length vs) 255 ≡ length vs = omega arith in
    rw e (bind-Codes _ (u8-Codes (length vs)) (u256_loop-Codes vs h))

-- Under its limit a byte string is kept whole.
module _ (v : Bytes) where
  pub str0_255-Codes_fits : length v ≤ 255 → Codes read_str0_255 (λ w. write_str0_255 w v) v
  str0_255-Codes_fits h =
      subst (Codes read_str0_255 (λ w. write_str0_255 w v)) (take_all 255 v h) (str0_255-Codes v)

  pub b0_32-Codes_fits : length v ≤ 32 → Codes read_b0_32 (λ w. write_b0_32 w v) v
  b0_32-Codes_fits h =
      subst (Codes read_b0_32 (λ w. write_b0_32 w v)) (take_all 32 v h) (b0_32-Codes v)

  pub b0_255-Codes_fits : length v ≤ 255 → Codes read_b0_255 (λ w. write_b0_255 w v) v
  b0_255-Codes_fits h =
      subst (Codes read_b0_255 (λ w. write_b0_255 w v)) (take_all 255 v h) (b0_255-Codes v)

  pub b0_64k-Codes_fits : length v ≤ 65535 → Codes read_b0_64k (λ w. write_b0_64k w v) v
  b0_64k-Codes_fits h =
      subst (Codes read_b0_64k (λ w. write_b0_64k w v)) (take_all 65535 v h) (b0_64k-Codes v)
