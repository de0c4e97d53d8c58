-- ===== src/Sv2/Reader.antt =====
-- The class `Reader` of yumtech/mkpool-src/src/sv2_codec.hpp. A method takes the reader and returns
-- its value with the moved reader, or the exception that it throws. The class does not compute
-- positions near the limit of `size_t`, so `pos_ + n` is a plain sum.
use yumtech_umbrel_apps.Prelude.{
  ℕ, zero, suc, ◌+◌, ◌-◌, ◌*◌, ◌%◌, ◌^◌, bit_or, Bool, not, List, [], ◌∷◌, Option, none, some,
  length, get_or, take, drop, ltb, ◌==◌, if◌then◌else◌,
}
use yumtech_umbrel_apps.Sv2.Writer.{Bytes}

-- `std::out_of_range`, and the `std::runtime_error` of `read_b0_32`.
pub data Error : Type 0 where
  out_of_range too_long : Error

pub data Result {ℓ} (A : Type ℓ) : Type ℓ where
  ok : A → Result A
  err : Error → Result A

pub record Reader : Type 0 where
  pub bytes : Bytes
  pub pos : ℕ

abbrev pub M : Type 0 → Type 0
M A = Reader → Result (A × Reader)

infixl 5 ◌>>=◌
-- Shut, so that a law of `◌>>=◌` reads the continuation off a method.
unfoldable pub ◌>>=◌ : {A B : Type 0} → M A → (A → M B) → M B
◌>>=◌ m f r = elim (m r) [ err e ↦ err e | ok (a, r') ↦ f a r' ]

abbrev pub pure : {A : Type 0} → A → M A
pure a r = ok (a, r)

abbrev pub throw : {A : Type 0} → Error → M A
throw e r = err e

pub size : Reader → ℕ
size r = length r.bytes

unfoldable pub remaining : Reader → ℕ
unfolding size
remaining r = size r - r.pos

-- `data_[pos_ + i]`.
abbrev pub byte : Reader → ℕ → ℕ
byte r i = get_or r.bytes (r.pos + i) 0

abbrev pub skip : ℕ → Reader → Reader
skip n r = record r { pos = r.pos + n }

-- `if (pos_ + n > size_) throw`, then the value, then `pos_ += n`.
abbrev pub fixed : {A : Type 0} → ℕ → (Reader → A) → M A
fixed n value r =
    if ltb (length r.bytes) (r.pos + n) then err out_of_range else ok (value r, skip n r)

-- The little-endian values, as the shifts and unions of the source.
abbrev pub le8 : Reader → ℕ
le8 r = byte r 0

abbrev pub le16 : Reader → ℕ
le16 r = bit_or (byte r 0) (byte r 1 * 2 ^ 8) % 2 ^ 16

abbrev pub le24 : Reader → ℕ
le24 r = bit_or (bit_or (byte r 0) (byte r 1 * 2 ^ 8)) (byte r 2 * 2 ^ 16) % 2 ^ 32

abbrev pub le32 : Reader → ℕ
le32 r =
    bit_or (bit_or (bit_or (byte r 0) (byte r 1 * 2 ^ 8)) (byte r 2 * 2 ^ 16)) (byte r 3 * 2 ^ 24)
    % 2 ^ 32

unfoldable pub read_u8 : M ℕ
read_u8 = fixed 1 le8

unfoldable pub read_bool : M Bool
unfolding read_u8
read_bool = do v ← read_u8; pure (not (v == 0))

unfoldable pub read_u16 : M ℕ
read_u16 = fixed 2 le16

unfoldable pub read_u24 : M ℕ
read_u24 = fixed 3 le24

unfoldable pub read_u32 : M ℕ
read_u32 = fixed 4 le32

-- The rounds left, the loop's `i`, and `val`.
unfoldable pub read_u64_loop : ℕ → ℕ → ℕ → Reader → ℕ
read_u64_loop zero i val r = val
read_u64_loop (suc n) i val r =
    read_u64_loop n (i + 1) (bit_or val (byte r i * 2 ^ (i * 8) % 2 ^ 64)) r

unfoldable pub read_u64 : M ℕ
unfolding read_u64_loop
read_u64 = fixed 8 (read_u64_loop 8 0 0)

-- The `n` bytes from `pos_` on.
abbrev pub slice : ℕ → Reader → Bytes
slice n r = take n (drop r.pos r.bytes)

unfoldable pub read_u256 : M Bytes
read_u256 = fixed 32 (slice 32)

unfoldable pub read_f32 : M ℕ
unfolding read_u32
read_f32 = read_u32

unfoldable pub read_str0_255 : M Bytes
unfolding read_u8
read_str0_255 = do len ← read_u8; fixed len (slice len)

unfoldable pub read_b0_32 : M Bytes
unfolding read_u8
read_b0_32 = do len ← read_u8; if ltb 32 len then throw too_long else fixed len (slice len)

unfoldable pub read_b0_255 : M Bytes
unfolding read_u8
read_b0_255 = do len ← read_u8; fixed len (slice len)

unfoldable pub read_b0_64k : M Bytes
unfolding read_u16
read_b0_64k = do len ← read_u16; fixed len (slice len)

unfoldable pub read_option_u32 : M (Option ℕ)
unfolding read_u8 read_u32
read_option_u32 = do
  active ← read_u8
  if active == 0 then pure none else (do v ← read_u32; pure (some v))

unfoldable pub read_u256_loop : ℕ → M (List Bytes)
unfolding read_u256
read_u256_loop zero = pure []
read_u256_loop (suc n) = do v ← read_u256; vs ← read_u256_loop n; pure (v ∷ vs)

unfoldable pub read_seq0_255_u256 : M (List Bytes)
unfolding read_u8 read_u256_loop
read_seq0_255_u256 = do len ← read_u8; read_u256_loop len
