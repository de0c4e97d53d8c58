-- ===== src/Sv2/Writer.antt =====
-- The class `Writer` of yumtech/mkpool-src/src/sv2_codec.hpp. A writer is its buffer, a byte is a
-- number, and each method returns the new buffer. A `float` is the 32-bit pattern that `memcpy`
-- copies.
use yumtech_umbrel_apps.Prelude.{
  ℕ, zero, suc, ◌+◌, ◌*◌, ◌/◌, ◌%◌, ◌^◌, ◌<◌, min, ◌≡◌, Bool, List, [], ◌∷◌, ◌++◌, Option, none,
  some, length, take, if◌then◌else◌,
}

abbrev pub Bytes : Type 0
Bytes = List ℕ

abbrev pub Writer : Type 0
Writer = Bytes

-- The ranges of the machine types.
abbrev pub IsU8 : ℕ → Type 0
IsU8 v = v < 2 ^ 8

abbrev pub IsU16 : ℕ → Type 0
IsU16 v = v < 2 ^ 16

abbrev pub IsU24 : ℕ → Type 0
IsU24 v = v < 2 ^ 24

abbrev pub IsU32 : ℕ → Type 0
IsU32 v = v < 2 ^ 32

abbrev pub IsU64 : ℕ → Type 0
IsU64 v = v < 2 ^ 64

-- `std::array<uint8_t, 32>`.
abbrev pub IsU256 : Bytes → Type 0
IsU256 v = length v ≡ 32

unfoldable pub write_u8 : Writer → ℕ → Writer
write_u8 w val = w ++ (val ∷ [])

unfoldable pub write_bool : Writer → Bool → Writer
write_bool w val = w ++ ((if val then 1 else 0) ∷ [])

unfoldable pub write_u16 : Writer → ℕ → Writer
write_u16 w val = w ++ ((val % 256) ∷ (val / 2 ^ 8 % 256) ∷ [])

unfoldable pub write_u24 : Writer → ℕ → Writer
write_u24 w val = w ++ ((val % 256) ∷ (val / 2 ^ 8 % 256) ∷ (val / 2 ^ 16 % 256) ∷ [])

unfoldable pub write_u32 : Writer → ℕ → Writer
write_u32 w val =
    w ++ ((val % 256) ∷ (val / 2 ^ 8 % 256) ∷ (val / 2 ^ 16 % 256) ∷ (val / 2 ^ 24 % 256) ∷ [])

-- The rounds left, and the loop's `i`.
unfoldable pub write_u64_loop : ℕ → ℕ → Writer → ℕ → Writer
write_u64_loop zero i w val = w
write_u64_loop (suc n) i w val =
    write_u64_loop n (i + 1) (w ++ ((val / 2 ^ (i * 8) % 256) ∷ [])) val

unfoldable pub write_u64 : Writer → ℕ → Writer
unfolding write_u64_loop
write_u64 w val = write_u64_loop 8 0 w val

unfoldable pub write_u256 : Writer → Bytes → Writer
write_u256 w val = w ++ val

unfoldable pub write_f32 : Writer → ℕ → Writer
unfolding write_u32
write_f32 w val = write_u32 w val

unfoldable pub write_str0_255 : Writer → Bytes → Writer
unfolding write_u8
write_str0_255 w val = let len = min (length val) 255 in write_u8 w len ++ take len val

unfoldable pub write_b0_32 : Writer → Bytes → Writer
unfolding write_u8
write_b0_32 w val = let len = min (length val) 32 in write_u8 w len ++ take len val

unfoldable pub write_b0_255 : Writer → Bytes → Writer
unfolding write_u8
write_b0_255 w val = let len = min (length val) 255 in write_u8 w len ++ take len val

unfoldable pub write_b0_64k : Writer → Bytes → Writer
unfolding write_u16
write_b0_64k w val = let len = min (length val) 65535 in write_u16 w len ++ take len val

unfoldable pub write_option_u32 : Writer → Option ℕ → Writer
unfolding write_u8 write_u32
write_option_u32 w none = write_u8 w 0
write_option_u32 w (some val) = write_u32 (write_u8 w 1) val

-- The loop over the first `n` elements.
unfoldable pub write_u256_loop : ℕ → Writer → List Bytes → Writer
unfolding write_u256
write_u256_loop zero w vals = w
write_u256_loop (suc n) w [] = w
write_u256_loop (suc n) w (v ∷ vals) = write_u256_loop n (write_u256 w v) vals

unfoldable pub write_seq0_255_u256 : Writer → List Bytes → Writer
unfolding write_u8 write_u256_loop
write_seq0_255_u256 w val =
    let len = min (length val) 255 in write_u256_loop len (write_u8 w len) val
