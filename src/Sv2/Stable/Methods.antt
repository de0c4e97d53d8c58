-- ===== src/Sv2/Stable/Methods.antt =====
-- The reading methods of `Reader`, each stable.
use yumtech_umbrel_apps.Prelude.{
  ℕ, zero, suc, ◌+◌, ◌≤◌, ◌≡◌, refl, Bool, true, false, [], ◌∷◌, none, some, length, ltb, ◌==◌,
  if◌then◌else◌, arith,
}
use yumtech_umbrel_apps.Sv2.Writer.{Bytes}
use yumtech_umbrel_apps.Sv2.Reader.{
  Reader, M, fixed, slice, pure, throw, too_long, le8, le16, le24, le32, read_u8, read_bool,
  read_u16, read_u24, read_u32, read_u64_loop, read_u64, read_u256, read_f32, read_str0_255,
  read_b0_32, read_b0_255, read_b0_64k, read_option_u32, read_u256_loop, read_seq0_255_u256,
}
use yumtech_umbrel_apps.Sv2.Stable.{
  extend, IsStable, bind-IsStable, pure-IsStable, throw-IsStable, fixed-IsStable, byte-extend,
  slice-extend,
}

slice-IsStable : (n : ℕ) → IsStable (fixed n (slice n))
slice-IsStable n = fixed-IsStable n (slice n) (λ r more h. slice-extend n r.pos r.bytes more h)

pub u8-IsStable : IsStable read_u8
unfolding read_u8
u8-IsStable = fixed-IsStable 1 le8 (λ r more h. byte-extend r more 1 0 h (omega arith))

pub u16-IsStable : IsStable read_u16
unfolding read_u16
u16-IsStable =
    fixed-IsStable 2 le16 λ r more h.
      rw (byte-extend r more 2 0 h (omega arith), byte-extend r more 2 1 h (omega arith))

pub u24-IsStable : IsStable read_u24
unfolding read_u24
u24-IsStable = fixed-IsStable 3 le24 λ r more h. rw (
  byte-extend r more 3 0 h (omega arith),
  byte-extend r more 3 1 h (omega arith),
  byte-extend r more 3 2 h (omega arith),
)

pub u32-IsStable : IsStable read_u32
unfolding read_u32
u32-IsStable = fixed-IsStable 4 le32 λ r more h. rw (
  byte-extend r more 4 0 h (omega arith),
  byte-extend r more 4 1 h (omega arith),
  byte-extend r more 4 2 h (omega arith),
  byte-extend r more 4 3 h (omega arith),
)

u64_loop-extend :
    (n i val : ℕ) (r : Reader) (more : Bytes)
    → r.pos + 8 ≤ length r.bytes
    → i + n ≡ 8
    → read_u64_loop n i val (extend more r) ≡ read_u64_loop n i val r
unfolding read_u64_loop
u64_loop-extend zero i val r more h e = refl
u64_loop-extend (suc n) i val r more h e =
    rw (byte-extend r more 8 i h (omega arith)) (u64_loop-extend n (i + 1) _ r more h (omega arith))

pub u64-IsStable : IsStable read_u64
unfolding read_u64
u64-IsStable = fixed-IsStable 8 _ (λ r more h. u64_loop-extend 8 0 0 r more h refl)

pub bool-IsStable : IsStable read_bool
unfolding read_bool
bool-IsStable = bind-IsStable read_u8 _ u8-IsStable (λ v. pure-IsStable _)

pub f32-IsStable : IsStable read_f32
unfolding read_f32
f32-IsStable = u32-IsStable

pub u256-IsStable : IsStable read_u256
unfolding read_u256
u256-IsStable = slice-IsStable 32

pub str0_255-IsStable : IsStable read_str0_255
unfolding read_str0_255
str0_255-IsStable = bind-IsStable read_u8 _ u8-IsStable slice-IsStable

pub b0_255-IsStable : IsStable read_b0_255
unfolding read_b0_255
b0_255-IsStable = bind-IsStable read_u8 _ u8-IsStable slice-IsStable

pub b0_64k-IsStable : IsStable read_b0_64k
unfolding read_b0_64k
b0_64k-IsStable = bind-IsStable read_u16 _ u16-IsStable slice-IsStable

if-IsStable :
    {A : Type 0} (b : Bool) (m n : M A) → IsStable m → IsStable n → IsStable (if b then m else n)
if-IsStable true m n p q = p
if-IsStable false m n p q = q

pub b0_32-IsStable : IsStable read_b0_32
unfolding read_b0_32
b0_32-IsStable =
    bind-IsStable read_u8 _ u8-IsStable
      (λ len. if-IsStable (ltb 32 len) (throw too_long) _ throw-IsStable (slice-IsStable len))

pub option_u32-IsStable : IsStable read_option_u32
unfolding read_option_u32
option_u32-IsStable = bind-IsStable read_u8 _ u8-IsStable λ active.
    if-IsStable (active == 0) (pure none) _ (pure-IsStable none)
      (bind-IsStable read_u32 _ u32-IsStable (λ v. pure-IsStable (some v)))

u256_loop-IsStable : (n : ℕ) → IsStable (read_u256_loop n)
unfolding read_u256_loop
u256_loop-IsStable zero = pure-IsStable []
u256_loop-IsStable (suc n) =
    bind-IsStable read_u256 _ u256-IsStable
      λ v. bind-IsStable (read_u256_loop n) _ (u256_loop-IsStable n) (λ vs. pure-IsStable (v ∷ vs))

pub seq0_255_u256-IsStable : IsStable read_seq0_255_u256
unfolding read_seq0_255_u256
seq0_255_u256-IsStable = bind-IsStable read_u8 _ u8-IsStable u256_loop-IsStable
