-- ===== src/Zcash.antt =====
-- Compact sizes of Zcash transactions: `read_compact` and `write_compact` of
-- yumtech/mkpool-src/src/zcash.hpp, and `append_output`. `none` is an exception.
pub mod Compact
pub mod Transparent
use yumtech_umbrel_apps.Prelude.{
  ℕ, zero, suc, ◌+◌, ◌*◌, ◌/◌, ◌%◌, ◌^◌, bit_or, Bool, List, [], ◌∷◌, ◌++◌, Option, none, some,
  length, ltb, leb, ◌==◌, if◌then◌else◌,
}
use yumtech_umbrel_apps.Hex.{◌>>=◌}

abbrev pub Bytes : Type 0
Bytes = List ℕ

-- `b.at(pos)`.
unfoldable pub at : Bytes → ℕ → Option ℕ
at [] pos = none
at (b ∷ bs) zero = some b
at (b ∷ bs) (suc pos) = at bs pos

-- The loop of `rd`: the rounds left, and the loop's `i`. The result is the value and the position.
unfoldable pub rd : ℕ → ℕ → Bytes → ℕ → ℕ → Option (ℕ × ℕ)
rd zero i b pos v = some (v, pos)
rd (suc k) i b pos v = do x ← at b pos; rd k (i + 1) b (pos + 1) (bit_or v (x * 2 ^ (8 * i)))

unfoldable pub read_compact : Bytes → ℕ → Option (ℕ × ℕ)
read_compact b pos = do
  n ← at b pos
  (if ltb n 0xfd
      then some (n, pos + 1)
      else if n == 0xfd
      then rd 2 0 b (pos + 1) 0
      else if n == 0xfe
      then rd 4 0 b (pos + 1) 0
      else rd 8 0 b (pos + 1) 0)

-- The rounds left, and the loop's `i`.
unfoldable pub low_bytes : ℕ → ℕ → ℕ → Bytes
low_bytes zero i n = []
low_bytes (suc k) i n = (n / 2 ^ (8 * i) % 256) ∷ low_bytes k (i + 1) n

unfoldable pub write_compact : ℕ → Bytes
unfolding low_bytes
write_compact n =
    if ltb n 0xfd
    then n ∷ []
    else if leb n 0xffff
    then 0xfd ∷ (n % 256) ∷ (n / 2 ^ 8 % 256) ∷ []
    else 0xfe ∷ low_bytes 4 0 n

unfoldable pub append_output : Bytes → ℕ → Bytes → Bytes
unfolding low_bytes write_compact
append_output outs value script =
    outs ++ (low_bytes 8 0 value ++ (write_compact (length script) ++ script))
