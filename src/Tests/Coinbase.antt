-- ===== src/Tests/Coinbase.antt =====
-- The merkle branch and the hexadecimal texts at concrete inputs.
use yumtech_umbrel_apps.Prelude.{
  ℕ, zero, suc, ◌≡◌, refl, List, [], ◌∷◌, map, some, replicate, All, arith,
}
use yumtech_umbrel_apps.Hex.{Text, hex_nibble, hex_pairs, hex_to_bytes, bytes_to_hex, int_to_hex}
use yumtech_umbrel_apps.Hex.RoundTrip.{IsByte, lower, hex_to_bytes-bytes_to_hex}
use yumtech_umbrel_apps.Hex.Reading.{bytes_to_hex-hex_to_bytes}
use yumtech_umbrel_apps.Hex.Integers.{from_chars, from_chars-int_to_hex}
use yumtech_umbrel_apps.Merkle.{Bytes, build_branch_le_hex, compute_root_le_hex}
use yumtech_umbrel_apps.Merkle.Tree.{IsHash, tree_root}
use yumtech_umbrel_apps.Merkle.Root.{compute_root-build_branch}

-- A function with results of 32 bytes.
abbrev blank : Bytes → Bytes
blank d = replicate 32 7

-- Thirty-two times a byte is a hash.
abbrev hash : ℕ → Bytes
hash b = replicate 32 b

All-replicate : (n b : ℕ) → IsByte b → All IsByte (replicate n b)
All-replicate zero b h = tt
All-replicate (suc n) b h = (h, All-replicate n b h)

hash-IsHash : (b : ℕ) → IsByte b → IsHash (hash b)
hash-IsHash b h = (refl, All-replicate 32 b h)

compute_root-build_branch_example :
    (branch : List Text) × (root : Bytes) × (build_branch_le_hex blank
        (map bytes_to_hex (hash 1 ∷ hash 2 ∷ []))
      ≡ some branch)
    × (tree_root blank 2 (hash 0 ∷ hash 1 ∷ hash 2 ∷ []) ≡ some root)
    × (compute_root_le_hex blank (bytes_to_hex (hash 0)) branch ≡ some (bytes_to_hex root))
compute_root-build_branch_example =
    compute_root-build_branch blank (λ d. hash-IsHash 7 (omega arith)) (hash 1 ∷ hash 2 ∷ [])
      (hash 0) (hash-IsHash 1 (omega arith), (hash-IsHash 2 (omega arith), tt))
      (hash-IsHash 0 (omega arith))

hex_to_bytes-bytes_to_hex_example : hex_to_bytes (bytes_to_hex (0 ∷ 171 ∷ [])) ≡ some (0 ∷ 171 ∷ [])
hex_to_bytes-bytes_to_hex_example =
    hex_to_bytes-bytes_to_hex (0 ∷ 171 ∷ []) (omega arith, (omega arith, tt))

upper_read : hex_to_bytes (b'A' ∷ b'b' ∷ []) ≡ some (171 ∷ [])
unfolding hex_to_bytes hex_pairs hex_nibble
upper_read = refl

bytes_to_hex-hex_to_bytes_example :
    (bytes_to_hex (171 ∷ []) ≡ map lower (b'A' ∷ b'b' ∷ [])) × All IsByte (171 ∷ [])
bytes_to_hex-hex_to_bytes_example =
    bytes_to_hex-hex_to_bytes (b'A' ∷ b'b' ∷ []) (171 ∷ []) upper_read

from_chars-int_to_hex_example : from_chars (int_to_hex 0xdeadbeef 8) ≡ some 0xdeadbeef
from_chars-int_to_hex_example = from_chars-int_to_hex 0xdeadbeef (omega arith)
