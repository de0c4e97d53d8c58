-- ===== src/Merkle.antt =====
-- The coinbase's merkle branch: yumtech/mkpool-src/src/merkle.cpp. SHA-256 is OpenSSL's, a parameter;
-- its failures to allocate are left out. The file repeats `hex_nibble`, `from_hex` and `to_hex` of
-- utils.hpp word for word: `Hex.hex_to_bytes` and `Hex.bytes_to_hex` stand for both. A `Hash` is a
-- list of 32 bytes, and `none` is a thrown exception.
pub mod Tree
pub mod Root
use yumtech_umbrel_apps.Prelude.{
  ℕ, zero, suc, ◌+◌, ◌%◌, Bool, List, [], ◌∷◌, ◌++◌, Option, none, some, length, replicate, ◌==◌,
  if◌then◌else◌,
}
use yumtech_umbrel_apps.Hex.{Text, ◌>>=◌, hex_to_bytes, bytes_to_hex}

abbrev pub Bytes : Type 0
Bytes = List ℕ

-- `level.back()` of a list that begins with `x`.
unfoldable pub last_of : Bytes → List Bytes → Bytes
last_of x [] = x
last_of x (y ∷ ys) = last_of y ys

-- `if (level.size() % 2) level.push_back(level.back());`
unfoldable pub pad : List Bytes → List Bytes
unfolding last_of
pad [] = []
pad (x ∷ xs) = if length (x ∷ xs) % 2 == 0 then x ∷ xs else (x ∷ xs) ++ (last_of x xs ∷ [])

-- `from_hex`, and the check of its size.
unfoldable pub hash_of_hex : Text → Option Bytes
hash_of_hex h = do b ← hex_to_bytes h; if length b == 32 then some b else none

unfoldable pub hashes_of_hex : List Text → Option (List Bytes)
unfolding hash_of_hex
hashes_of_hex [] = some []
hashes_of_hex (h ∷ hs) = do b ← hash_of_hex h; rest ← hashes_of_hex hs; some (b ∷ rest)

module _ (sha256 : Bytes → Bytes) where
  unfoldable pub sha256d : Bytes → Bytes
  sha256d d = sha256 (sha256 d)

  -- The inner loop; the list has even length.
  unfoldable pub pair_up : List Bytes → List Bytes
  pair_up [] = []
  pair_up (x ∷ []) = []
  pair_up (x ∷ y ∷ level) = sha256d (x ++ y) ∷ pair_up level

  -- The outer loop: the siblings of slot 0. `none` means that the fuel ran out.
  unfoldable pub branch_loop : ℕ → List Bytes → Option (List Text)
  branch_loop fuel [] = some []
  branch_loop fuel (x ∷ []) = some []
  branch_loop zero (x ∷ y ∷ level) = none
  branch_loop (suc fuel) (x ∷ y ∷ level) = do
    rest ← branch_loop fuel (pair_up (pad (x ∷ y ∷ level)))
    some (bytes_to_hex y ∷ rest)

  -- The level above the leaves is shorter, so its length is fuel enough.
  unfoldable pub build_branch_le_hex : List Text → Option (List Text)
  unfolding hashes_of_hex branch_loop
  build_branch_le_hex txids = do
    hs ← hashes_of_hex txids
    branch_loop (length hs) (replicate 32 0 ∷ hs)

  unfoldable pub root_loop : Bytes → List Text → Option Bytes
  root_loop cur [] = some cur
  root_loop cur (h ∷ branch) = do sib ← hash_of_hex h; root_loop (sha256d (cur ++ sib)) branch

  unfoldable pub compute_root_le_hex : Text → List Text → Option Text
  unfolding hash_of_hex root_loop
  compute_root_le_hex coinbase_txid branch = do
    cur ← hash_of_hex coinbase_txid
    root ← root_loop cur branch
    some (bytes_to_hex root)
