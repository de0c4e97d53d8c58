-- ===== src/Merkle/Root.antt =====
-- The branch that the pool sends, put together again with any coinbase, gives the root of the tree.
use yumtech_umbrel_apps.Prelude.{
  ◌≡◌, refl, List, [], ◌∷◌, map, some, length, replicate, All, ==_iff, arith,
}
use yumtech_umbrel_apps.Hex.{Text, bytes_to_hex}
use yumtech_umbrel_apps.Hex.RoundTrip.{hex_to_bytes-bytes_to_hex}
use yumtech_umbrel_apps.Merkle.{
  Bytes, hash_of_hex, hashes_of_hex, build_branch_le_hex, compute_root_le_hex,
}
use yumtech_umbrel_apps.Merkle.Tree.{IsHash, tree_root, branch_loop-Leads}

hash_of_hex-bytes_to_hex : (h : Bytes) → IsHash h → hash_of_hex (bytes_to_hex h) ≡ some h
unfolding hash_of_hex
hash_of_hex-bytes_to_hex h (len, bytes) =
    rw (hex_to_bytes-bytes_to_hex h bytes, (==_iff (length h) 32).1 len) refl

hashes_of_hex-bytes_to_hex :
    (hs : List Bytes) → All IsHash hs → hashes_of_hex (map bytes_to_hex hs) ≡ some hs
unfolding hashes_of_hex
hashes_of_hex-bytes_to_hex [] v = refl
hashes_of_hex-bytes_to_hex (h ∷ hs) (vh, v) =
    rw (hash_of_hex-bytes_to_hex h vh, hashes_of_hex-bytes_to_hex hs v) refl

-- SHA-256 gives 32 bytes.
module _ (sha256 : Bytes → Bytes) (digest : (d : Bytes) → IsHash (sha256 d)) where
  -- For 32-byte transaction ids `txs` the branch is built; and the root that it gives with the
  -- 32-byte id `coinbase` is the root of the tree over the coinbase and `txs`.
  pub compute_root-build_branch :
      (txs : List Bytes) (coinbase : Bytes)
      → All IsHash txs
      → IsHash coinbase
      → (branch : List Text) × (root : Bytes) × (build_branch_le_hex sha256 (map bytes_to_hex txs)
          ≡ some branch)
        × (tree_root sha256 (length txs) (coinbase ∷ txs) ≡ some root)
        × (compute_root_le_hex sha256 (bytes_to_hex coinbase) branch ≡ some (bytes_to_hex root))
  unfolding build_branch_le_hex compute_root_le_hex
  compute_root-build_branch txs coinbase v vc =
      let (branch, built, leads) =
        branch_loop-Leads sha256 (length txs) txs digest v (omega arith) in
      let (root, found, top) = leads coinbase in
      (
        branch,
        root,
        rw (hashes_of_hex-bytes_to_hex txs v) (built (replicate 32 0)),
        top,
        rw (hash_of_hex-bytes_to_hex coinbase vc, found) refl,
      )
