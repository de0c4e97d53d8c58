-- ===== src/Merkle/Tree.antt =====
-- The merkle tree of a list of leaves, as Bitcoin defines it, and the branch of its first leaf.
use yumtech_umbrel_apps.Prelude.{
  ℕ, zero, suc, ◌/◌, ◌%◌, ◌≤◌, ◌≡◌, refl, ap, ◌∙◌, List, [], ◌∷◌, ◌++◌, Option, none, some, length,
  length-append, All, ◌==◌, ==_iff, Bool-cases, inl, inr, if◌then◌else◌, arith,
}
use yumtech_umbrel_apps.Hex.{Text, bytes_to_hex}
use yumtech_umbrel_apps.Hex.RoundTrip.{IsByte, hex_to_bytes-bytes_to_hex}
use yumtech_umbrel_apps.Merkle.{
  Bytes, last_of, pad, hash_of_hex, sha256d, pair_up, branch_loop, root_loop,
}

abbrev pub IsHash : Bytes → Type 0
IsHash h = (length h ≡ 32) × All IsByte h

-- What follows the first leaf of a padded level.
pad_tail : Bytes → List Bytes → List Bytes
unfolding last_of
pad_tail y level = if length level % 2 == 0 then level else level ++ (last_of y level ∷ [])

pad-cons : (x y : Bytes) (level : List Bytes) → pad (x ∷ y ∷ level) ≡ x ∷ y ∷ pad_tail y level
unfolding pad pad_tail
pad-cons x y level = ground (arith)

module _ (sha256 : Bytes → Bytes) where
  -- The root of the tree over the leaves: levels are padded and hashed in pairs until one node is
  -- left. `none` means that there is no leaf, or that the fuel ran out.
  unfoldable pub tree_root : ℕ → List Bytes → Option Bytes
  tree_root fuel [] = none
  tree_root fuel (x ∷ []) = some x
  tree_root zero (x ∷ y ∷ level) = none
  tree_root (suc fuel) (x ∷ y ∷ level) = tree_root fuel (pair_up sha256 (pad (x ∷ y ∷ level)))

  pair_up-pad :
      (x y : Bytes) (level : List Bytes)
      → pair_up sha256 (pad (x ∷ y ∷ level))
        ≡ sha256d sha256 (x ++ y) ∷ pair_up sha256 (pad_tail y level)
  unfolding pair_up
  pair_up-pad x y level = rw (pad-cons x y level) refl

  pair_up-IsHash :
      ((d : Bytes) → IsHash (sha256 d)) → (level : List Bytes) → All IsHash (pair_up sha256 level)
  unfolding pair_up sha256d
  pair_up-IsHash digest [] = tt
  pair_up-IsHash digest (x ∷ []) = tt
  pair_up-IsHash digest (x ∷ y ∷ level) = (digest (sha256 (x ++ y)), pair_up-IsHash digest level)

  length-pair_up : (level : List Bytes) → length (pair_up sha256 level) ≡ length level / 2
  unfolding pair_up
  length-pair_up [] = omega arith
  length-pair_up (x ∷ []) = omega arith
  length-pair_up (x ∷ y ∷ level) = omega (arith, length-pair_up level)

  -- What the next level has behind its first node.
  abbrev next_tail : Bytes → List Bytes → List Bytes
  next_tail y level = pair_up sha256 (pad_tail y level)

  next_tail-shorter :
      (fuel : ℕ) (y : Bytes) (level : List Bytes)
      → length level ≤ fuel
      → length (next_tail y level) ≤ fuel
  unfolding pad_tail
  next_tail-shorter fuel y level h = elim (Bool-cases (length level % 2 == 0)) [
    | inl even ↦ rw even (omega (arith, length-pair_up level))
    | inr odd ↦ rw odd (
        omega (
          arith,
          length-pair_up (level ++ (last_of y level ∷ [])),
          length-append level (last_of y level ∷ []),
        ))
  ]

  branch_loop-suc :
      (fuel : ℕ) (x y : Bytes) (level : List Bytes) (rest : List Text)
      → branch_loop sha256 fuel (sha256d sha256 (x ++ y) ∷ next_tail y level) ≡ some rest
      → branch_loop sha256 (suc fuel) (x ∷ y ∷ level) ≡ some (bytes_to_hex y ∷ rest)
  unfolding branch_loop
  branch_loop-suc fuel x y level rest e = rw (pair_up-pad x y level, e) refl

  root_loop-step :
      (cur y : Bytes) (branch : List Text)
      → IsHash y
      → root_loop sha256 cur (bytes_to_hex y ∷ branch)
        ≡ root_loop sha256 (sha256d sha256 (cur ++ y)) branch
  unfolding root_loop hash_of_hex
  root_loop-step cur y branch (len, bytes) =
      rw (hex_to_bytes-bytes_to_hex y bytes, (==_iff (length y) 32).1 len) refl

  tree_root-suc :
      (fuel : ℕ) (x y : Bytes) (level : List Bytes)
      → tree_root (suc fuel) (x ∷ y ∷ level)
        ≡ tree_root fuel (sha256d sha256 (x ++ y) ∷ next_tail y level)
  unfolding tree_root
  tree_root-suc fuel x y level = ap (tree_root fuel) (pair_up-pad x y level)

  -- The branch does not depend on the first leaf, and leads every first leaf to the root.
  abbrev pub Leads : ℕ → List Bytes → List Text → Type 0
  Leads fuel level branch =
      (cur : Bytes)
      → (root : Bytes) × (root_loop sha256 cur branch ≡ some root)
        × (tree_root fuel (cur ∷ level) ≡ some root)

  -- Fuel of the number of leaves behind the first is enough.
  pub branch_loop-Leads :
      (fuel : ℕ) (level : List Bytes)
      → ((d : Bytes) → IsHash (sha256 d))
      → All IsHash level
      → length level ≤ fuel
      → (branch : List Text) × ((x : Bytes) → branch_loop sha256 fuel (x ∷ level) ≡ some branch)
        × Leads fuel level branch
  unfolding branch_loop root_loop tree_root
  branch_loop-Leads fuel [] digest v h = ([], λ x. refl, λ cur. (cur, refl, refl))
  branch_loop-Leads zero (y ∷ level) digest v h = absurd (omega arith)
  branch_loop-Leads (suc fuel) (y ∷ level) digest (vy, v) h =
      let (rest, e, k) =
        branch_loop-Leads fuel (next_tail y level) digest (pair_up-IsHash digest (pad_tail y level))
          (next_tail-shorter fuel y level (omega arith)) in
      (
        bytes_to_hex y ∷ rest,
        λ x. branch_loop-suc fuel x y level rest (e (sha256d sha256 (x ++ y))),
        λ cur.
            let (root, found, top) = k (sha256d sha256 (cur ++ y)) in
            (root, root_loop-step cur y rest vy ∙ found, tree_root-suc fuel cur y level ∙ top),
      )
