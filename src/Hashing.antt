-- ===== src/Hashing.antt =====
-- core/hashing.py: the Merkle root, built bottom-up.
pub mod Rfc
pub mod Binding
mod Examples
use tal_cash.Base.{
  Bytes, List, Result, [], err, length, map, ok, suc, value_error, zero, ℕ, ◌++◌, ◌∷◌,
}
use tal_cash.Crypto.{Crypto, sha256}

module _ ⦃c : Crypto⦄ where
  -- SHA256(0x00 || leaf)
  unfoldable pub leaf_hash : Bytes → Bytes
  leaf_hash leaf = sha256 (0 ∷ leaf)

  -- SHA256(0x01 || left || right)
  unfoldable pub node_hash : Bytes → Bytes → Bytes
  node_hash left right = sha256 (1 ∷ left ++ right)

  -- One round of the loop: neighbours in pairs, an odd last node unchanged.
  unfoldable pub pair_level : List Bytes → List Bytes
  pair_level [] = []
  pair_level (x ∷ []) = x ∷ []
  pair_level (x ∷ y ∷ rest) = node_hash x y ∷ pair_level rest

  -- `while len(level) > 1`, on fuel; `level[0]` of no node is not reached.
  unfoldable pub fold_levels : ℕ → List Bytes → Bytes
  fold_levels _ [] = []
  fold_levels _ (x ∷ []) = x
  fold_levels zero (x ∷ y ∷ rest) = x
  fold_levels (suc fuel) (x ∷ y ∷ rest) = fold_levels fuel (pair_level (x ∷ y ∷ rest))

  unfoldable pub merkle_root : List Bytes → Result Bytes
  merkle_root [] = err value_error
  merkle_root (leaf ∷ leaves) =
      ok (fold_levels (length (leaf ∷ leaves)) (map leaf_hash (leaf ∷ leaves)))
