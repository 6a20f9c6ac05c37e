-- ===== src/Hashing/Examples.antt =====
-- Tests of core/hashing.py and the theorems about it at concrete inputs.
use tal_cash.Base.{Bytes, List, [], err, ok, refl, value_error, ◌∷◌, ◌≡◌, ◌⊎◌}
use tal_cash.Hashing.{fold_levels, leaf_hash, merkle_root, node_hash, pair_level}
use tal_cash.Hashing.Binding.{Collision, Hashes, merkle_root-binds}
use tal_cash.Hashing.Rfc.{MerkleTree, merkle_root-MerkleTree}
use tal_cash.Toy.{toy-Sha256Laws, toy_crypto}

-- Five leaves: (4, 1), and the four split as (2, 2).
five_leaves :
    merkle_root ((1 ∷ []) ∷ (2 ∷ []) ∷ (3 ∷ []) ∷ (4 ∷ []) ∷ (5 ∷ []) ∷ [])
    ≡ ok (
        node_hash
          (node_hash
            (node_hash (leaf_hash (1 ∷ [])) (leaf_hash (2 ∷ [])))
            (node_hash (leaf_hash (3 ∷ [])) (leaf_hash (4 ∷ []))))
          (leaf_hash (5 ∷ [])))
unfolding merkle_root fold_levels pair_level
five_leaves = refl

no_leaves : merkle_root [] ≡ err value_error
unfolding merkle_root
no_leaves = refl

merkle_root-MerkleTree_example :
    (root : Bytes) × (merkle_root ((1 ∷ []) ∷ (2 ∷ []) ∷ (3 ∷ []) ∷ []) ≡ ok root)
    × MerkleTree leaf_hash ((1 ∷ []) ∷ (2 ∷ []) ∷ (3 ∷ []) ∷ []) root
merkle_root-MerkleTree_example = merkle_root-MerkleTree (1 ∷ []) ((2 ∷ []) ∷ (3 ∷ []) ∷ [])

abbrev two_leaves : List Bytes
two_leaves = (2 ∷ []) ∷ []

abbrev two_root : Bytes
two_root = node_hash (leaf_hash (1 ∷ [])) (leaf_hash (2 ∷ []))

two_root_lem : merkle_root ((1 ∷ []) ∷ two_leaves) ≡ ok two_root
unfolding merkle_root fold_levels pair_level
two_root_lem = refl

merkle_root-binds_example :
    (t : MerkleTree leaf_hash ((1 ∷ []) ∷ two_leaves) two_root) × (t' : MerkleTree leaf_hash
      ((1 ∷ []) ∷ two_leaves)
      two_root)
    × ((◌≡◌ {A = List Bytes} ((1 ∷ []) ∷ two_leaves) ((1 ∷ []) ∷ two_leaves))
        ⊎ Collision (Hashes t) (Hashes t'))
merkle_root-binds_example =
    merkle_root-binds (1 ∷ []) (1 ∷ []) two_leaves two_leaves two_root toy-Sha256Laws two_root_lem
      two_root_lem
