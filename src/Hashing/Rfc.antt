-- ===== src/Hashing/Rfc.antt =====
-- The Merkle tree of RFC 6962 and that the bottom-up loop of core/hashing.py computes its root.
use native.Mathlib.Nat.{pow-suc}
use tal_cash.Base.{
  Bytes, List, [], ap, arith, length, length-append, length-map, map, ok, refl, subst, suc, sym,
  zero, ℕ, ◌*◌, ◌++◌, ◌+◌, ◌<◌, ◌^◌, ◌∙◌, ◌∷◌, ◌≡◌, ◌≤◌,
}
use tal_cash.Crypto.{Crypto}
use tal_cash.Hashing.{fold_levels, leaf_hash, merkle_root, node_hash, pair_level}

module _ ⦃c : Crypto⦄ where
  -- `MerkleTree hash ds root`: RFC 6962 gives the list `ds` the root `root`, where `hash` hashes one
  -- entry. A longer list splits at `2 ^ e`, the largest power of two below its length.
  pub data MerkleTree (hash : Bytes → Bytes) : List Bytes → Bytes → Type 0 where
    leaf : (d root : Bytes) → root ≡ hash d → MerkleTree hash (d ∷ []) root
    node :
        (ds left right : List Bytes) (x y root : Bytes) (e : ℕ)
        → ds ≡ left ++ right
        → length left ≡ 2 ^ e
        → 0 < length right
        → length right ≤ 2 ^ e
        → root ≡ node_hash x y
        → MerkleTree hash left x
        → MerkleTree hash right y
        → MerkleTree hash ds root

  length-pair_level : (xs : List Bytes) → length xs ≤ 2 * length (pair_level xs)
  unfolding pair_level
  length-pair_level [] = omega arith
  length-pair_level (x ∷ []) = omega arith
  length-pair_level (x ∷ y ∷ rest) = omega (arith, length-pair_level rest)

  pair_level-shorter : (xs : List Bytes) → 2 * length (pair_level xs) ≤ length xs + 1
  unfolding pair_level
  pair_level-shorter [] = omega arith
  pair_level-shorter (x ∷ []) = omega arith
  pair_level-shorter (x ∷ y ∷ rest) = omega (arith, pair_level-shorter rest)

  -- Where a paired level is cut, the level below is cut at twice the place.
  record Cut (xs left right : List Bytes) : Type 0 where
    front : List Bytes
    back : List Bytes
    whole : xs ≡ front ++ back
    twice : length front ≡ 2 * length left
    paired_front : pair_level front ≡ left
    paired_back : pair_level back ≡ right

  pair_level-Cut :
      (xs left right : List Bytes)
      → pair_level xs ≡ left ++ right
      → 0 < length right
      → Cut xs left right
  unfolding pair_level
  pair_level-Cut xs [] right e h = record {
    front = [];
    back = xs;
    whole = refl;
    twice = refl;
    paired_front = refl;
    paired_back = e;
  }
  pair_level-Cut [] (l ∷ left) right e h = cc
  pair_level-Cut (x ∷ []) (l ∷ left) right e h =
      absurd (omega (arith, ap length e, length-append left right))
  pair_level-Cut (x ∷ y ∷ rest) (l ∷ left) right e h =
      let r = pair_level-Cut rest left right (cc) h in
      record {
        front = x ∷ y ∷ r.front;
        back = r.back;
        whole = ap (λ t. x ∷ y ∷ t) r.whole;
        twice = omega (arith, r.twice);
        paired_front = ground (arith, r.paired_front);
        paired_back = r.paired_back;
      }

  abbrev same : Bytes → Bytes
  same x = x

  pair_level-single : (d : Bytes) (xs : List Bytes) → pair_level xs ≡ d ∷ [] → MerkleTree same xs d
  unfolding pair_level
  pair_level-single d [] p = cc
  pair_level-single d (x ∷ []) p = leaf x d (cc)
  pair_level-single d (x ∷ y ∷ []) p =
      node (x ∷ y ∷ []) (x ∷ []) (y ∷ []) x y d 0 refl refl (omega arith) (omega arith) (cc)
        (leaf x x refl) (leaf y y refl)
  pair_level-single d (x ∷ y ∷ z ∷ rest) p =
      absurd (omega (arith, ap length p, length-pair_level (z ∷ rest)))

  -- A level has the root of the level above it.
  MerkleTree-pair_level :
      {ys : List Bytes} {root : Bytes}
      → MerkleTree same ys root
      → (xs : List Bytes) → pair_level xs ≡ ys
      → MerkleTree same xs root
  MerkleTree-pair_level (leaf d root e) xs p =
      subst (MerkleTree same xs) (sym e) (pair_level-single d xs p)
  MerkleTree-pair_level (node ys left right x y root e q size more small r lt rt) xs p =
      let cut = pair_level-Cut xs left right (p ∙ q) more in
      node xs cut.front cut.back x y root (suc e) cut.whole
        (omega (arith, cut.twice, size, pow-suc 2 e))
        (omega (arith, pair_level-shorter cut.back, ap length cut.paired_back, more))
        (omega (arith, length-pair_level cut.back, ap length cut.paired_back, small, pow-suc 2 e)) r
        (MerkleTree-pair_level lt cut.front cut.paired_front)
        (MerkleTree-pair_level rt cut.back cut.paired_back)

  fold_levels-MerkleTree :
      (fuel : ℕ) (x : Bytes) (xs : List Bytes)
      → length xs ≤ fuel
      → MerkleTree same (x ∷ xs) (fold_levels fuel (x ∷ xs))
  unfolding fold_levels pair_level
  fold_levels-MerkleTree zero x [] h = leaf x x refl
  fold_levels-MerkleTree (suc fuel) x [] h = leaf x x refl
  fold_levels-MerkleTree zero x (y ∷ rest) h = absurd (omega arith)
  fold_levels-MerkleTree (suc fuel) x (y ∷ rest) h =
      MerkleTree-pair_level
        (fold_levels-MerkleTree fuel (node_hash x y) (pair_level rest)
          (omega (arith, pair_level-shorter rest)))
        (x ∷ y ∷ rest) refl

  record MapCut (hash : Bytes → Bytes) (ds left right : List Bytes) : Type 0 where
    front : List Bytes
    back : List Bytes
    whole : ds ≡ front ++ back
    mapped_front : map hash front ≡ left
    mapped_back : map hash back ≡ right

  map-MapCut :
      (hash : Bytes → Bytes) (ds left right : List Bytes)
      → map hash ds ≡ left ++ right
      → MapCut hash ds left right
  map-MapCut hash ds [] right e = record {
    front = [];
    back = ds;
    whole = refl;
    mapped_front = refl;
    mapped_back = e;
  }
  map-MapCut hash [] (l ∷ left) right e = cc
  map-MapCut hash (d ∷ ds) (l ∷ left) right e =
      let r = map-MapCut hash ds left right (cc) in
      record {
        front = d ∷ r.front;
        back = r.back;
        whole = ap (λ t. d ∷ t) r.whole;
        mapped_front = ground (arith, r.mapped_front);
        mapped_back = r.mapped_back;
      }

  -- A tree over the hashed entries is a tree over the entries.
  MerkleTree-map :
      (hash : Bytes → Bytes) {ys : List Bytes} {root : Bytes}
      → MerkleTree same ys root
      → (ds : List Bytes) → map hash ds ≡ ys
      → MerkleTree hash ds root
  MerkleTree-map hash (leaf d root e) [] p = cc
  MerkleTree-map hash (leaf d root e) (a ∷ []) p = leaf a root (e ∙ cc)
  MerkleTree-map hash (leaf d root e) (a ∷ b ∷ ds) p = cc
  MerkleTree-map hash (node ys left right x y root e q size more small r lt rt) ds p =
      let cut = map-MapCut hash ds left right (p ∙ q) in
      let front = ap length cut.mapped_front in
      let back = ap length cut.mapped_back in
      node ds cut.front cut.back x y root e cut.whole
        (omega (arith, front, size, length-map hash cut.front))
        (omega (arith, back, more, length-map hash cut.back))
        (omega (arith, back, small, length-map hash cut.back)) r
        (MerkleTree-map hash lt cut.front cut.mapped_front)
        (MerkleTree-map hash rt cut.back cut.mapped_back)

  -- On a list with at least one leaf merkle_root returns, within its fuel, the root that the
  -- recursive definition of RFC 6962 gives to the leaves.
  pub merkle_root-MerkleTree :
      (d : Bytes) (ds : List Bytes)
      → (root : Bytes) × (merkle_root (d ∷ ds) ≡ ok root) × MerkleTree leaf_hash (d ∷ ds) root
  unfolding merkle_root
  merkle_root-MerkleTree d ds = (
    fold_levels (suc (length ds)) (map leaf_hash (d ∷ ds)),
    refl,
    MerkleTree-map leaf_hash
        (fold_levels-MerkleTree (suc (length ds)) (leaf_hash d) (map leaf_hash ds)
          (omega (arith, length-map leaf_hash ds)))
        (d ∷ ds) refl,
  )
