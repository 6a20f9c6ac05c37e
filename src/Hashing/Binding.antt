-- ===== src/Hashing/Binding.antt =====
-- The Merkle root of core/hashing.py binds its leaves: two lists with one root give two inputs on
-- which SHA-256 collides. The prefixes 0x00 and 0x01 are what makes this hold.
use tal_cash.Base.{
  Bool-cases, Bytes, List, [], ap, ap₂, arith, bytes_eq, bytes_eq_iff, inl, inr, length, ok, refl,
  subst, sym, ◌++◌, ◌∙◌, ◌∷◌, ◌≡◌, ◌≢◌, ◌⊎◌,
}
use tal_cash.Crypto.{Crypto, Sha256Laws, sha256}
use tal_cash.Encoding.{first_byte}
use tal_cash.Hashing.{leaf_hash, merkle_root, node_hash}
use tal_cash.Hashing.Rfc.{MerkleTree, leaf, merkle_root-MerkleTree, node}

module _ ⦃c : Crypto⦄ where
  -- Two different inputs with one digest, of given kinds.
  pub record Collision (P Q : Bytes → Type 0) : Type 0 where
    pub first : Bytes
    pub second : Bytes
    pub of_first : P first
    pub of_second : Q second
    pub differ : first ≢ second
    pub collide : sha256 first ≡ sha256 second

  Collision-map :
      {P Q P' Q' : Bytes → Type 0}
      → ((m : Bytes) → P m → P' m)
      → ((m : Bytes) → Q m → Q' m)
      → Collision P Q
      → Collision P' Q'
  Collision-map f g k = record {
    first = k.first;
    second = k.second;
    of_first = f k.first k.of_first;
    of_second = g k.second k.of_second;
    differ = k.differ;
    collide = k.collide;
  }

  -- Equal digests come of equal inputs, or collide.
  sha256_cases :
      {P Q : Bytes → Type 0} (a b : Bytes)
      → P a
      → Q b
      → sha256 a ≡ sha256 b
      → (a ≡ b) ⊎ Collision P Q
  sha256_cases a b pa qb e = elim (Bool-cases (bytes_eq a b)) [
    | inl same ↦ inl ((bytes_eq_iff a b).0 same)
    | inr other ↦ inr (record {
      first = a;
      second = b;
      of_first = pa;
      of_second = qb;
      differ = λ p. cc (other, (bytes_eq_iff a b).1 p);
      collide = e;
    })
  ]

  -- The inputs of SHA-256 in a tree.
  abbrev pub Hashes :
      {ds : List Bytes} {root : Bytes} → MerkleTree leaf_hash ds root → Bytes → Type 0
  Hashes (leaf d root e) m = m ≡ 0 ∷ d
  Hashes (node ds left right x y root e q size more small r lt rt) m =
      (m ≡ 1 ∷ x ++ y) ⊎ (Hashes lt m ⊎ Hashes rt m)

  append-injective :
      (xs ys us vs : Bytes) → length xs ≡ length us → xs ++ ys ≡ us ++ vs → (xs ≡ us) × (ys ≡ vs)
  append-injective [] ys [] vs h e = (refl, e)
  append-injective [] ys (u ∷ us) vs h e = absurd (omega arith)
  append-injective (x ∷ xs) ys [] vs h e = absurd (omega arith)
  append-injective (x ∷ xs) ys (u ∷ us) vs h e =
      let (p, q) = append-injective xs ys us vs (omega arith) (cc) in (cc, q)

  MerkleTree-digest :
      {ds : List Bytes} {root : Bytes}
      → Sha256Laws
      → MerkleTree leaf_hash ds root
      → length root ≡ 32
  unfolding leaf_hash node_hash
  MerkleTree-digest laws (leaf d root e) = ap length e ∙ laws.digest_size (0 ∷ d)
  MerkleTree-digest laws (node ds left right x y root e q size more small r lt rt) =
      ap length r ∙ laws.digest_size (1 ∷ x ++ y)

  -- Two trees with one root have the same leaves, or show a collision.
  MerkleTree-binds :
      {ds es : List Bytes} {r s : Bytes}
      → Sha256Laws
      → (t : MerkleTree leaf_hash ds r) (t' : MerkleTree leaf_hash es s) → r ≡ s
      → (ds ≡ es) ⊎ Collision (Hashes t) (Hashes t')
  unfolding leaf_hash node_hash
  MerkleTree-binds laws (leaf d root e) (leaf d' root' e') p =
      elim (sha256_cases (0 ∷ d) (0 ∷ d') refl refl (sym e ∙ p ∙ e')) [
        | inl q ↦ inl (cc)
        | inr k ↦ inr k
      ]
  MerkleTree-binds laws (leaf d root e) (node es l r x y root' n q size more small e' lt rt) p =
      elim (sha256_cases (0 ∷ d) (1 ∷ x ++ y) refl (inl refl) (sym e ∙ p ∙ e')) [
        | inl q' ↦ absurd (omega (arith, ap first_byte q'))
        | inr k ↦ inr k
      ]
  MerkleTree-binds laws (node ds l r x y root n q size more small e lt rt) (leaf d root' e') p =
      elim (sha256_cases (1 ∷ x ++ y) (0 ∷ d) (inl refl) refl (sym e ∙ p ∙ e')) [
        | inl q' ↦ absurd (omega (arith, ap first_byte q'))
        | inr k ↦ inr k
      ]
  MerkleTree-binds laws (node ds l r x y root n q size more small e lt rt)
        (node es l' r' x' y' root' n' q' size' more' small' e' lt' rt') p =
      elim (sha256_cases (1 ∷ x ++ y) (1 ∷ x' ++ y') (inl refl) (inl refl) (sym e ∙ p ∙ e')) [
        | inr k ↦ inr k
        | inl same ↦
            let (px, py) =
              append-injective x y x' y'
                (MerkleTree-digest laws lt ∙ sym (MerkleTree-digest laws lt')) (cc same) in
            elim (MerkleTree-binds laws lt lt' px) [
              | inr k ↦ inr (Collision-map (λ m h. inr (inl h)) (λ m h. inr (inl h)) k)
              | inl left ↦ elim (MerkleTree-binds laws rt rt' py) [
                | inr k ↦ inr (Collision-map (λ m h. inr (inr h)) (λ m h. inr (inr h)) k)
                | inl right ↦ inl (q ∙ ap₂ (λ a b. a ++ b) left right ∙ sym q')
              ]
            ]
      ]

  tree_of :
      (d : Bytes) (ds : List Bytes) (root : Bytes)
      → merkle_root (d ∷ ds) ≡ ok root
      → MerkleTree leaf_hash (d ∷ ds) root
  tree_of d ds root p =
      let (r, pr, rt) = merkle_root-MerkleTree d ds in
      let same : r ≡ root = cc in subst (λ x. MerkleTree leaf_hash (d ∷ ds) x) same rt

  -- If two lists with at least one leaf each have one Merkle root, and SHA-256 gives 32 bytes, then
  -- there are RFC 6962 trees of the two lists with that root, and the lists are equal or an input
  -- of SHA-256 in the one tree and a different one in the other tree have one digest.
  pub merkle_root-binds :
      (d e : Bytes) (ds es : List Bytes) (root : Bytes)
      → Sha256Laws
      → merkle_root (d ∷ ds) ≡ ok root
      → merkle_root (e ∷ es) ≡ ok root
      → (t : MerkleTree leaf_hash (d ∷ ds) root) × (t' : MerkleTree leaf_hash (e ∷ es) root) × ((d
              ∷ ds
            ≡ e ∷ es)
          ⊎ Collision (Hashes t) (Hashes t'))
  merkle_root-binds d e ds es root laws p q =
      let t = tree_of d ds root p in
      let t' = tree_of e es root q in (t, t', MerkleTree-binds laws t t' refl)
