-- ===== src/Block/Rules.antt =====
-- What `check_block` (core/block.py) guarantees of a block that it accepts.

use tal_cash.Hashing
use tal_cash.Base.{
  All, Bytes, List, Result, [], ap, arith, bad_coinbase_height, bad_merkle_root, bad_version,
  bind-eq-ok, block_too_large, bytes_eq, bytes_eq_iff, duplicate_transaction, err, extra_coinbase,
  false, length, ltb, not, ok, raise_if, raise_if-eq-ok, refl, validation, ℕ, ◌==◌, ◌∙◌, ◌∷◌, ◌≡◌,
  ◌≤◌, ◌⨟◌,
}
use tal_cash.Block.{
  Block, BlockHeader, any_coinbase, block_size, block_version, check_block, check_body,
  check_transactions, is_coinbase, member, set_size, txids,
}
use tal_cash.Crypto.{Crypto}
use tal_cash.Hashing.{merkle_root}
use tal_cash.Params.{NetworkParams}
use tal_cash.Tx.{Coinbase, Transaction, check_transaction, coinbase, transfer}

-- The items of a list are all different.
abbrev pub AllDistinct : List Bytes → Type 0
AllDistinct [] = Unit {0}
AllDistinct (x ∷ xs) = (member x xs ≡ false) × AllDistinct xs

set_size-le : (xs : List Bytes) → set_size xs ≤ length xs
unfolding set_size
set_size-le [] = omega arith
set_size-le (x ∷ xs) = ground (arith, set_size-le xs)

set_size-AllDistinct : (xs : List Bytes) → set_size xs ≡ length xs → AllDistinct xs
unfolding set_size
set_size-AllDistinct [] h = tt
set_size-AllDistinct (x ∷ xs) h = ground (arith, set_size-le xs, set_size-AllDistinct xs)

abbrev pub IsTransfer : Transaction → Type 0
IsTransfer tx = is_coinbase tx ≡ false

any_coinbase-IsTransfer : (txs : List Transaction) → any_coinbase txs ≡ false → All IsTransfer txs
unfolding any_coinbase
any_coinbase-IsTransfer [] h = tt
any_coinbase-IsTransfer (tx ∷ txs) h = ground (arith, any_coinbase-IsTransfer txs)

module _ ⦃c : Crypto⦄ where
  abbrev pub IsChecked : NetworkParams → Transaction → Type 0
  IsChecked params tx = check_transaction tx params ≡ ok tt

  check_transactions-IsChecked :
      (txs : List Transaction) (params : NetworkParams)
      → check_transactions txs params ≡ ok tt
      → All (IsChecked params) txs
  unfolding check_transactions
  check_transactions-IsChecked [] params h = tt
  check_transactions-IsChecked (tx ∷ txs) params h =
      ground (arith, check_transactions-IsChecked txs params)

  -- What `check_body` guarantees of the transactions.
  pub record IsValidBody (txs : List Transaction) (header : BlockHeader) (params : NetworkParams)
      : Type 0 where
    pub miner : Coinbase
    pub later : List Transaction
    pub ids : List Bytes
    pub first : txs ≡ coinbase miner ∷ later
    pub only : All IsTransfer later
    pub height : miner.height ≡ header.height
    pub named : txids txs ≡ ok ids
    pub distinct : AllDistinct ids
    pub root : Hashing.merkle_root ids ≡ ok header.merkle_root
    pub checked : All (IsChecked params) txs

  ⨟-eq-ok : (m k : Result (Unit {0})) → (m ⨟ k) ≡ ok tt → (m ≡ ok tt) × (k ≡ ok tt)
  ⨟-eq-ok (ok _) k h = (refl, h)
  ⨟-eq-ok (err e) k h = cc

  check_body-IsValidBody :
      (txs : List Transaction) (header : BlockHeader) (params : NetworkParams)
      → check_body txs header params ≡ ok tt
      → IsValidBody txs header params
  unfolding check_body
  check_body-IsValidBody [] header params e = cc
  check_body-IsValidBody (transfer _ ∷ _) header params e = cc
  check_body-IsValidBody (coinbase cb ∷ txs) header params e =
      let (only, e₁) = ⨟-eq-ok (raise_if (any_coinbase txs) (validation extra_coinbase)) _ e in
      let (height, e₂) =
        ⨟-eq-ok (raise_if (not (cb.height == header.height)) (validation bad_coinbase_height)) _
          e₁ in
      let (ids, named, e₃) = bind-eq-ok (txids (coinbase cb ∷ txs)) _ e₂ in
      let (distinct, e₄) =
        ⨟-eq-ok (raise_if (not (set_size ids == length ids)) (validation duplicate_transaction)) _
          e₃ in
      let (root, rooted, e₅) = bind-eq-ok (Hashing.merkle_root ids) _ e₄ in
      let (same, checks) =
        ⨟-eq-ok (raise_if (not (bytes_eq root header.merkle_root)) (validation bad_merkle_root)) _
          e₅ in
      record {
        miner = cb;
        later = txs;
        ids = ids;
        first = refl;
        only = any_coinbase-IsTransfer txs (raise_if-eq-ok _ _ only);
        height = ground arith;
        named = named;
        distinct = set_size-AllDistinct ids (ground arith);
        root = rooted ∙ ap ok ((bytes_eq_iff root header.merkle_root).0 (ground arith));
        checked = check_transactions-IsChecked (coinbase cb ∷ txs) params checks;
      }

  pub record IsValidBlock (b : Block) (params : NetworkParams) : Type 0 where
    pub size : ℕ
    pub version : b.header.version ≡ block_version
    pub sized : block_size b ≡ ok size
    pub small : size ≤ params.max_block_size
    pub body : IsValidBody b.transactions b.header params

  -- A block that check_block accepts has version 1 and fits the size limit; its first transaction
  -- is its only coinbase, of the block's height; its txids are all different and have the header's
  -- Merkle root; and every transaction passes check_transaction.
  pub check_block-IsValidBlock :
      (b : Block) (params : NetworkParams) → check_block b params ≡ ok tt → IsValidBlock b params
  unfolding check_block
  check_block-IsValidBlock b params e =
      let (version, e₁) =
        ⨟-eq-ok (raise_if (not (b.header.version == block_version)) (validation bad_version)) _ e in
      let (size, sized, e₂) = bind-eq-ok (block_size b) _ e₁ in
      let (small, e₃) =
        ⨟-eq-ok (raise_if (ltb params.max_block_size size) (validation block_too_large)) _ e₂ in
      record {
        size = size;
        version = ground arith;
        sized = sized;
        small = ground arith;
        body = check_body-IsValidBody b.transactions b.header params e₃;
      }
