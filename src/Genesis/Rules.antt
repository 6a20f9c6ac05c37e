-- ===== src/Genesis/Rules.antt =====
-- The genesis block keeps the rules of `check_block`.
use tal_cash.Hashing
use tal_cash.Base.{
  Bytes, [], arith, bind-eq-ok, bytes_eq_refl, false, length, ltb, ok, refl, true, ℕ, ◌∷◌, ◌≡◌, ◌≤◌,
}
use tal_cash.Block.{
  Block, BlockHeader, any_coinbase, block_size, check_block, check_body, check_transactions,
  compute_merkle_root, member, set_size, txids,
}
use tal_cash.Crypto.{Crypto, burn_payload, is_known_payload}
use tal_cash.Genesis.{build_genesis, genesis_coinbase}
use tal_cash.Hashing.{merkle_root}
use tal_cash.Params.{NetworkParams, max_amount}
use tal_cash.Tx.{check_transaction, coinbase, max_memo_size, size, txid}
use tal_cash.Tx.Rules.{check_transaction-coinbase_iff}

module _ ⦃c : Crypto⦄ where
  payload_known : is_known_payload burn_payload ≡ true
  unfolding is_known_payload
  payload_known = refl

  check_genesis_body :
      (params : NetworkParams) (message root : Bytes) (header : BlockHeader)
      → length message ≤ max_memo_size
      → params.block_reward ≤ max_amount
      → compute_merkle_root (coinbase (genesis_coinbase params message) ∷ []) ≡ ok root
      → header.merkle_root ≡ root
      → header.height ≡ 0
      → check_body (coinbase (genesis_coinbase params message) ∷ []) header params ≡ ok tt
  unfolding check_body any_coinbase compute_merkle_root txids set_size member check_transactions
      genesis_coinbase
  check_genesis_body params message root header short fits rooted same height =
      let cb = genesis_coinbase params message in
      let (ids, named, merkle) = bind-eq-ok (txids (coinbase cb ∷ [])) Hashing.merkle_root rooted in
      let (id, e, listed) = bind-eq-ok (txid (coinbase cb)) _ named in
      let merkle_one : Hashing.merkle_root (id ∷ []) ≡ ok root = cc (listed, merkle) in
      let checked : check_transaction (coinbase cb) params ≡ ok tt =
        (check_transaction-coinbase_iff cb params).1 (refl, short, payload_known, fits) in
      rw (check_body, height, e, merkle_one, same, bytes_eq_refl root, checked) refl

  -- With a message of at most 255 bytes and a block reward of at most MAX_AMOUNT, a block that
  -- build_genesis returns passes check_block if its size is within the limit.
  pub build_genesis-check_block :
      (params : NetworkParams) (timestamp nonce size : ℕ) (message : Bytes) (block : Block)
      → length message ≤ max_memo_size
      → params.block_reward ≤ max_amount
      → build_genesis params timestamp message nonce ≡ ok block
      → block_size block ≡ ok size
      → size ≤ params.max_block_size
      → check_block block params ≡ ok tt
  unfolding build_genesis check_block
  build_genesis-check_block params timestamp nonce size message block short fits built sized small =
      let (root, rooted, made) =
        bind-eq-ok (compute_merkle_root (coinbase (genesis_coinbase params message) ∷ [])) _
          built in
      let checked =
        check_genesis_body params message root block.header short fits rooted (cc made) (cc made) in
      let version : block.header.version ≡ 1 = cc made in
      let txs : block.transactions ≡ coinbase (genesis_coinbase params message) ∷ [] = cc made in
      let over : ltb params.max_block_size size ≡ false = ground (arith, small) in
      rw (sized, over, txs, checked, version) refl
