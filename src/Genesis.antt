-- ===== src/Genesis.antt =====
-- core/genesis.py: the genesis block. `@cache` has no counterpart: the function is pure.
pub mod Rules
mod Examples
use tal_cash.Base.{
  Bytes, Result, [], assertion_error, bind, bytes_eq, err, none, not, ok, raise_if, runtime_error,
  some, ℕ, ◌^◌, ◌∷◌, ◌⨟◌,
}
use tal_cash.Block.{Block, block_id, block_version, compute_merkle_root}
use tal_cash.Crypto.{Crypto, burn_payload, zero_bytes}
use tal_cash.Hashing.{merkle_root}
use tal_cash.Params.{NetworkParams}
use tal_cash.Pow.{mine}
use tal_cash.Snapshot.{no_snapshot}
use tal_cash.Tx.{Coinbase, coinbase}

module _ ⦃c : Crypto⦄ where
  unfoldable pub genesis_coinbase : NetworkParams → Bytes → Coinbase
  genesis_coinbase params message = record {
    network_id = params.network_id;
    height = 0;
    address = burn_payload;
    amount = params.block_reward;
    memo = message;
  }

  unfoldable pub build_genesis : NetworkParams → ℕ → Bytes → ℕ → Result Block
  build_genesis params timestamp message nonce =
      bind (compute_merkle_root (coinbase (genesis_coinbase params message) ∷ [])) λ root.
        ok (record {
          header = record {
            version = block_version;
            height = 0;
            prev_id = zero_bytes 32;
            merkle_root = root;
            snapshot_root = no_snapshot;
            timestamp = timestamp;
            target = params.genesis_target;
            nonce = nonce;
          };
          transactions = coinbase (genesis_coinbase params message) ∷ [];
        })

  -- `mine` from nonce 0 on without `max_attempts` stops at 2 ^ 64, so as many rounds are enough.
  unfoldable pub mine_genesis : NetworkParams → ℕ → Bytes → Result Block
  mine_genesis params timestamp message = bind (build_genesis params timestamp message 0) λ block.
      bind (mine block.header params.pow 0 1 (2 ^ 64)) λ found. elim found [
        | none ↦ err assertion_error
        | some header ↦ ok (record { header = header; transactions = block.transactions })
      ]

  -- `genesis_block` of a network that has been launched.
  unfoldable pub launched_block : NetworkParams → ℕ → ℕ → Bytes → Result Block
  launched_block params timestamp nonce id =
      bind (build_genesis params timestamp params.genesis_message nonce) λ block.
        bind (block_id block.header)
          λ block_id. raise_if (not (bytes_eq block_id id)) runtime_error ⨟ ok block

  unfoldable pub genesis_block : NetworkParams → Result Block
  genesis_block params = elim params.genesis_timestamp [
    | none ↦ err runtime_error
    | some timestamp ↦ elim params.genesis_nonce [
      | none ↦ err runtime_error
      | some nonce ↦ elim params.genesis_id [
        | none ↦ err runtime_error
        | some id ↦ launched_block params timestamp nonce id
      ]
    ]
  ]
