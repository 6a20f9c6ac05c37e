-- ===== src/Genesis/Examples.antt =====
-- The theorem about core/genesis.py at the regtest genesis, with the stand-in hash.
use tal_cash.Base.{[], arith, ok, refl, ◌≡◌}
use tal_cash.Block.{
  Block, block_size, check_block, compute_merkle_root, serialize_block, serialize_header, txids,
  write_transactions,
}
use tal_cash.Encoding.{
  append_part, get_value, to_bytes, uint_bytes, write_fixed, write_uint, write_var8, written,
}
use tal_cash.Genesis.{build_genesis, genesis_coinbase}
use tal_cash.Genesis.Rules.{build_genesis-check_block}
use tal_cash.Hashing.{fold_levels, leaf_hash, merkle_root}
use tal_cash.Params.{regtest}
use tal_cash.Toy.{get_ok, toy_crypto, toy_sha256}
use tal_cash.Tx.{serialize, serialize_coinbase, txid}

block : Block
unfolding regtest build_genesis genesis_coinbase compute_merkle_root txids txid serialize
    serialize_coinbase written write_uint uint_bytes append_part write_fixed write_var8 to_bytes
    toy_sha256 merkle_root fold_levels leaf_hash
block =
    get_ok
      (record {
        header = record {
          version = 0;
          height = 0;
          prev_id = [];
          merkle_root = [];
          snapshot_root = [];
          timestamp = 0;
          target = 0;
          nonce = 0;
        };
        transactions = [];
      })
      (build_genesis regtest 1_767_225_600 regtest.genesis_message 1)

built : build_genesis regtest 1_767_225_600 regtest.genesis_message 1 ≡ ok block
unfolding block
built = refl

sized : block_size block ≡ ok 216
unfolding block block_size serialize_block serialize_header write_transactions get_value
sized = refl

build_genesis-check_block_example : check_block block regtest ≡ ok tt
unfolding regtest
build_genesis-check_block_example =
    build_genesis-check_block regtest 1_767_225_600 1 216 regtest.genesis_message block
      (omega arith) (omega arith) built sized (omega arith)
