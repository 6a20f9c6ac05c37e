-- ===== src/Block/Examples.antt =====
-- Tests of core/block.py and the theorems about it at concrete inputs.
use tal_cash.Base.{Bytes, IsBytes, [], arith, bytes_eq, length, ok, refl, true, ◌^◌, ◌↔◌, ◌∷◌, ◌≡◌}
use tal_cash.Block.{
  Block, BlockHeader, any_coinbase, block_from_bytes, block_size, check_block, check_body,
  check_transactions, compute_merkle_root, header_from_bytes, member, serialize_block,
  serialize_header, set_size, txids, write_transactions,
}
use tal_cash.Block.Layout.{FitsBlock, FitsHeader, block_layout, header_layout}
use tal_cash.Block.RoundTrip.{block_from_bytes_iff, header_from_bytes_iff}
use tal_cash.Block.Rules.{IsValidBlock, check_block-IsValidBlock}
use tal_cash.Crypto.{is_known_payload, zero_bytes}
use tal_cash.Encoding.{
  append_part, from_bytes, get_value, to_bytes, uint_bytes, write_fixed, write_uint, write_var8,
  written,
}
use tal_cash.Hashing.{fold_levels, leaf_hash, merkle_root}
use tal_cash.Params.{regtest}
use tal_cash.Toy.{get_ok, is_bytes, is_bytes-IsBytes, toy_crypto, toy_sha256}
use tal_cash.Tx.{
  Coinbase, check_coinbase, check_transaction, coinbase, serialize, serialize_coinbase, txid,
}

abbrev reward : Coinbase
reward = record {
  network_id = 3;
  height = 5;
  address = zero_bytes 21;
  amount = 10_000_000;
  memo = [];
}

sealed_header : BlockHeader
unfolding compute_merkle_root txids txid serialize serialize_coinbase written write_uint uint_bytes
    append_part write_fixed write_var8 to_bytes toy_sha256 merkle_root fold_levels leaf_hash
sealed_header = record {
  version = 1;
  height = 5;
  prev_id = zero_bytes 32;
  merkle_root = get_ok [] (compute_merkle_root (coinbase reward ∷ []));
  snapshot_root = zero_bytes 32;
  timestamp = 1_767_225_700;
  target = 2 ^ 200;
  nonce = 9;
}

sealed : Block
unfolding sealed_header
sealed = record { header = sealed_header; transactions = coinbase reward ∷ [] }

is_bytes_header :
    (length sealed_header.prev_id ≡ 32)
    × (length sealed_header.merkle_root ≡ 32)
    × (length sealed_header.snapshot_root ≡ 32)
    × (is_bytes sealed_header.prev_id ≡ true)
    × (is_bytes sealed_header.merkle_root ≡ true)
    × (is_bytes sealed_header.snapshot_root ≡ true)
unfolding sealed_header is_bytes get_value from_bytes
is_bytes_header = (refl, refl, refl, refl, refl, refl)

sealed_header-Fits : FitsHeader sealed_header
unfolding sealed_header
sealed_header-Fits =
    let (prev, merkle, snapshot, prev_bytes, merkle_bytes, snapshot_bytes) = is_bytes_header in
    record {
      version = omega arith;
      height = omega arith;
      prev_id = prev;
      merkle_root = merkle;
      snapshot_root = snapshot;
      timestamp = omega arith;
      target = omega arith;
      nonce = omega arith;
      prev_bytes = is_bytes-IsBytes _ prev_bytes;
      merkle_bytes = is_bytes-IsBytes _ merkle_bytes;
      snapshot_bytes = is_bytes-IsBytes _ snapshot_bytes;
    }

sealed-Fits : FitsBlock sealed
unfolding sealed
sealed-Fits = record {
  header = sealed_header-Fits;
  count = omega arith;
  transactions = (omega arith, tt);
}

header_octets : Bytes
unfolding sealed_header serialize_header to_bytes
header_octets = header_layout sealed_header

header_octets-IsBytes : IsBytes header_octets
unfolding header_octets is_bytes
header_octets-IsBytes = is_bytes-IsBytes header_octets refl

header_from_bytes_iff_example :
    (header_from_bytes header_octets ≡ ok sealed_header)
    ↔ ((serialize_header sealed_header ≡ ok header_octets) × FitsHeader sealed_header)
header_from_bytes_iff_example =
    header_from_bytes_iff header_octets sealed_header header_octets-IsBytes

block_octets : Bytes
unfolding sealed to_bytes
block_octets = block_layout sealed

block_octets-IsBytes : IsBytes block_octets
unfolding block_octets is_bytes
block_octets-IsBytes = is_bytes-IsBytes block_octets refl

block_from_bytes_iff_example :
    (block_from_bytes block_octets ≡ ok sealed)
    ↔ ((serialize_block sealed ≡ ok block_octets) × FitsBlock sealed)
block_from_bytes_iff_example = block_from_bytes_iff block_octets sealed block_octets-IsBytes

sealed_checked : check_block sealed regtest ≡ ok tt
unfolding sealed regtest check_block block_size serialize_block serialize_header check_body
    any_coinbase set_size member write_transactions get_value check_transactions check_transaction
    check_coinbase is_known_payload bytes_eq from_bytes
sealed_checked = refl

check_block-IsValidBlock_example : IsValidBlock sealed regtest
check_block-IsValidBlock_example = check_block-IsValidBlock sealed regtest sealed_checked
