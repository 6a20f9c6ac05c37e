-- ===== src/State/Examples.antt =====
-- Tests of core/state.py and the theorems about it at a concrete block.
use tal_cash.Base.{
  Bytes, [], arith, bytes_eq, drop, false, map, ok, refl, some, ◌++◌, ◌+◌, ◌^◌, ◌∷◌, ◌≡◌,
}
use tal_cash.Base.Dict.{bytes_Key, contains, insert, lookup, number_Key}
use tal_cash.Block.{
  Block, BlockHeader, any_coinbase, block_id, block_size, check_block, check_body,
  check_transactions, compute_merkle_root, is_coinbase, member, serialize_block, serialize_header,
  set_size, txids, write_transactions,
}
use tal_cash.Crypto.{is_known_payload, payload_from_public_key, verify, zero_bytes}
use tal_cash.Encoding.{
  append_part, from_bytes, get_value, to_bytes, uint_bytes, write_fixed, write_uint, write_var8,
  written,
}
use tal_cash.Hashing.{fold_levels, leaf_hash, merkle_root, node_hash, pair_level}
use tal_cash.Params.{NetworkParams, regtest}
use tal_cash.State.{
  BlockContext, MemoryState, StateChanges, apply, apply_block, apply_transactions, apply_transfer,
  apply_transfers, check_header, check_header_against_parent, credit, credit_outputs, get,
  get_account, get_over, mature, revert, set,
}
use tal_cash.State.Accounts.{IsBounded, received_by, sent_by, spent_by, total_fees}
use tal_cash.State.Ledger.{after, apply_block_accounts, apply_block_reward, matured_to}
use tal_cash.State.Supply.{apply_block-IsBounded, apply_block_supply, balances, matured_amount}
use tal_cash.State.Undo.{get_account-apply, get_account-revert}
use tal_cash.Toy.{get_ok, toy_crypto, toy_sha256}
use tal_cash.Tx.{
  Coinbase, Transfer, check_coinbase, check_outputs, check_transaction, check_transfer, coinbase,
  has_valid_signature, sender, serialize, serialize_coinbase, serialize_transfer, signing_message,
  size, sum_amounts, total_spent, transfer, txid, unsigned_bytes, write_outputs, write_unsigned,
}

abbrev miner_address : Bytes
miner_address = zero_bytes 20 ++ (1 ∷ [])

abbrev payee : Bytes
payee = zero_bytes 20 ++ (2 ∷ [])

abbrev claimed : Coinbase
claimed = record {
  network_id = 3;
  height = 5;
  address = miner_address;
  amount = 10_000_500;
  memo = [];
}

abbrev paid : Transfer
paid = record {
  network_id = 3;
  sender_public_key = zero_bytes 32;
  nonce = 7;
  fee = 500;
  outputs = record { address = payee; amount = 1_000_000 } ∷ [];
  memo = [];
  signature = zero_bytes 64;
}

abbrev old_coinbase : Coinbase
old_coinbase = record {
  network_id = 3;
  height = 3;
  address = payee;
  amount = 10_000_000;
  memo = [];
}

abbrev pub parent_header : BlockHeader
parent_header = record {
  version = 1;
  height = 4;
  prev_id = zero_bytes 32;
  merkle_root = zero_bytes 32;
  snapshot_root = zero_bytes 32;
  timestamp = 1_767_225_690;
  target = 2 ^ 200;
  nonce = 1;
}

unfoldable pub short_maturity : NetworkParams
unfolding regtest
short_maturity = record regtest { coinbase_maturity = 2 }

unfoldable pub block_five : Block
unfolding compute_merkle_root block_id serialize_header txids txid serialize serialize_coinbase
    serialize_transfer written write_uint uint_bytes append_part write_unsigned write_outputs
    write_fixed write_var8 to_bytes toy_sha256 merkle_root fold_levels leaf_hash
block_five = record {
  header = record {
    version = 1;
    height = 5;
    prev_id = get_ok [] (block_id parent_header);
    merkle_root = get_ok [] (compute_merkle_root (coinbase claimed ∷ transfer paid ∷ []));
    snapshot_root = zero_bytes 32;
    timestamp = 1_767_225_700;
    target = 2 ^ 200;
    nonce = 9;
  };
  transactions = coinbase claimed ∷ transfer paid ∷ [];
}

abbrev pub five_context : BlockContext
five_context = record {
  parent = parent_header;
  median_time_past = 1_767_225_600;
  expected_target = 2 ^ 200;
  matured_coinbase = some old_coinbase;
  snapshot_root = zero_bytes 32;
}

unfoldable pub sender_address : Bytes
unfolding sender payload_from_public_key
sender_address = sender paid

unfoldable pub before : MemoryState
unfolding sender_address
before = record { accounts = (sender_address, record { balance = 5_000_000; nonce = 7 }) ∷ [] }

unfoldable pub no_changes : StateChanges
no_changes = record { accounts = []; previous = []; fees = 0 }

unfoldable pub changes : StateChanges
unfolding block_five short_maturity before apply_block check_header check_header_against_parent
    check_block check_body check_transactions check_transaction check_transfer check_coinbase
    check_outputs is_known_payload bytes_eq from_bytes block_size serialize_block serialize_header
    serialize serialize_coinbase serialize_transfer write_transactions write_outputs write_unsigned
    written write_uint uint_bytes append_part write_fixed write_var8 to_bytes toy_sha256 merkle_root
    fold_levels pair_level leaf_hash node_hash txids txid block_id is_coinbase any_coinbase set_size
    member get_value sum_amounts total_spent signing_message unsigned_bytes has_valid_signature
    verify sender payload_from_public_key apply_transactions apply_transfers apply_transfer
    credit_outputs credit mature get set get_over lookup insert contains get_account size
changes =
    get_ok no_changes
      (apply_block block_five five_context (get_account before) short_maturity false)

pub accepted :
    apply_block block_five five_context (get_account before) short_maturity false ≡ ok changes
unfolding changes
accepted = refl

-- The overlay records the sender and the payee once each.
changes_lem :
    (changes.fees ≡ 500)
    × (map (λ entry. entry.1) changes.accounts
        ≡ record { balance = 11_000_000; nonce = 0 }
          ∷ record { balance = 3_999_500; nonce = 8 }
          ∷ [])
    × (map (λ entry. entry.1) changes.previous
        ≡ record { balance = 0; nonce = 0 } ∷ record { balance = 5_000_000; nonce = 7 } ∷ [])
unfolding changes
changes_lem = (refl, refl, refl)

apply_block_accounts_example :
    ((after (get_account before) changes sender_address).balance
        + spent_by sender_address (drop 1 block_five.transactions)
      ≡ (get_account before sender_address).balance
        + (matured_to sender_address (some old_coinbase)
            + received_by sender_address (drop 1 block_five.transactions)))
    × ((after (get_account before) changes sender_address).nonce
        ≡ (get_account before sender_address).nonce
          + sent_by sender_address (drop 1 block_five.transactions))
    × (changes.fees ≡ total_fees (drop 1 block_five.transactions))
apply_block_accounts_example =
    apply_block_accounts block_five five_context (get_account before) short_maturity false changes
      sender_address accepted

apply_block_reward_example :
    (miner : Coinbase) × (block_five.transactions ≡ coinbase miner ∷ drop 1 block_five.transactions)
    × (miner.amount ≡ short_maturity.block_reward + total_fees (drop 1 block_five.transactions))
apply_block_reward_example =
    apply_block_reward block_five five_context (get_account before) short_maturity false changes
      accepted

apply_block_supply_example :
    balances changes.accounts + changes.fees
    ≡ balances changes.previous + matured_amount (some old_coinbase)
apply_block_supply_example =
    apply_block_supply block_five five_context (get_account before) short_maturity false changes
      accepted

before-IsBounded : IsBounded (get_account before)
unfolding before get_account get_over lookup
before-IsBounded a = ground arith

apply_block-IsBounded_example : IsBounded (after (get_account before) changes)
apply_block-IsBounded_example =
    apply_block-IsBounded block_five five_context (get_account before) short_maturity false changes
      accepted before-IsBounded

get_account-apply_example :
    get_account (apply before changes) payee ≡ after (get_account before) changes payee
get_account-apply_example =
    get_account-apply block_five five_context before short_maturity false changes payee accepted

get_account-revert_example :
    get_account (revert (apply before changes) changes) payee ≡ get_account before payee
get_account-revert_example =
    get_account-revert block_five five_context before short_maturity false changes payee accepted
