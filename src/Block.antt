-- ===== src/Block.antt =====
-- core/block.py: headers, blocks, their bytes, and the rules that need no chain state.
use tal_cash.Hashing
pub mod Layout
pub mod RoundTrip
pub mod Rules
mod Examples
use tal_cash.Base.{
  Bool, Bytes, List, Result, [], bad_coinbase_height, bad_merkle_root, bad_version, bind,
  block_too_large, bytes_eq, duplicate_transaction, err, extra_coinbase, false, if◌then◌else◌,
  length, ltb, missing_coinbase, not, ok, raise_if, suc, true, validation, zero, ℕ, ◌+◌, ◌==◌, ◌||◌,
  ◌∷◌, ◌⨟◌,
}
use tal_cash.Crypto.{Crypto, sha256}
use tal_cash.Encoding.{
  Reading, Writing, pure, read_all, read_fixed, read_u256, read_u32, read_u64, write_fixed,
  write_raw, write_u256, write_u32, write_u64, written, ◌>>=◌, ◌⨾◌,
}
use tal_cash.Params.{NetworkParams}
use tal_cash.Tx.{
  Transaction, check_transaction, coinbase, read_transaction, serialize, size, transfer, txid,
}

abbrev pub block_version : ℕ
block_version = 1

abbrev pub header_size : ℕ
header_size = 156

pub record BlockHeader : Type 0 where
  pub version : ℕ
  pub height : ℕ
  pub prev_id : Bytes
  pub merkle_root : Bytes
  pub snapshot_root : Bytes
  pub timestamp : ℕ
  pub target : ℕ
  pub nonce : ℕ

-- `BlockHeader.serialize`
unfoldable pub serialize_header : BlockHeader → Result Bytes
serialize_header h = written (
    write_u32 h.version
    ⨾ write_u64 h.height
    ⨾ write_fixed h.prev_id 32
    ⨾ write_fixed h.merkle_root 32
    ⨾ write_fixed h.snapshot_root 32
    ⨾ write_u64 h.timestamp
    ⨾ write_u256 h.target
    ⨾ write_u64 h.nonce)

unfoldable pub read_header : Reading BlockHeader
read_header = do
  version ← read_u32
  height ← read_u64
  prev_id ← read_fixed 32
  merkle_root ← read_fixed 32
  snapshot_root ← read_fixed 32
  timestamp ← read_u64
  target ← read_u256
  nonce ← read_u64
  pure (record {
    version = version;
    height = height;
    prev_id = prev_id;
    merkle_root = merkle_root;
    snapshot_root = snapshot_root;
    timestamp = timestamp;
    target = target;
    nonce = nonce;
  })

unfoldable pub header_from_bytes : Bytes → Result BlockHeader
header_from_bytes = read_all read_header

pub record Block : Type 0 where
  pub header : BlockHeader
  pub transactions : List Transaction

-- `w.raw(tx.serialize())` for each transaction
unfoldable pub write_transactions : List Transaction → Writing
write_transactions [] w = ok w
write_transactions (tx ∷ txs) w =
    bind (serialize tx) λ octets. (write_raw octets ⨾ write_transactions txs) w

-- `Block.serialize`
unfoldable pub serialize_block : Block → Result Bytes
serialize_block b = bind (serialize_header b.header) λ head.
    written (write_raw head ⨾ write_u32 (length b.transactions) ⨾ write_transactions b.transactions)

unfoldable pub block_size : Block → Result ℕ
block_size b = bind (serialize_block b) λ octets. ok (length octets)

unfoldable pub read_transactions : ℕ → Reading (List Transaction)
read_transactions zero = pure []
read_transactions (suc n) = do tx ← read_transaction; txs ← read_transactions n; pure (tx ∷ txs)

unfoldable pub read_block : Reading Block
read_block = do
  header ← read_header
  count ← read_u32
  transactions ← read_transactions count
  pure (record { header = header; transactions = transactions })

unfoldable pub block_from_bytes : Bytes → Result Block
block_from_bytes = read_all read_block

unfoldable pub is_coinbase : Transaction → Bool
is_coinbase (coinbase _) = true
is_coinbase (transfer _) = false

unfoldable pub any_coinbase : List Transaction → Bool
any_coinbase [] = false
any_coinbase (tx ∷ txs) = is_coinbase tx || any_coinbase txs

unfoldable pub member : Bytes → List Bytes → Bool
member id [] = false
member id (x ∷ xs) = bytes_eq id x || member id xs

-- `len({...})`, the number of different items
unfoldable pub set_size : List Bytes → ℕ
set_size [] = 0
set_size (x ∷ xs) = let rest = set_size xs in if member x xs then rest else rest + 1

module _ ⦃c : Crypto⦄ where
  unfoldable pub block_id : BlockHeader → Result Bytes
  block_id h = bind (serialize_header h) λ octets. ok (sha256 octets)

  unfoldable pub txids : List Transaction → Result (List Bytes)
  txids [] = ok []
  txids (tx ∷ txs) = bind (txid tx) λ id. bind (txids txs) λ ids. ok (id ∷ ids)

  unfoldable pub compute_merkle_root : List Transaction → Result Bytes
  compute_merkle_root txs = bind (txids txs) λ ids. Hashing.merkle_root ids

  -- The loop at the end of `check_block`.
  unfoldable pub check_transactions : List Transaction → NetworkParams → Result (Unit {0})
  check_transactions [] params = ok tt
  check_transactions (tx ∷ txs) params = check_transaction tx params ⨟ check_transactions txs params

  -- `check_block` from the test of the first transaction on.
  unfoldable pub check_body : List Transaction → BlockHeader → NetworkParams → Result (Unit {0})
  check_body [] header params = err (validation missing_coinbase)
  check_body (transfer _ ∷ _) header params = err (validation missing_coinbase)
  check_body (coinbase cb ∷ txs) header params =
      raise_if (any_coinbase txs) (validation extra_coinbase)
      ⨟ raise_if (not (cb.height == header.height)) (validation bad_coinbase_height)
      ⨟ bind (txids (coinbase cb ∷ txs)) λ ids.
        raise_if (not (set_size ids == length ids)) (validation duplicate_transaction)
        ⨟ bind (Hashing.merkle_root ids) λ root.
          raise_if (not (bytes_eq root header.merkle_root)) (validation bad_merkle_root)
          ⨟ check_transactions (coinbase cb ∷ txs) params

  unfoldable pub check_block : Block → NetworkParams → Result (Unit {0})
  check_block b params =
      raise_if (not (b.header.version == block_version)) (validation bad_version)
      ⨟ bind (block_size b) λ size.
        raise_if (ltb params.max_block_size size) (validation block_too_large)
        ⨟ check_body b.transactions b.header params
