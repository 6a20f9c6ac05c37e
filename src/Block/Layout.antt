-- ===== src/Block/Layout.antt =====
-- The header layout of the docstring of core/block.py (156 bytes), the block layout, and that
-- `serialize` writes them when every field fits.
use tal_cash.Base.{
  All, Bytes, IsBytes, List, [], append-nil, arith, length, length-append, ok, refl, sym, ◌++◌, ◌<◌,
  ◌^◌, ◌∷◌, ◌≡◌,
}
use tal_cash.Block.{
  Block, BlockHeader, header_size, serialize_block, serialize_header, write_transactions,
}
use tal_cash.Encoding.{get_value, join, to_bytes}
use tal_cash.Encoding.BigEndian.{length-to_bytes}
use tal_cash.Encoding.Writes.{
  Writes, Writes-append_part, Writes-last, Writes-write_fixed, Writes-write_uint, Writes-⨾,
  written-Writes,
}
use tal_cash.Tx.{Transaction}
use tal_cash.Tx.Layout.{Fits, layout, serialize-layout}

pub record FitsHeader (h : BlockHeader) : Type 0 where
  pub version : h.version < 2 ^ 32
  pub height : h.height < 2 ^ 64
  pub prev_id : length h.prev_id ≡ 32
  pub merkle_root : length h.merkle_root ≡ 32
  pub snapshot_root : length h.snapshot_root ≡ 32
  pub timestamp : h.timestamp < 2 ^ 64
  pub target : h.target < 2 ^ 256
  pub nonce : h.nonce < 2 ^ 64
  pub prev_bytes : IsBytes h.prev_id
  pub merkle_bytes : IsBytes h.merkle_root
  pub snapshot_bytes : IsBytes h.snapshot_root

-- The header without its last field.
abbrev pub header_prefix : BlockHeader → Bytes
header_prefix h = join (
    to_bytes 4 h.version
    ∷ to_bytes 8 h.height
    ∷ h.prev_id
    ∷ h.merkle_root
    ∷ h.snapshot_root
    ∷ to_bytes 8 h.timestamp
    ∷ to_bytes 32 h.target
    ∷ [])

abbrev pub header_layout : BlockHeader → Bytes
header_layout h = join (
    to_bytes 4 h.version
    ∷ to_bytes 8 h.height
    ∷ h.prev_id
    ∷ h.merkle_root
    ∷ h.snapshot_root
    ∷ to_bytes 8 h.timestamp
    ∷ to_bytes 32 h.target
    ∷ to_bytes 8 h.nonce
    ∷ [])

pub serialize_header_layout :
    (h : BlockHeader) → FitsHeader h → serialize_header h ≡ ok (header_layout h)
unfolding serialize_header
serialize_header_layout h f = written-Writes (
    Writes-⨾ (Writes-write_uint 4 _ f.version) (
      Writes-⨾ (Writes-write_uint 8 _ f.height) (
        Writes-⨾ (Writes-write_fixed _ _ f.prev_id) (
          Writes-⨾ (Writes-write_fixed _ _ f.merkle_root) (
            Writes-⨾ (Writes-write_fixed _ _ f.snapshot_root) (
              Writes-⨾ (Writes-write_uint 8 _ f.timestamp) (
                Writes-⨾ (Writes-write_uint 32 _ f.target)
                  (Writes-last (Writes-write_uint 8 _ f.nonce)))))))))

-- A header is 156 bytes.
pub length-header_layout : (h : BlockHeader) → FitsHeader h → length (header_layout h) ≡ header_size
length-header_layout h f =
    simp (length-append, length-to_bytes, f.prev_id, f.merkle_root, f.snapshot_root) (omega arith)

abbrev pub transactions_layout : List Transaction → Bytes
transactions_layout [] = []
transactions_layout (tx ∷ txs) = layout tx ++ transactions_layout txs

abbrev pub block_layout : Block → Bytes
block_layout b = join (
    header_layout b.header
    ∷ to_bytes 4 (length b.transactions)
    ∷ transactions_layout b.transactions
    ∷ [])

pub record FitsBlock (b : Block) : Type 0 where
  pub header : FitsHeader b.header
  pub count : length b.transactions < 2 ^ 32
  pub transactions : All Fits b.transactions

Writes-write_transactions :
    (txs : List Transaction)
    → All Fits txs
    → Writes (write_transactions txs) (transactions_layout txs)
unfolding write_transactions
Writes-write_transactions [] h = record {
  after = λ w. w;
  run = λ w. refl;
  value = λ w. sym (append-nil (get_value w));
}
Writes-write_transactions (tx ∷ txs) (h, hs) =
    let all = Writes-⨾ (Writes-append_part (layout tx)) (Writes-write_transactions txs hs) in
    record {
      after = all.after;
      run = λ w. rw (serialize-layout tx h) (all.run w);
      value = all.value;
    }

pub serialize_block_layout : (b : Block) → FitsBlock b → serialize_block b ≡ ok (block_layout b)
unfolding serialize_block
serialize_block_layout b f = rw (serialize_header_layout b.header f.header) (
    written-Writes (
      Writes-⨾ (Writes-append_part (header_layout b.header)) (
        Writes-⨾ (Writes-write_uint 4 _ f.count)
          (Writes-last (Writes-write_transactions _ f.transactions)))))
