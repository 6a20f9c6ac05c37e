-- ===== src/Block/RoundTrip.antt =====
-- Reading and writing headers and blocks (core/block.py) are inverse to one another, both ways.
use tal_cash.Base.{
  All, Bytes, IsBytes, List, [], ap, append-nil, length, ok, refl, subst, suc, sym, zero, ℕ, ◌↔◌,
  ◌∙◌, ◌∷◌, ◌≡◌,
}
use tal_cash.Block.{
  Block, BlockHeader, block_from_bytes, header_from_bytes, read_block, read_header,
  read_transactions, serialize_block, serialize_header,
}
use tal_cash.Block.Layout.{
  FitsBlock, FitsHeader, block_layout, header_layout, serialize_block_layout,
  serialize_header_layout, transactions_layout,
}
use tal_cash.Encoding.{read_all, read_u32}
use tal_cash.Encoding.Reads.{
  Reads, Reads-bind, Reads-pure, Reads-read_all, Reads-read_uint, Reads-take_bytes,
}
use tal_cash.Encoding.Sound.{
  Sound, Sound-bind, Sound-pure, Sound-read_all, Sound-read_uint, Sound-take_bytes,
}
use tal_cash.Tx.{Transaction, read_transaction}
use tal_cash.Tx.Layout.{Fits}
use tal_cash.Tx.RoundTrip.{Reads-read_transaction, Sound-read_transaction}

Reads-read_header : (h : BlockHeader) → FitsHeader h → Reads read_header (header_layout h) h
unfolding read_header
Reads-read_header h f = Reads-bind _ (Reads-read_uint 4 _ f.version) (
    Reads-bind _ (Reads-read_uint 8 _ f.height) (
      Reads-bind _ (Reads-take_bytes _ _ f.prev_id) (
        Reads-bind _ (Reads-take_bytes _ _ f.merkle_root) (
          Reads-bind _ (Reads-take_bytes _ _ f.snapshot_root) (
            Reads-bind _ (Reads-read_uint 8 _ f.timestamp) (
              Reads-bind _ (Reads-read_uint 32 _ f.target)
                (Reads-bind _ (Reads-read_uint 8 _ f.nonce) (Reads-pure h))))))))

abbrev IsHeaderPrint : BlockHeader → Bytes → Type 0
IsHeaderPrint h used = (used ≡ header_layout h) × FitsHeader h

Sound-read_header : Sound read_header IsHeaderPrint
unfolding read_header
Sound-read_header = Sound-bind _ _ (Sound-read_uint 4) λ version u₁ (p₁, version_fits).
    Sound-bind _ _ (Sound-read_uint 8) λ height u₂ (p₂, height_fits).
      Sound-bind _ _ (Sound-take_bytes 32) λ prev_id u₃ (p₃, prev_size, prev_bytes).
        Sound-bind _ _ (Sound-take_bytes 32) λ merkle_root u₄ (p₄, merkle_size, merkle_bytes).
          Sound-bind _ _ (Sound-take_bytes 32)
            λ snapshot_root u₅ (p₅, snapshot_size, snapshot_bytes).
              Sound-bind _ _ (Sound-read_uint 8) λ timestamp u₆ (p₆, timestamp_fits).
                Sound-bind _ _ (Sound-read_uint 32) λ target u₇ (p₇, target_fits).
                  Sound-bind _ _ (Sound-read_uint 8) λ nonce u₈ (p₈, nonce_fits). Sound-pure _ (
                    rw (p₁, p₂, p₃, p₄, p₅, p₆, p₇, p₈) refl,
                    record {
                      version = version_fits;
                      height = height_fits;
                      prev_id = prev_size;
                      merkle_root = merkle_size;
                      snapshot_root = snapshot_size;
                      timestamp = timestamp_fits;
                      target = target_fits;
                      nonce = nonce_fits;
                      prev_bytes = prev_bytes;
                      merkle_bytes = merkle_bytes;
                      snapshot_bytes = snapshot_bytes;
                    },
                  )

-- header_from_bytes reads a list of bytes as the header h exactly when h serializes to those bytes
-- and its fields fit their widths.
pub header_from_bytes_iff :
    (octets : Bytes) (h : BlockHeader)
    → IsBytes octets
    → (header_from_bytes octets ≡ ok h) ↔ ((serialize_header h ≡ ok octets) × FitsHeader h)
unfolding header_from_bytes
header_from_bytes_iff octets h valid = (
  λ e.
      let (same, fits) = Sound-read_all octets h Sound-read_header valid e in
      (serialize_header_layout h fits ∙ ap ok (sym same), fits),
  λ (e, fits).
      let same : header_layout h ≡ octets = cc (serialize_header_layout h fits) in
      subst (λ bs. read_all read_header bs ≡ ok h) same (Reads-read_all (Reads-read_header h fits)),
)

Reads-read_transactions :
    (txs : List Transaction)
    → All Fits txs
    → Reads (read_transactions (length txs)) (transactions_layout txs) txs
unfolding read_transactions
Reads-read_transactions [] h = Reads-pure []
Reads-read_transactions (tx ∷ txs) (h, hs) =
    subst (λ bs. Reads (read_transactions (length (tx ∷ txs))) bs (tx ∷ txs)) (simp append-nil)
      (Reads-bind _ (Reads-read_transaction tx h)
        (Reads-bind _ (Reads-read_transactions txs hs) (Reads-pure (tx ∷ txs))))

Reads-read_block : (b : Block) → FitsBlock b → Reads read_block (block_layout b) b
unfolding read_block
Reads-read_block b f = Reads-bind _ (Reads-read_header b.header f.header) (
    Reads-bind _ (Reads-read_uint 4 _ f.count)
      (Reads-bind _ (Reads-read_transactions _ f.transactions) (Reads-pure b)))

Sound-read_transactions :
    (n : ℕ)
    → Sound
        (read_transactions n)
        (λ txs used. (used ≡ transactions_layout txs) × (length txs ≡ n) × All Fits txs)
unfolding read_transactions
Sound-read_transactions zero = Sound-pure [] (refl, refl, tt)
Sound-read_transactions (suc n) =
    Sound-bind read_transaction _ Sound-read_transaction λ tx u (p, fits).
      Sound-bind (read_transactions n) _ (Sound-read_transactions n) λ txs w (q, len, all).
        Sound-pure (tx ∷ txs) (rw (p, q) (simp append-nil), ap suc len, (fits, all))

abbrev IsBlockPrint : Block → Bytes → Type 0
IsBlockPrint b used = (used ≡ block_layout b) × FitsBlock b

Sound-read_block : Sound read_block IsBlockPrint
unfolding read_block
Sound-read_block = Sound-bind read_header _ Sound-read_header λ header u₁ (p₁, header_fits).
    Sound-bind read_u32 _ (Sound-read_uint 4) λ count u₂ (p₂, count_fits).
      Sound-bind (read_transactions count) _ (Sound-read_transactions count)
        λ txs u₃ (p₃, len, all). Sound-pure _ (
          rw (p₁, p₂, p₃, len) refl,
          record { header = header_fits; count = rw len count_fits; transactions = all },
        )

-- block_from_bytes reads a list of bytes as the block b exactly when b serializes to those bytes
-- and its header, its number of transactions and every transaction fit their widths.
pub block_from_bytes_iff :
    (octets : Bytes) (b : Block)
    → IsBytes octets
    → (block_from_bytes octets ≡ ok b) ↔ ((serialize_block b ≡ ok octets) × FitsBlock b)
unfolding block_from_bytes
block_from_bytes_iff octets b valid = (
  λ e.
      let (same, fits) = Sound-read_all octets b Sound-read_block valid e in
      (serialize_block_layout b fits ∙ ap ok (sym same), fits),
  λ (e, fits).
      let same : block_layout b ≡ octets = cc (serialize_block_layout b fits) in
      subst (λ bs. read_all read_block bs ≡ ok b) same (Reads-read_all (Reads-read_block b fits)),
)
