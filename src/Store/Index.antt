-- ===== src/Store/Index.antt =====
-- The transaction and address indexes of node/store.py.
use tal_cash.Base.{
  Bool, Bytes, List, Option, Result, [], bind, bytes_eq, false, if◌then◌else◌, integrity_error, leb,
  ltb, none, ok, raise_if, some, take, true, ℕ, ◌&&◌, ◌++◌, ◌+◌, ◌==◌, ◌||◌, ◌∷◌, ◌⨟◌,
}
use tal_cash.Base.Dict.{Dict, bytes_Key, lookup, number_Key, pair_Key}
use tal_cash.Block.{Block, block_id, member}
use tal_cash.Crypto.{Crypto}
use tal_cash.Mempool.Evict.{receivers}
use tal_cash.Store.{AddressRow, Store, TxLocation, insert_row}
use tal_cash.Tx.{Transaction, coinbase, sender, transfer, txid}

-- `_addresses_of`: a set, as the list of its members.
unfoldable pub addresses_of : ⦃c : Crypto⦄ → Transaction → List Bytes
addresses_of (coinbase t) = t.address ∷ []
addresses_of (transfer t) =
    let paid = receivers t.outputs in if member (sender t) paid then paid else sender t ∷ paid

-- The primary key `(address, height, position)`.
unfoldable pub has_row : Bytes → ℕ → ℕ → List AddressRow → Bool
has_row address height position [] = false
has_row address height position (r ∷ rows) =
    let rest = has_row address height position rows in
    (bytes_eq r.address address && r.height == height && r.position == position) || rest

unfoldable pub index_addresses :
    List Bytes → ℕ → ℕ → Bytes → List AddressRow → Result (List AddressRow)
index_addresses [] height position id rows = ok rows
index_addresses (a ∷ others) height position id rows =
    raise_if (has_row a height position rows) integrity_error
    ⨟ index_addresses others height position id
        (rows ++ (record { address = a; height = height; position = position; id = id }) ∷ [])

module _ ⦃c : Crypto⦄ where
  -- The loop of `index_block` from a position on.
  unfoldable pub index_transactions : List Transaction → ℕ → Bytes → ℕ → Store → Result Store
  index_transactions [] position block height s = ok s
  index_transactions (tx ∷ txs) position block height s = bind (txid tx) λ id.
      let place : TxLocation = record { block_id = block; height = height; position = position } in
      bind (insert_row id place s.tx_index) λ d.
        bind (index_addresses (addresses_of tx) height position id s.address_index) λ rows.
          index_transactions txs (position + 1) block height
            (record s { tx_index = d; address_index = rows })

  unfoldable pub index_block : Block → Store → Result Store
  index_block b s =
      bind (block_id b.header) λ id. index_transactions b.transactions 0 id b.header.height s

-- `DELETE FROM tx_index WHERE height = ?`
unfoldable pub without_height : ℕ → Dict TxLocation → Dict TxLocation
without_height height [] = []
without_height height ((id, t) ∷ d) =
    let rest = without_height height d in if t.height == height then rest else (id, t) ∷ rest

unfoldable pub rows_without : ℕ → List AddressRow → List AddressRow
rows_without height [] = []
rows_without height (r ∷ rows) =
    let rest = rows_without height rows in if r.height == height then rest else r ∷ rest

unfoldable pub unindex_block : Block → Store → Store
unindex_block b s = record s {
  tx_index = without_height b.header.height s.tx_index;
  address_index = rows_without b.header.height s.address_index;
}

unfoldable pub find_tx : Bytes → Store → Option TxLocation
find_tx id s = lookup id s.tx_index

unfoldable pub coinbase_rows : Bytes → ℕ → List AddressRow → List ℕ
coinbase_rows address above [] = []
coinbase_rows address above (r ∷ rows) =
    let rest = coinbase_rows address above rows in
    if bytes_eq r.address address && r.position == 0 && ltb above r.height
    then r.height ∷ rest
    else rest

unfoldable pub coinbase_heights : Bytes → ℕ → Store → List ℕ
coinbase_heights address above s = coinbase_rows address above s.address_index

-- The rows of an address before a place, if one is given.
unfoldable pub is_before : ℕ → ℕ → Option (ℕ × ℕ) → Bool
is_before height position none = true
is_before height position (some (h, p)) = ltb height h || (height == h && ltb position p)

-- `ORDER BY height DESC, position DESC`
unfoldable pub insert_newest_row : AddressRow → List AddressRow → List AddressRow
insert_newest_row r [] = r ∷ []
insert_newest_row r (q ∷ rows) =
    if ltb q.height r.height || (q.height == r.height && leb q.position r.position)
    then r ∷ q ∷ rows
    else q ∷ insert_newest_row r rows

unfoldable pub history_rows : Bytes → Option (ℕ × ℕ) → List AddressRow → List AddressRow
history_rows address before [] = []
history_rows address before (r ∷ rows) =
    let rest = history_rows address before rows in
    if bytes_eq r.address address && is_before r.height r.position before
    then insert_newest_row r rest
    else rest

unfoldable pub address_history : Bytes → ℕ → Option (ℕ × ℕ) → Store → List AddressRow
address_history address limit before s = take limit (history_rows address before s.address_index)
