-- ===== src/Mempool/Add.antt =====
-- `Mempool.add` and `_insert` (node/mempool.py). A refusal can leave a changed pool, so an operation
-- returns its result and the pool after it.
use tal_cash.Base.{
  Bytes, Error, List, Result, [], already_known, bind, err, fee_too_low, if◌then◌else◌,
  insufficient_funds, leb, length, ltb, mempool_full, nonce_gap, nonce_too_low, none, not,
  not_a_transfer, ok, raise_if, replacement_fee_too_low, some, too_many_pending, validation, ℕ, ◌*◌,
  ◌+◌, ◌==◌, ◌||◌, ◌∷◌, ◌⨟◌,
}
use tal_cash.Base.Dict.{Dict, bytes_Key, contains, get_or, insert, lookup, number_Key}
use tal_cash.Crypto.{Crypto, sha256}
use tal_cash.Mempool.{Mempool, MempoolEntry, Pending, pending_of}
use tal_cash.Mempool.Evict.{
  last_nonce, push_evictable, receivers, remove_entry, trim_fuel, trim_to_size,
}
use tal_cash.State.{Account}
use tal_cash.Tx.{
  Transaction, Transfer, check_transaction, coinbase, sender, serialize, size, total_spent,
  transfer, txid,
}

pub record Added : Type 0 where
  pub result : Result MempoolEntry
  pub pool : Mempool

abbrev pub refuse : Mempool → Error → Added
refuse m e = record { result = err e; pool = m }

-- The checks on the nonce and on what is replaced.
unfoldable pub check_nonce : Transfer → ℕ → Mempool → Account → Pending → Result (Unit {0})
check_nonce tx size m account pending = elim (lookup tx.nonce pending) [
  | none ↦
      raise_if (not (tx.nonce == account.nonce + length pending)) (validation nonce_gap)
      ⨟ raise_if (leb m.max_per_sender (length pending)) (validation too_many_pending)
  | some replaced ↦
      raise_if
        (leb tx.fee replaced.tx.fee
          || ltb (tx.fee * replaced.size * 4) (replaced.tx.fee * size * 5))
        (validation replacement_fee_too_low)
]

-- What the sender's other waiting transfers spend.
unfoldable pub spent_besides : ℕ → Pending → ℕ
spent_besides nonce [] = 0
spent_besides nonce ((n, e) ∷ p) =
    (if n == nonce then 0 else total_spent e.tx) + spent_besides nonce p

-- `self._by_receiver.setdefault(address, {})[tx.txid] = entry` for each receiver
unfoldable pub note_receivers :
    List Bytes → MempoolEntry → Dict (Dict MempoolEntry) → Dict (Dict MempoolEntry)
note_receivers [] e d = d
note_receivers (a ∷ others) e d =
    let incoming = get_or [] a d in note_receivers others e (insert a (insert e.txid e incoming) d)

module _ ⦃c : Crypto⦄ where
  -- The policy checks of `_insert`.
  unfoldable pub check_policy : Transfer → ℕ → Mempool → Result (Unit {0})
  check_policy tx size m =
      let account = m.state (sender tx) in
      let pending = pending_of m (sender tx) in
      raise_if (ltb tx.fee (m.min_fee_per_byte * size)) (validation fee_too_low)
      ⨟ raise_if (ltb tx.nonce account.nonce) (validation nonce_too_low)
      ⨟ check_nonce tx size m account pending
      ⨟ raise_if (ltb account.balance (total_spent tx + spent_besides tx.nonce pending))
          (validation insufficient_funds)

  -- `if replaced is not None: self._remove(replaced)`
  unfoldable pub remove_replaced : Transfer → Mempool → Result Mempool
  remove_replaced tx m = elim (lookup tx.nonce (pending_of m (sender tx))) [
    | none ↦ ok m
    | some replaced ↦ remove_entry replaced m
  ]

  -- The entry into the three dicts and the heap.
  unfoldable pub put_entry : MempoolEntry → Mempool → Result Mempool
  put_entry e m =
      let pending = insert e.tx.nonce e (pending_of m (sender e.tx)) in
      let indexed = record m {
        by_id = insert e.txid e m.by_id;
        by_sender = insert (sender e.tx) pending m.by_sender;
        by_receiver = note_receivers (receivers e.tx.outputs) e m.by_receiver;
      } in
      bind (last_nonce pending) λ last.
        bind (if e.tx.nonce == last then push_evictable e indexed else ok indexed)
          λ m'. ok (record m' { bytes = m'.bytes + e.size })

  -- `_insert` from the removal of the replaced entry to the trim.
  unfoldable pub place : MempoolEntry → Mempool → Result Mempool
  place e m =
      bind (remove_replaced e.tx m) λ m₁. bind (put_entry e m₁) λ m₂. trim_to_size (trim_fuel m₂) m₂

  unfoldable pub insert_transfer : Transfer → Bytes → ℕ → ℕ → Mempool → Added
  insert_transfer tx id size added m =
      let entry : MempoolEntry = record { tx = tx; txid = id; size = size; added = added } in
      elim (check_policy tx size m) [
        | err e ↦ refuse m e
        | ok _ ↦ elim (place entry m) [
          | err e ↦ refuse m e
          | ok m' ↦
              if contains id m'.by_id
              then record { result = ok entry; pool = m' }
              else refuse m' (validation mempool_full)
        ]
      ]

  -- `_insert`, from `tx.size` and `tx.txid` on.
  unfoldable pub insert_checked : Transfer → ℕ → Mempool → Added
  insert_checked tx added m = elim (serialize (transfer tx)) [
    | err e ↦ refuse m e
    | ok octets ↦ insert_transfer tx (sha256 octets) (length octets) added m
  ]

  -- `add`
  unfoldable pub add : Transaction → ℕ → Mempool → Added
  add (coinbase _) now m = refuse m (validation not_a_transfer)
  add (transfer tx) now m = elim (txid (transfer tx)) [
    | err e ↦ refuse m e
    | ok id ↦
        if contains id m.by_id
        then refuse m (validation already_known)
        else elim (check_transaction (transfer tx) m.params) [
          | err e ↦ refuse m e
          | ok _ ↦ insert_checked tx now m
        ]
  ]
