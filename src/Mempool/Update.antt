-- ===== src/Mempool/Update.antt =====
-- `Mempool.update` and `expire` (node/mempool.py).
use tal_cash.Base.{
  Bool, Bytes, List, Result, [], bind, bytes_eq, drop, err, if◌then◌else◌, leb, length, ltb, map,
  ok, validation, ℕ, ◌++◌, ◌+◌, ◌-◌, ◌||◌, ◌∷◌,
}
use tal_cash.Base.Dict.{Table, bytes_Key, contains, number_Key}
use tal_cash.Block.{Block, member, txids}
use tal_cash.Crypto.{Crypto}
use tal_cash.Mempool.{Mempool, MempoolEntry, pending_for}
use tal_cash.Mempool.Add.{Added, insert_checked}
use tal_cash.Mempool.Evict.{remove_entry}
use tal_cash.Snapshot.{bytes_le}
use tal_cash.Tx.{Transaction, Transfer, coinbase, sender, transfer, txid}

-- A transfer that asks to come (back) in, and when it came.
pub record Waiting : Type 0 where
  pub tx : Transfer
  pub added : ℕ

-- `list[1:]`, of transfers only.
unfoldable pub transfers_of : List Transaction → List Transfer
transfers_of [] = []
transfers_of (coinbase _ ∷ txs) = transfers_of txs
transfers_of (transfer t ∷ txs) = t ∷ transfers_of txs

unfoldable pub block_transfers : List Block → List Transfer
block_transfers [] = []
block_transfers (b ∷ bs) = transfers_of (drop 1 b.transactions) ++ block_transfers bs

unfoldable pub all_transactions : List Block → List Transaction
all_transactions [] = []
all_transactions (b ∷ bs) = b.transactions ++ all_transactions bs

-- The keys of a dict.
unfoldable pub keys {ℓ} : {V : Type ℓ} {K : Type 0} → Table K V → List K
keys [] = []
keys ((k, v) ∷ d) = k ∷ keys d

-- A set, as the list of its first occurrences from the right.
unfoldable pub distinct : List Bytes → List Bytes
distinct [] = []
distinct (a ∷ rest) = let others = distinct rest in if member a others then others else a ∷ others

-- The order of `(item[0].sender, item[0].nonce)`.
unfoldable pub waiting_le : Bytes → ℕ → Bytes → ℕ → Bool
waiting_le a n b k = if bytes_eq a b then leb n k else bytes_le a b

module _ ⦃c : Crypto⦄ where
  unfoldable pub insert_waiting : Waiting → List Waiting → List Waiting
  insert_waiting w [] = w ∷ []
  insert_waiting w (v ∷ vs) =
      if waiting_le (sender w.tx) w.tx.nonce (sender v.tx) v.tx.nonce
      then w ∷ v ∷ vs
      else v ∷ insert_waiting w vs

  unfoldable pub sort_waiting : List Waiting → List Waiting
  sort_waiting [] = []
  sort_waiting (w ∷ ws) = insert_waiting w (sort_waiting ws)

  -- The transfers of undone blocks that the new blocks do not hold.
  unfoldable pub returning : List Bytes → List Transfer → Result (List Transfer)
  returning confirmed [] = ok []
  returning confirmed (t ∷ ts) = bind (txid (transfer t)) λ id.
      bind (returning confirmed ts) λ rest. ok (if member id confirmed then rest else t ∷ rest)

  unfoldable pub senders_of : List Transfer → List Bytes
  senders_of ts = map sender ts

  -- The senders to recheck; the order of a Python set does not matter, since the candidates are sorted.
  unfoldable pub affected : List Block → List Block → List Transfer → Mempool → List Bytes
  affected connected [] back m = distinct (senders_of (block_transfers connected))
  affected connected (_ ∷ _) back m = distinct (keys m.by_sender ++ senders_of back)

  -- `candidates.append((entry.tx, entry.added)); self._remove(entry)` for each entry
  unfoldable pub withdraw_all :
      List MempoolEntry → List Waiting → Mempool → Result (List Waiting × Mempool)
  withdraw_all [] ws m = ok (ws, m)
  withdraw_all (e ∷ es) ws m =
      bind (remove_entry e m) (withdraw_all es (ws ++ (record { tx = e.tx; added = e.added }) ∷ []))

  unfoldable pub withdraw_senders :
      List Bytes → List Waiting → Mempool → Result (List Waiting × Mempool)
  withdraw_senders [] ws m = ok (ws, m)
  withdraw_senders (a ∷ others) ws m =
      bind (withdraw_all (pending_for m a) ws m) λ (ws', m'). withdraw_senders others ws' m'

  -- The pool after an `_insert` whose `ValidationError` is caught; other errors are raised.
  unfoldable pub settle : Added → Result Mempool
  settle o = elim o.result [
    | ok _ ↦ ok o.pool
    | err e ↦ elim e [ validation _ ↦ ok o.pool | other ↦ err other ]
  ]

  -- The last loop of `update`.
  unfoldable pub reinsert : List Bytes → List Waiting → Mempool → Result Mempool
  reinsert confirmed [] m = ok m
  reinsert confirmed (w ∷ ws) m = bind (txid (transfer w.tx)) λ id.
      let tried : Result Mempool =
        if member id confirmed || contains id m.by_id
        then ok m
        else settle (insert_checked w.tx w.added m) in
      bind tried (reinsert confirmed ws)

  -- `[tx for tx in returning if tx.txid in self._by_id]`
  unfoldable pub still_waiting : List Transfer → Mempool → Result (List Transfer)
  still_waiting [] m = ok []
  still_waiting (t ∷ ts) m =
      bind (txid (transfer t))
        λ id. bind (still_waiting ts m) λ rest. ok (if contains id m.by_id then t ∷ rest else rest)

  unfoldable pub update : List Block → List Block → ℕ → Mempool → Result (List Transfer × Mempool)
  update connected disconnected now m = bind (txids (all_transactions connected)) λ confirmed.
      bind (returning confirmed (block_transfers disconnected)) λ back.
        let fresh = map (λ t. record { tx = t; added = now }) back in
        bind (withdraw_senders (affected connected disconnected back m) fresh m) λ (ws, m₁).
          bind (reinsert confirmed (sort_waiting ws) m₁)
            λ m₂. bind (still_waiting back m₂) λ again. ok (again, m₂)

  -- The entries from the first one on that came before `cutoff`.
  unfoldable pub from_first_old : ℕ → List MempoolEntry → List MempoolEntry
  from_first_old cutoff [] = []
  from_first_old cutoff (e ∷ es) =
      let rest = from_first_old cutoff es in if ltb e.added cutoff then e ∷ es else rest

  unfoldable pub remove_all : List MempoolEntry → Mempool → Result Mempool
  remove_all [] m = ok m
  remove_all (e ∷ es) m = bind (remove_entry e m) (remove_all es)

  unfoldable pub expire_senders : ℕ → List Bytes → ℕ → Mempool → Result (ℕ × Mempool)
  expire_senders cutoff [] removed m = ok (removed, m)
  expire_senders cutoff (a ∷ others) removed m =
      let old = from_first_old cutoff (pending_for m a) in
      bind (remove_all old m) (expire_senders cutoff others (removed + length old))

  -- `expire`; before the clock reaches `expiry` nothing is old.
  unfoldable pub expire : ℕ → Mempool → Result (ℕ × Mempool)
  expire now m = expire_senders (now - m.expiry) (keys m.by_sender) 0 m
