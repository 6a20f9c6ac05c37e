-- ===== src/Mempool/Sound.antt =====
-- `Mempool.add` and `_insert` (node/mempool.py) never fail on the way, and keep the pool sound.
use tal_cash.Base.{
  Bool-cases, Bytes, Error, Result-cases, arith, err, false, if◌then◌else◌, inl, inr, length, max,
  mempool_full, ok, refl, subst, sym, validation, ℕ, ◌≡◌, ◌≤◌, ◌⊎◌,
}
use tal_cash.Base.Dict.{bytes_Key, contains, contains-none, get_or, lookup, number_Key, sum_by}
use tal_cash.Crypto.{Crypto, sha256}
use tal_cash.Encoding.{written}
use tal_cash.Mempool.{Mempool, MempoolEntry, new_mempool, pending_of}
use tal_cash.Mempool.Add.{Added, add, check_policy, insert_checked, insert_transfer, place, refuse}
use tal_cash.Mempool.Adding.{check_policy-IsAllowed, place-IsPool}
use tal_cash.Mempool.Keeping.{IsPool}
use tal_cash.Mempool.Placing.{place-total}
use tal_cash.Mempool.Pool.{SameLimits}
use tal_cash.Mempool.Queue.{IsQueue-empty}
use tal_cash.Mempool.Receivers.{paying}
use tal_cash.Mempool.Removal.{IsWired}
use tal_cash.Params.{NetworkParams}
use tal_cash.State.{StateView}
use tal_cash.Tx.{
  Transaction, Transfer, check_transaction, coinbase, serialize, size, transfer, txid,
}

module _ ⦃c : Crypto⦄ where
  -- All that holds of the pool between two operations.
  pub record IsSound (m : Mempool) : Type 0 where
    pub pool : IsPool m
    pub wired : IsWired m
    pub fits : m.bytes ≤ m.max_bytes

  pub record IsSettled (entry : MempoolEntry) (m : Mempool) (out : Added) : Type 0 where
    pub sound : IsSound out.pool
    pub limits : SameLimits m out.pool
    pub result :
        out.result
        ≡ (if contains entry.txid out.pool.by_id then ok entry else err (validation mempool_full))

  abbrev last_step : MempoolEntry → Mempool → Added
  last_step entry m' =
      if contains entry.txid m'.by_id
      then record { result = ok entry; pool = m' }
      else refuse m' (validation mempool_full)

  last_step-IsSettled :
      (entry : MempoolEntry) (m m' : Mempool)
      → IsSound m'
      → SameLimits m m'
      → IsSettled entry m (last_step entry m')
  last_step-IsSettled entry m m' s limits = elim (Bool-cases (contains entry.txid m'.by_id)) [
    | inl kept ↦ rw kept (record { sound = s; limits = limits; result = rw kept refl })
    | inr gone ↦ rw gone (record { sound = s; limits = limits; result = rw gone refl })
  ]

  insert_transfer-last :
      (tx : Transfer) (id : Bytes) (size added : ℕ) (m m' : Mempool) (u : Unit {0})
      → check_policy tx size m ≡ ok u
      → place (record { tx = tx; txid = id; size = size; added = added }) m ≡ ok m'
      → insert_transfer tx id size added m
        ≡ last_step (record { tx = tx; txid = id; size = size; added = added }) m'
  unfolding insert_transfer
  insert_transfer-last tx id size added m m' u allowed done =
      rw (insert_transfer, allowed, done) refl

  -- If a pool is sound, does not know the id and the policy checks pass, insert_transfer leaves a
  -- sound pool with the same parameters, state, limits, least fee and expiry, and returns the entry
  -- if the pool holds the id then and mempool-full otherwise: no lookup, heap operation or loop in
  -- between fails.
  pub insert_transfer-IsSettled :
      (tx : Transfer) (id : Bytes) (size added : ℕ) (m : Mempool) (u : Unit {0})
      → IsSound m
      → contains id m.by_id ≡ false
      → check_policy tx size m ≡ ok u
      → IsSettled
          (record { tx = tx; txid = id; size = size; added = added })
          m
          (insert_transfer tx id size added m)
  insert_transfer-IsSettled tx id size added m u s new allowed =
      let entry : MempoolEntry = record { tx = tx; txid = id; size = size; added = added } in
      let policy = check_policy-IsAllowed tx size m u allowed in
      let unknown = contains-none id m.by_id new in
      let (m', done, w') = place-total entry m s.pool s.wired policy unknown in
      let (i', limits, fits) = place-IsPool entry m m' s.pool policy unknown done in
      subst (IsSettled entry m) (sym (insert_transfer-last tx id size added m m' u allowed done))
        (last_step-IsSettled entry m m' (record { pool = i'; wired = w'; fits = fits }) limits)

  insert_transfer-IsSound :
      (tx : Transfer) (id : Bytes) (size added : ℕ) (m : Mempool)
      → IsSound m
      → contains id m.by_id ≡ false
      → IsSound (insert_transfer tx id size added m).pool
  unfolding insert_transfer
  insert_transfer-IsSound tx id size added m s new = elim (Result-cases (check_policy tx size m)) [
    | inl (u, allowed) ↦ (insert_transfer-IsSettled tx id size added m u s new allowed).sound
    | inr (e, refused) ↦ rw (insert_transfer, refused) s
  ]

  -- If a pool is sound, it is sound after add, whatever add returns: the entries by id and by
  -- sender agree, the sizes add up and fit the limit, each sender's nonces follow on from its
  -- account's without a gap and its balance covers them, each sender's last transfer is in the
  -- eviction heap, and the dict by receiver holds what pays each address.
  pub add-IsSound :
      (tx : Transaction) (now : ℕ) (m : Mempool) → IsSound m → IsSound (add tx now m).pool
  unfolding add insert_checked txid
  add-IsSound (coinbase t) now m s = s
  add-IsSound (transfer t) now m s = elim (Result-cases (serialize (transfer t))) [
    | inr (e, broken) ↦ rw (add, txid, broken) s
    | inl (octets, written) ↦ elim (Bool-cases (contains (sha256 octets) m.by_id)) [
      | inl known ↦ rw (add, txid, written, known) s
      | inr new ↦ elim (Result-cases (check_transaction (transfer t) m.params)) [
        | inr (e, refused) ↦ rw (add, txid, written, new, refused) s
        | inl (u, valid) ↦
            rw (add, txid, written, new, valid, insert_checked, written)
              (insert_transfer-IsSound t (sha256 octets) (length octets) now m s new)
      ]
    ]
  ]

  -- An empty pool is sound.
  pub new_mempool-IsSound :
      (params : NetworkParams) (state : StateView) (fee max per expiry : ℕ)
      → IsSound (new_mempool params state fee max per expiry)
  unfolding new_mempool pending_of lookup get_or sum_by paying
  new_mempool-IsSound params state fee max per expiry = record {
    pool = record {
      indexed = record { dict = tt; sizes = refl; by_id = λ id e h. cc; by_sender = λ a n e h. cc };
      queues = λ a. IsQueue-empty (state a);
    };
    wired = record { waiting = tt; covers = λ a p e found last. cc; paid = λ a id. refl };
    fits = omega arith;
  }

  settled_refused :
      (entry : MempoolEntry) (m : Mempool) (out : Added) (e : Error)
      → IsSettled entry m out
      → out.result ≡ err e
      → e ≡ validation mempool_full
  settled_refused entry m out e s h = ground (arith, s.result)

  insert_transfer-unchanged :
      (tx : Transfer) (id : Bytes) (size added : ℕ) (m : Mempool) (e : Error)
      → IsSound m
      → contains id m.by_id ≡ false
      → (insert_transfer tx id size added m).result ≡ err e
      → (e ≡ validation mempool_full) ⊎ ((insert_transfer tx id size added m).pool ≡ m)
  unfolding insert_transfer
  insert_transfer-unchanged tx id size added m e s new h =
      elim (Result-cases (check_policy tx size m)) [
        | inl (u, allowed) ↦
            let settled = insert_transfer-IsSettled tx id size added m u s new allowed in
            inl (settled_refused _ m (insert_transfer tx id size added m) e settled h)
        | inr (e', refused) ↦ inr (rw (insert_transfer, refused) refl)
      ]

  -- If add refuses a transaction over a sound pool, the error is mempool-full or the pool is as it
  -- was.
  pub add-unchanged :
      (tx : Transaction) (now : ℕ) (m : Mempool) (e : Error)
      → IsSound m
      → (add tx now m).result ≡ err e
      → (e ≡ validation mempool_full) ⊎ ((add tx now m).pool ≡ m)
  unfolding add insert_checked txid
  add-unchanged (coinbase t) now m e s h = inr refl
  add-unchanged (transfer t) now m e s h = elim (Result-cases (serialize (transfer t))) [
    | inr (e', broken) ↦ inr (rw (add, txid, broken) refl)
    | inl (octets, written) ↦ elim (Bool-cases (contains (sha256 octets) m.by_id)) [
      | inl known ↦ inr (rw (add, txid, written, known) refl)
      | inr new ↦ elim (Result-cases (check_transaction (transfer t) m.params)) [
        | inr (e', refused) ↦ inr (rw (add, txid, written, new, refused) refl)
        | inl (u, valid) ↦
            rw (add, txid, written, new, valid, insert_checked, written)
              (insert_transfer-unchanged t (sha256 octets) (length octets) now m e s new
                (rw (add, txid, written, new, valid, insert_checked, written) at h))
      ]
    ]
  ]
