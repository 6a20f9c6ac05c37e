-- ===== src/Mempool/Placing.antt =====
-- The entry of a transfer into the pool (node/mempool.py) goes through.
use tal_cash.Base.{
  Bool-cases, Bytes, Option-cases, [], arith, bytes_eq_iff, false, inl, inr, none, ok, refl, some,
  sym, true, ℕ, ◌+◌, ◌==◌, ◌∙◌, ◌∷◌, ◌≡◌,
}
use tal_cash.Base.Dict.{
  bytes_Key, contains, contains-insert, get_or, insert, item-eq-ok, lookup, lookup-insert,
  lookup-remove, number_Key,
}
use tal_cash.Crypto.{Crypto}
use tal_cash.Mempool.{Mempool, MempoolEntry, Pending, max_key, pending_of}
use tal_cash.Mempool.Add.{note_receivers, place, put_entry, remove_replaced}
use tal_cash.Mempool.Adding.{IsAllowed, next_entry-IsPool, replacing-IsPool}
use tal_cash.Mempool.Evict.{
  candidate_of, is_empty, last_entry, last_nonce, receivers, trim_fuel, trim_to_size,
}
use tal_cash.Mempool.Heap.{
  Covers, last_entry-found, last_nonce-max, lookup-max_key, max_key-some, push_evictable-total,
  queued,
}
use tal_cash.Mempool.Indexed.{put_entry-Put}
use tal_cash.Mempool.Keeping.{IsPool}
use tal_cash.Mempool.LastEntry.{contains-is_empty, insert-AllWaiting}
use tal_cash.Mempool.Pool.{remove_entry-Removed}
use tal_cash.Mempool.Queue.{max_key-bounds, max_key-contains}
use tal_cash.Mempool.Receivers.{item-get_or, note_receivers-lookup, paying}
use tal_cash.Mempool.Removal.{IsWired, IsWired-but, last_entry-lookup, remove_entry-Withdrawn}
use tal_cash.Mempool.Trim.{trim_to_size-total}
use tal_cash.Tx.{sender}

-- An insertion below the last entry.
last_entry-insert :
    (n last : ℕ) (e : MempoolEntry) (p : Pending)
    → max_key (insert n e p) ≡ some last
    → (n == last) ≡ false
    → (last_entry (insert n e p) ≡ last_entry p) × (contains last p ≡ true)
last_entry-insert n last e p h other =
    let at = max_key-contains (insert n e p) last h in
    let at_p : contains last p ≡ true = ground (arith, contains-insert n last e p) in
    let (k, found) = max_key-some p (contains-is_empty last p at_p) in
    let same : k ≡ last = ground (
      arith,
      max_key-bounds p k last found,
      max_key-contains p k found,
      contains-insert n k e p,
      max_key-bounds (insert n e p) last k h,
    ) in
    let (f, there) = lookup-max_key p k found in
    (
      last_entry-found (insert n e p) last f h (ground (arith, lookup-insert n last e p))
          ∙ sym (last_entry-found p k f found there),
      at_p,
    )

insert-is_empty : (n : ℕ) (e : MempoolEntry) (p : Pending) → is_empty (insert n e p) ≡ false
insert-is_empty n e p = contains-is_empty n (insert n e p) (ground (arith, contains-insert n n e p))

module _ ⦃c : Crypto⦄ where
  abbrev pub indexed_with : MempoolEntry → Mempool → Mempool
  indexed_with e m = record m {
    by_id = insert e.txid e m.by_id;
    by_sender = insert (sender e.tx) (insert e.tx.nonce e (pending_of m (sender e.tx))) m.by_sender;
    by_receiver = note_receivers (receivers e.tx.outputs) e m.by_receiver;
  }

  paid_with :
      (e : MempoolEntry) (m : Mempool) (a id : Bytes)
      → IsWired m
      → lookup e.txid m.by_id ≡ none
      → lookup id (get_or [] a (note_receivers (receivers e.tx.outputs) e m.by_receiver))
        ≡ paying a id (insert e.txid e m.by_id)
  unfolding paying
  paid_with e m a id w new = ground (
    arith,
    note_receivers-lookup (receivers e.tx.outputs) e m.by_receiver a id,
    w.paid a id,
    lookup-insert e.txid id e m.by_id,
    bytes_eq_iff e.txid id,
  )

  -- The new entry is its sender's last.
  new_last-Covers :
      (e : MempoolEntry) (m : Mempool)
      → IsWired m
      → last_nonce (insert e.tx.nonce e (pending_of m (sender e.tx))) ≡ ok e.tx.nonce
      → Covers (candidate_of e ∷ m.evictable) (indexed_with e m).by_sender
  unfolding queued candidate_of
  new_last-Covers e m w is_last b p f found last =
      let pending = insert e.tx.nonce e (pending_of m (sender e.tx)) in
      let (n, e₁, at) = last_entry-lookup p f last in
      ground (
        arith,
        w.covers b p f,
        lookup-insert (sender e.tx) b pending m.by_sender,
        lookup-insert e.tx.nonce e.tx.nonce e (pending_of m (sender e.tx)),
        bytes_eq_iff e.txid f.txid,
      )

  -- It is not.
  old_last-Covers :
      (e : MempoolEntry) (m : Mempool) (k : ℕ)
      → IsWired m
      → max_key (insert e.tx.nonce e (pending_of m (sender e.tx))) ≡ some k
      → (e.tx.nonce == k) ≡ false
      → Covers m.evictable (indexed_with e m).by_sender
  unfolding pending_of
  old_last-Covers e m k w is_max other b p f found last =
      let a = sender e.tx in
      let pending = insert e.tx.nonce e (pending_of m a) in
      let (kept, at) = last_entry-insert e.tx.nonce k e (pending_of m a) is_max other in
      ground (
        arith,
        w.covers b p f,
        lookup-insert a b pending m.by_sender,
        w.covers a (pending_of m a) f,
        item-eq-ok a m.by_sender (pending_of m a) (item-get_or a k m.by_sender at),
        kept,
      )

  pub put_entry-total :
      (e : MempoolEntry) (m : Mempool)
      → IsWired m
      → lookup e.txid m.by_id ≡ none
      → (m' : Mempool) × (put_entry e m ≡ ok m') × IsWired m'
  unfolding put_entry
  put_entry-total e m w new =
      let pending = insert e.tx.nonce e (pending_of m (sender e.tx)) in
      let m₁ = indexed_with e m in
      let waiting₁ =
        insert-AllWaiting (sender e.tx) pending m.by_sender
          (insert-is_empty e.tx.nonce e (pending_of m (sender e.tx))) w.waiting in
      let (k, is_max) =
        max_key-some pending (insert-is_empty e.tx.nonce e (pending_of m (sender e.tx))) in
      let is_last = last_nonce-max pending k is_max in
      elim (Bool-cases (e.tx.nonce == k)) [
        | inl now ↦
            let (m₂, done, pushed) =
              push_evictable-total e m₁ waiting₁ (new_last-Covers e m w (ground arith)) in
            (
              record m₁ { evictable = m₂.evictable; bytes = m.bytes + e.size },
              rw (put_entry, is_last, now, done, pushed.rest) refl,
              record {
                waiting = waiting₁;
                covers = pushed.covers;
                paid = λ a id. paid_with e m a id w new;
              },
            )
        | inr other ↦ (
          record m₁ { bytes = m.bytes + e.size },
          rw (put_entry, is_last, other) refl,
          record {
            waiting = waiting₁;
            covers = old_last-Covers e m k w is_max other;
            paid = λ a id. paid_with e m a id w new;
          },
        )
      ]

  place_steps :
      (e : MempoolEntry) (m m₁ m₂ m' : Mempool)
      → remove_replaced e.tx m ≡ ok m₁
      → put_entry e m₁ ≡ ok m₂
      → trim_to_size (trim_fuel m₂) m₂ ≡ ok m'
      → place e m ≡ ok m'
  unfolding place
  place_steps e m m₁ m₂ m' removed put trimmed = rw (place, removed, put) trimmed

  pub place-total :
      (e : MempoolEntry) (m : Mempool)
      → IsPool m
      → IsWired m
      → IsAllowed e.tx e.size m
      → lookup e.txid m.by_id ≡ none
      → (m' : Mempool) × (place e m ≡ ok m') × IsWired m'
  unfolding remove_replaced trim_fuel
  place-total e m i w allowed new =
      elim (Option-cases (lookup e.tx.nonce (pending_of m (sender e.tx)))) [
        | inl free ↦
            let (m₂, put, w₂) = put_entry-total e m w new in
            let i₂ = next_entry-IsPool e m m₂ i allowed new free (put_entry-Put e m m₂ put) in
            let (m', trimmed, w') = trim_to_size-total (trim_fuel m₂) m₂ i₂ w₂ (omega arith) in
            (m', place_steps e m m m₂ m' (rw (remove_replaced, free) refl) put trimmed, w')
        | inr (old, found) ↦
            let (same_sender, same_nonce, known) =
              i.indexed.by_sender (sender e.tx) e.tx.nonce old found in
            let (m₁, out) = remove_entry-Withdrawn old m i.indexed (IsWired-but old m w) known in
            let r = remove_entry-Removed old m m₁ out.done in
            let (m₂, put, w₂) =
              put_entry-total e m₁ out.wired
                (ground (arith, r.by_id, lookup-remove old.txid e.txid m.by_id)) in
            let i₂ =
              replacing-IsPool e old m m₁ m₂ i allowed new found r (put_entry-Put e m₁ m₂ put) in
            let (m', trimmed, w') = trim_to_size-total (trim_fuel m₂) m₂ i₂ w₂ (omega arith) in
            (m', place_steps e m m₁ m₂ m' (rw (remove_replaced, found) out.done) put trimmed, w')
      ]
