-- ===== src/Mempool/Adding.antt =====
-- The invariant of the pool (node/mempool.py) through `add`.
use tal_cash.Base.{
  Bytes, Option-cases, arith, bind-eq-ok, bytes_eq, bytes_eq_iff, if◌then◌else◌, inl, inr, length,
  none, ok, some, subst, sym, ℕ, ◌*◌, ◌+◌, ◌<◌, ◌≡◌, ◌≤◌,
}
use tal_cash.Base.Dict.{bytes_Key, insert, lookup, lookup-remove, number_Key, remove}
use tal_cash.Crypto.{Crypto}
use tal_cash.Mempool.{Mempool, MempoolEntry, next_nonce, pending_of}
use tal_cash.Mempool.Add.{
  check_nonce, check_policy, place, put_entry, remove_replaced, spent_besides,
}
use tal_cash.Mempool.Evict.{trim_fuel}
use tal_cash.Mempool.Indexed.{Put, Put-IsIndexed, Removed-IsIndexed, put_entry-Put}
use tal_cash.Mempool.Keeping.{IsPool, IsQueue-change, trim_to_size-IsPool}
use tal_cash.Mempool.Pool.{
  Removed, SameLimits, SameLimits-refl, SameLimits-trans, remove_entry-Removed,
}
use tal_cash.Mempool.Queue.{IsQueue-put, IsQueue-replace}
use tal_cash.Tx.{Transfer, sender, size, total_spent}

module _ ⦃c : Crypto⦄ where
  -- What the policy checks establish.
  pub record IsAllowed (tx : Transfer) (size : ℕ) (m : Mempool) : Type 0 where
    pub fee : m.min_fee_per_byte * size ≤ tx.fee
    pub nonce :
        lookup tx.nonce (pending_of m (sender tx)) ≡ none
        → (tx.nonce ≡ next_nonce m (sender tx))
          × (length (pending_of m (sender tx)) < m.max_per_sender)
    pub covered :
        total_spent tx + spent_besides tx.nonce (pending_of m (sender tx))
        ≤ (m.state (sender tx)).balance

  pub check_policy-IsAllowed :
      (tx : Transfer) (size : ℕ) (m : Mempool) (u : Unit {0})
      → check_policy tx size m ≡ ok u
      → IsAllowed tx size m
  unfolding check_policy check_nonce next_nonce
  check_policy-IsAllowed tx size m u h = record {
    fee = ground arith;
    nonce = λ free. ground arith;
    covered = ground arith;
  }

  pub next_entry-IsPool :
      (e : MempoolEntry) (m m' : Mempool)
      → IsPool m
      → IsAllowed e.tx e.size m
      → lookup e.txid m.by_id ≡ none
      → lookup e.tx.nonce (pending_of m (sender e.tx)) ≡ none
      → Put e m m'
      → IsPool m'
  unfolding pending_of next_nonce
  next_entry-IsPool e m m' i allowed new free p =
      let put =
        IsQueue-put (m.state (sender e.tx)) (pending_of m (sender e.tx)) e (i.queues (sender e.tx))
          (allowed.nonce free).0 free allowed.covered in
      record {
        indexed = Put-IsIndexed e m m' i.indexed new free p;
        queues = λ a.
            rw (p.limits.state, p.pending a)
              (IsQueue-change m.state (λ b. insert e.tx.nonce e (pending_of m b)) (pending_of m)
                (sender e.tx) a put (i.queues a));
      }

  replace_pending :
      (e old : MempoolEntry) (m m₁ m' : Mempool) (a : Bytes)
      → sender old.tx ≡ sender e.tx
      → old.tx.nonce ≡ e.tx.nonce
      → Removed old m m₁
      → Put e m₁ m'
      → pending_of m' a ≡ (
          if bytes_eq (sender e.tx) a
          then insert e.tx.nonce e (remove e.tx.nonce (pending_of m a))
          else pending_of m a)
  replace_pending e old m m₁ m' a same_sender same_nonce r p =
      ground (arith, r.pending a, p.pending a)

  pub replacing-IsPool :
      (e old : MempoolEntry) (m m₁ m' : Mempool)
      → IsPool m
      → IsAllowed e.tx e.size m
      → lookup e.txid m.by_id ≡ none
      → lookup e.tx.nonce (pending_of m (sender e.tx)) ≡ some old
      → Removed old m m₁
      → Put e m₁ m'
      → IsPool m'
  unfolding pending_of
  replacing-IsPool e old m m₁ m' i allowed new found r p =
      let (same_sender, same_nonce, known) =
        i.indexed.by_sender (sender e.tx) e.tx.nonce old found in
      let replaced =
        IsQueue-replace (m.state (sender e.tx)) (pending_of m (sender e.tx)) e old
          (i.queues (sender e.tx)) found allowed.covered in
      record {
        indexed =
            Put-IsIndexed e m₁ m' (Removed-IsIndexed old m m₁ i.indexed known r)
              (ground (arith, r.by_id, lookup-remove old.txid e.txid m.by_id))
              (ground (
                arith,
                r.pending (sender e.tx),
                bytes_eq_iff (sender old.tx) (sender e.tx),
                lookup-remove old.tx.nonce e.tx.nonce (pending_of m (sender e.tx)),
              ))
              p;
        queues = λ a.
            rw
              (
                p.limits.state,
                r.limits.state,
                replace_pending e old m m₁ m' a same_sender same_nonce r p,
              )
              (IsQueue-change m.state
                (λ b. insert e.tx.nonce e (remove e.tx.nonce (pending_of m b))) (pending_of m)
                (sender e.tx) a replaced (i.queues a));
      }

  pub place-IsPool :
      (e : MempoolEntry) (m m' : Mempool)
      → IsPool m
      → IsAllowed e.tx e.size m
      → lookup e.txid m.by_id ≡ none
      → place e m ≡ ok m'
      → IsPool m' × SameLimits m m' × (m'.bytes ≤ m'.max_bytes)
  unfolding place remove_replaced
  place-IsPool e m m' i allowed new h =
      let (m₁, e₁, h₁) = bind-eq-ok (remove_replaced e.tx m) _ h in
      let (m₂, e₂, h₂) = bind-eq-ok (put_entry e m₁) _ h₁ in
      let p = put_entry-Put e m₁ m₂ e₂ in
      let finish : IsPool m₂
          → SameLimits m m₁
          → IsPool m' × SameLimits m m' × (m'.bytes ≤ m'.max_bytes) =
        λ i₂ s.
          let (i', s', fits) = trim_to_size-IsPool (trim_fuel m₂) m₂ m' i₂ h₂ in
          (i', SameLimits-trans (SameLimits-trans s p.limits) s', fits) in
      elim (Option-cases (lookup e.tx.nonce (pending_of m (sender e.tx)))) [
        | inl free ↦
            let same : m ≡ m₁ = ground arith in
            let p' = subst (λ x. Put e x m₂) (sym same) p in
            finish (next_entry-IsPool e m m₂ i allowed new free p')
              (subst (SameLimits m) same (SameLimits-refl m))
        | inr (old, found) ↦
            let r = remove_entry-Removed old m m₁ (rw (remove_replaced, found) at e₁) in
            finish (replacing-IsPool e old m m₁ m₂ i allowed new found r p) r.limits
      ]
