-- ===== src/Mempool/Keeping.antt =====
-- The invariant of the pool (node/mempool.py) through eviction and `add`.
use tal_cash.Base.{
  Bool-cases, Bytes, List, List-cases, Option-cases, [], arith, bind-eq-ok, bytes_eq, bytes_eq_iff,
  if◌then◌else◌, inl, inr, leb, ok, some, subst, suc, true, zero, ℕ, ◌==◌, ◌≡◌, ◌≤◌,
}
use tal_cash.Base.Dict.{bytes_Key, get_or-some, item, item-eq-ok, lookup, number_Key, remove}
use tal_cash.Crypto.{Crypto}
use tal_cash.Mempool.{Candidate, Mempool, MempoolEntry, Pending, pending_of}
use tal_cash.Mempool.Evict.{evict, last_nonce, remove_entry, trim_to_size}
use tal_cash.Mempool.Indexed.{Removed-IsIndexed}
use tal_cash.Mempool.Pool.{
  IsIndexed, IsQueue, Removed, SameLimits, SameLimits-refl, SameLimits-trans, remove_entry-Removed,
}
use tal_cash.Mempool.Queue.{IsQueue-drop_last, last_nonce-next}
use tal_cash.State.{Account, get}
use tal_cash.Tx.{sender}

-- A change of one sender's queue.
pub IsQueue-change :
    (get : Bytes → Account) (new old : Bytes → Pending) (a b : Bytes)
    → IsQueue (get a) (new a)
    → IsQueue (get b) (old b)
    → IsQueue (get b) (if bytes_eq a b then new b else old b)
IsQueue-change get new old a b changed kept = elim (Bool-cases (bytes_eq a b)) [
  | inl same ↦ rw same (subst (λ x. IsQueue (get x) (new x)) ((bytes_eq_iff a b).0 same) changed)
  | inr other ↦ rw other kept
]

module _ ⦃c : Crypto⦄ where
  pub record IsPool (m : Mempool) : Type 0 where
    pub indexed : IsIndexed m
    pub queues : (a : Bytes) → IsQueue (m.state a) (pending_of m a)

  pub other_heap-IsPool :
      (m : Mempool) (heap : List Candidate) → IsPool m → IsPool (record m { evictable = heap })
  unfolding pending_of
  other_heap-IsPool m heap i = record {
    indexed = record {
      dict = i.indexed.dict;
      sizes = i.indexed.sizes;
      by_id = i.indexed.by_id;
      by_sender = i.indexed.by_sender;
    };
    queues = i.queues;
  }

  drop_last-IsPool :
      (e : MempoolEntry) (m m' : Mempool)
      → IsPool m
      → lookup e.txid m.by_id ≡ some e
      → last_nonce (pending_of m (sender e.tx)) ≡ ok e.tx.nonce
      → Removed e m m'
      → IsPool m'
  unfolding pending_of
  drop_last-IsPool e m m' i found last r =
      let account = m.state (sender e.tx) in
      let pending = pending_of m (sender e.tx) in
      let q = i.queues (sender e.tx) in
      let dropped =
        IsQueue-drop_last account pending e e.tx.nonce q (i.indexed.by_id e.txid e found).1
          (last_nonce-next account pending e.tx.nonce q last) in
      record {
        indexed = Removed-IsIndexed e m m' i.indexed found r;
        queues = λ a.
            rw (r.limits.state, r.pending a)
              (IsQueue-change m.state (λ b. remove e.tx.nonce (pending_of m b)) (pending_of m)
                (sender e.tx) a dropped (i.queues a));
      }

  evict_known-IsPool :
      (e : MempoolEntry) (pending : Pending) (last : ℕ) (m m' : Mempool)
      → IsPool m
      → lookup e.txid m.by_id ≡ some e
      → pending_of m (sender e.tx) ≡ pending
      → last_nonce pending ≡ ok last
      → (if e.tx.nonce == last then remove_entry e m else ok m) ≡ ok m'
      → IsPool m' × SameLimits m m'
  evict_known-IsPool e pending last m m' i found at_sender h done =
      elim (Bool-cases (e.tx.nonce == last)) [
        | inl is_last ↦
            let r = remove_entry-Removed e m m' (ground arith) in
            (drop_last-IsPool e m m' i found (ground arith) r, r.limits)
        | inr earlier ↦
            let same : m ≡ m' = ground arith in
            (subst IsPool same i, subst (SameLimits m) same (SameLimits-refl m))
      ]

  pub evict-IsPool :
      (id : Bytes) (m m' : Mempool) → IsPool m → evict id m ≡ ok m' → IsPool m' × SameLimits m m'
  unfolding evict pending_of
  evict-IsPool id m m' i h = elim (Option-cases (lookup id m.by_id)) [
    | inl gone ↦
        let same : m ≡ m' = ground arith in
        (subst IsPool same i, subst (SameLimits m) same (SameLimits-refl m))
    | inr (e, found) ↦
        let (pending, e₁, h₁) =
          bind-eq-ok (item (sender e.tx) m.by_sender) _ (rw (evict, found) at h) in
        let (last, e₂, h₂) = bind-eq-ok (last_nonce pending) _ h₁ in
        evict_known-IsPool e pending last m m' i (cc ((i.indexed.by_id id e found).0, found))
          (get_or-some [] (sender e.tx) m.by_sender pending
            (item-eq-ok (sender e.tx) m.by_sender pending e₁))
          e₂ h₂
  ]

  trim_end :
      (m m' : Mempool)
      → IsPool m
      → leb m.bytes m.max_bytes ≡ true
      → m ≡ m'
      → IsPool m' × SameLimits m m' × (m'.bytes ≤ m'.max_bytes)
  trim_end m m' i fits same =
      (subst IsPool same i, subst (SameLimits m) same (SameLimits-refl m), ground arith)

  pub trim_to_size-IsPool :
      (fuel : ℕ) (m m' : Mempool)
      → IsPool m
      → trim_to_size fuel m ≡ ok m'
      → IsPool m' × SameLimits m m' × (m'.bytes ≤ m'.max_bytes)
  unfolding trim_to_size
  trim_to_size-IsPool zero m m' i h = trim_end m m' i (ground arith) (ground arith)
  trim_to_size-IsPool (suc fuel) m m' i h = elim (Bool-cases (leb m.bytes m.max_bytes)) [
    | inl fits ↦ trim_end m m' i fits (ground arith)
    | inr over ↦ elim (List-cases m.evictable) [
      | inl none_left ↦ absurd (ground arith)
      | inr (best, heap, found) ↦
          let (m₁, e₁, h₁) =
            bind-eq-ok (evict best.id (record m { evictable = heap })) (trim_to_size fuel)
              (rw (trim_to_size, over, found) at h) in
          let (i₁, s₁) =
            evict-IsPool best.id (record m { evictable = heap }) m₁ (other_heap-IsPool m heap i)
              e₁ in
          let (i₂, s₂, fits) = trim_to_size-IsPool fuel m₁ m' i₁ h₁ in
          (
            i₂,
            SameLimits-trans
                (record {
                  params = s₁.params;
                  state = s₁.state;
                  max_bytes = s₁.max_bytes;
                  max_per_sender = s₁.max_per_sender;
                  min_fee_per_byte = s₁.min_fee_per_byte;
                  expiry = s₁.expiry;
                })
                s₂,
            fits,
          )
    ]
  ]
