-- ===== src/Mempool/Trim.antt =====
-- `_trim_to_size` (node/mempool.py) ends: each round makes the heap or the pool smaller.
use tal_cash.Base.{
  Bool-cases, Bytes, List, List-cases, Option-cases, [], ap, arith, bytes_eq, bytes_eq_iff, false,
  inl, inr, leb, length, ok, refl, some, suc, sym, true, zero, ℕ, ◌*◌, ◌+◌, ◌<◌, ◌==◌, ◌∙◌, ◌∷◌,
  ◌≡◌, ◌≤◌,
}
use tal_cash.Base.Dict.{
  Dict, bytes_Key, contains-some, get_or-some, item-eq-ok, length-remove, lookup, number_Key,
  sum_by,
}
use tal_cash.Crypto.{Crypto}
use tal_cash.Mempool.{Candidate, Mempool, MempoolEntry, Pending, pending_of}
use tal_cash.Mempool.Evict.{candidate_of, evict, last_entry, last_nonce, trim_to_size}
use tal_cash.Mempool.Heap.{last_entry-some, last_nonce-max, max_key-some, queued}
use tal_cash.Mempool.Keeping.{IsPool, evict-IsPool, other_heap-IsPool, trim_to_size-IsPool}
use tal_cash.Mempool.LastEntry.{contains-is_empty}
use tal_cash.Mempool.Pool.{IsIndexed, remove_entry-Removed}
use tal_cash.Mempool.Receivers.{item-get_or}
use tal_cash.Mempool.Removal.{IsWired, IsWiredBut, last_entry-lookup, remove_entry-Withdrawn}
use tal_cash.Tx.{sender}

module _ ⦃c : Crypto⦄ where
  -- What a round makes smaller.
  abbrev pub weight : Mempool → ℕ
  weight m = 2 * length m.by_id + length m.evictable

  pub record Round (m m' : Mempool) : Type 0 where
    pub wired : IsWired m'
    pub smaller : weight m' + 1 ≤ weight m

  -- A candidate that is stale leaves the heap, and nothing else changes.
  stale-IsWired :
      (best : Candidate) (heap : List Candidate) (m : Mempool)
      → IsWired m
      → m.evictable ≡ best ∷ heap
      → ((a : Bytes) (p : Pending) (f : MempoolEntry)
          → lookup a m.by_sender ≡ some p
          → last_entry p ≡ ok f
          → bytes_eq best.id f.txid ≡ false)
      → IsWired (record m { evictable = heap })
  unfolding queued
  stale-IsWired best heap m w popped stale = record {
    waiting = w.waiting;
    covers = λ a p f found last.
        ground
          (arith, w.covers a p f found last, ap (queued f.txid) popped, stale a p f found last);
    paid = w.paid;
  }

  last_known :
      (m : Mempool) (a : Bytes) (p : Pending) (f : MempoolEntry)
      → IsIndexed m
      → lookup a m.by_sender ≡ some p
      → last_entry p ≡ ok f
      → (n : ℕ) × (last_nonce p ≡ ok n)
        × (f.tx.nonce ≡ n)
        × (sender f.tx ≡ a)
        × (lookup f.txid m.by_id ≡ some f)
  unfolding pending_of
  last_known m a p f i found last =
      let (n, e₁, at) = last_entry-lookup p f last in
      let (by, nonce, known) = i.by_sender a n f (cc (get_or-some [] a m.by_sender p found, at)) in
      (n, e₁, nonce, by, known)

  popped-IsWiredBut :
      (best : Candidate) (heap : List Candidate) (e : MempoolEntry) (m : Mempool)
      → IsWired m
      → m.evictable ≡ best ∷ heap
      → e.txid ≡ best.id
      → IsWiredBut e (record m { evictable = heap })
  unfolding queued candidate_of
  popped-IsWiredBut best heap e m w popped same = record {
    waiting = w.waiting;
    covers = λ a p f found last. ground (
      arith,
      w.covers a p f found last,
      ap (queued f.txid) popped,
      bytes_eq_iff e.txid f.txid,
      bytes_eq_iff best.id f.txid,
    );
    paid = w.paid;
  }

  -- The candidate of an entry that is not its sender's last.
  earlier_stale :
      (id : Bytes) (e f : MempoolEntry) (b : Bytes) (p : Pending) (last : ℕ) (m : Mempool)
      → IsIndexed m
      → lookup id m.by_id ≡ some e
      → last_nonce (pending_of m (sender e.tx)) ≡ ok last
      → (e.tx.nonce == last) ≡ false
      → lookup b m.by_sender ≡ some p
      → last_entry p ≡ ok f
      → bytes_eq id f.txid ≡ false
  unfolding pending_of
  earlier_stale id e f b p last m i found is_last earlier at h =
      let (n, e₁, nonce, by, known) = last_known m b p f i at h in
      elim (Bool-cases (bytes_eq id f.txid)) [
        | inr other ↦ other
        | inl same ↦
            let one : f ≡ e = ground (arith, bytes_eq_iff id f.txid) in
            let here : pending_of m (sender e.tx) ≡ p =
              cc (get_or-some [] b m.by_sender p at, one, by) in
            let next : n ≡ last = ground arith in
            let at_last : e.tx.nonce ≡ last =
              ap (λ (x : MempoolEntry). x.tx.nonce) (sym one) ∙ nonce ∙ next in
            ground arith
      ]

  evict_known-total :
      (best : Candidate) (heap : List Candidate) (e : MempoolEntry) (m : Mempool)
      → IsPool m
      → IsWired m
      → m.evictable ≡ best ∷ heap
      → lookup best.id m.by_id ≡ some e
      → (m' : Mempool) × (evict best.id (record m { evictable = heap }) ≡ ok m') × Round m m'
  unfolding evict pending_of
  evict_known-total best heap e m i w popped found =
      let m₀ : Mempool = record m { evictable = heap } in
      let (same, there) = i.indexed.by_id best.id e found in
      let a = sender e.tx in
      let pending = pending_of m a in
      let at_sender =
        item-get_or a e.tx.nonce m.by_sender (contains-some e.tx.nonce e pending there) in
      let (last, is_max) =
        max_key-some pending
          (contains-is_empty e.tx.nonce pending (contains-some e.tx.nonce e pending there)) in
      let is_last : last_nonce pending ≡ ok last = last_nonce-max pending last is_max in
      elim (Bool-cases (e.tx.nonce == last)) [
        | inl now ↦
            let known : lookup e.txid m.by_id ≡ some e = ap (λ x. lookup x m.by_id) same ∙ found in
            let (m', out) =
              remove_entry-Withdrawn e m₀ (other_heap-IsPool m heap i).indexed
                (popped-IsWiredBut best heap e m w popped same) known in
            (
              m',
              rw (evict, found, at_sender, is_last, now) out.done,
              record {
                wired = out.wired;
                smaller = omega (
                  arith,
                  out.grows,
                  ap length popped,
                  ap length (remove_entry-Removed e m₀ m' out.done).by_id,
                  length-remove e.txid e m.by_id i.indexed.dict known,
                );
              },
            )
        | inr earlier ↦ (
          m₀,
          rw (evict, found, at_sender, is_last, earlier) refl,
          record {
            wired = stale-IsWired best heap m w popped λ b p f at h.
                earlier_stale best.id e f b p last m i.indexed found is_last earlier at h;
            smaller = omega (arith, ap length popped);
          },
        )
      ]

  pub evict-total :
      (best : Candidate) (heap : List Candidate) (m : Mempool)
      → IsPool m
      → IsWired m
      → m.evictable ≡ best ∷ heap
      → (m' : Mempool) × (evict best.id (record m { evictable = heap }) ≡ ok m') × Round m m'
  unfolding evict
  evict-total best heap m i w popped = elim (Option-cases (lookup best.id m.by_id)) [
    | inl gone ↦ (
      record m { evictable = heap },
      rw (evict, gone) refl,
      record {
        wired = stale-IsWired best heap m w popped λ a p f found last.
            ground
              (arith, bytes_eq_iff best.id f.txid, (last_known m a p f i.indexed found last).4);
        smaller = omega (arith, ap length popped);
      },
    )
    | inr (e, found) ↦ evict_known-total best heap e m i w popped found
  ]

  -- Something waits when there are bytes.
  bytes_somewhere :
      (d : Dict MempoolEntry)
      → 0 < sum_by (λ e. e.size) d
      → (id : Bytes) × (e : MempoolEntry) × (lookup id d ≡ some e)
  unfolding sum_by lookup
  bytes_somewhere [] h = absurd (omega arith)
  bytes_somewhere ((id, e) ∷ d) h = (id, e, ground (arith, bytes_eq_iff id id))

  -- A pool with a transfer has a candidate in its heap.
  heap_filled :
      (m : Mempool)
      → IsPool m
      → IsWired m
      → 0 < m.bytes
      → ((best : Candidate) × (heap : List Candidate) × (m.evictable ≡ best ∷ heap))
  unfolding pending_of queued
  heap_filled m i w some_bytes =
      let (id, e, found) = bytes_somewhere m.by_id (omega (arith, i.indexed.sizes)) in
      let a = sender e.tx in
      let pending = pending_of m a in
      let at_nonce = contains-some e.tx.nonce e pending (i.indexed.by_id id e found).1 in
      let at_sender = item-get_or a e.tx.nonce m.by_sender at_nonce in
      let (f, last) = last_entry-some pending (contains-is_empty e.tx.nonce pending at_nonce) in
      let there = w.covers a pending f (item-eq-ok a m.by_sender pending at_sender) last in
      elim (List-cases m.evictable) [
        | inl empty ↦ absurd (ground (arith, ap (queued f.txid) empty))
        | inr filled ↦ filled
      ]

  trim_done : (fuel : ℕ) (m : Mempool) → leb m.bytes m.max_bytes ≡ true → trim_to_size fuel m ≡ ok m
  unfolding trim_to_size
  trim_done zero m h = ground arith
  trim_done (suc fuel) m h = rw (trim_to_size, h) refl

  trim_round :
      (fuel : ℕ) (m m₁ m' : Mempool) (best : Candidate) (heap : List Candidate)
      → leb m.bytes m.max_bytes ≡ false
      → m.evictable ≡ best ∷ heap
      → evict best.id (record m { evictable = heap }) ≡ ok m₁
      → trim_to_size fuel m₁ ≡ ok m'
      → trim_to_size (suc fuel) m ≡ ok m'
  unfolding trim_to_size
  trim_round fuel m m₁ m' best heap over popped done finished =
      rw (trim_to_size, over, popped, done) finished

  pub trim_to_size-total :
      (fuel : ℕ) (m : Mempool)
      → IsPool m
      → IsWired m
      → weight m ≤ fuel
      → (m' : Mempool) × (trim_to_size fuel m ≡ ok m') × IsWired m'
  unfolding trim_to_size
  trim_to_size-total zero m i w enough = elim (Bool-cases (leb m.bytes m.max_bytes)) [
    | inl fits ↦ (m, trim_done zero m fits, w)
    | inr over ↦
        let (best, heap, popped) = heap_filled m i w (ground arith) in
        absurd (omega (arith, ap length popped))
  ]
  trim_to_size-total (suc fuel) m i w enough = elim (Bool-cases (leb m.bytes m.max_bytes)) [
    | inl fits ↦ (m, trim_done (suc fuel) m fits, w)
    | inr over ↦
        let (best, heap, popped) = heap_filled m i w (ground arith) in
        let (m₁, done, round) = evict-total best heap m i w popped in
        let i₁ =
          (evict-IsPool best.id (record m { evictable = heap }) m₁ (other_heap-IsPool m heap i)
            done).0 in
        let (m', finished, w') =
          trim_to_size-total fuel m₁ i₁ round.wired (omega (arith, round.smaller)) in
        (m', trim_round fuel m m₁ m' best heap over popped done finished, w')
  ]

  -- With twice the number of entries plus the size of the heap as fuel, trim_to_size of a pool
  -- whose indexes, queues, heap and dict by receiver are right returns a pool of which the same
  -- holds and whose bytes are within the limit.
  pub trim_to_size-returns :
      (fuel : ℕ) (m : Mempool)
      → IsPool m
      → IsWired m
      → weight m ≤ fuel
      → (m' : Mempool) × (trim_to_size fuel m ≡ ok m')
        × IsPool m'
        × IsWired m'
        × (m'.bytes ≤ m'.max_bytes)
  trim_to_size-returns fuel m i w enough =
      let (m', done, w') = trim_to_size-total fuel m i w enough in
      let (i', limits, fits) = trim_to_size-IsPool fuel m m' i done in (m', done, i', w', fits)
