-- ===== src/Mempool/Heap.antt =====
-- The eviction heap (node/mempool.py): `_push_evictable` keeps every sender's last transfer in it.
use tal_cash.Base.{
  Bool, Bool-cases, Bytes, List, Option-cases, [], arith, bytes_eq, bytes_eq_iff, false, inl, inr,
  length, length-map, ltb, map, max, ok, refl, some, true, ℕ, ◌*◌, ◌+◌, ◌||◌, ◌∷◌, ◌≡◌, ◌≤◌,
}
use tal_cash.Base.Dict.{Dict, bytes_Key, contains, item, lookup, number_Key, values}
use tal_cash.Mempool.{Candidate, Mempool, MempoolEntry, Pending, max_key}
use tal_cash.Mempool.Evict.{
  candidate_of, heapify, heappush, is_empty, last_entries, last_entry, last_nonce, push_evictable,
}
use tal_cash.Mempool.Queue.{max_key-contains}
use tal_cash.Tx.{size}

-- A candidate of this id is in the heap.
unfoldable pub queued : Bytes → List Candidate → Bool
queued id [] = false
queued id (c ∷ heap) = let rest = queued id heap in bytes_eq c.id id || rest

-- No sender of the dict has an empty table.
abbrev pub AllWaiting : Dict Pending → Type 0
AllWaiting [] = Unit {0}
AllWaiting ((a, p) ∷ d) = (is_empty p ≡ false) × AllWaiting d

abbrev pub Covers : List Candidate → Dict Pending → Type 0
Covers heap d =
    (a : Bytes) (p : Pending) (e : MempoolEntry)
    → lookup a d ≡ some p
    → last_entry p ≡ ok e
    → queued e.txid heap ≡ true

pub heappush-queued :
    (c : Candidate) (id : Bytes) (heap : List Candidate)
    → queued id (heappush c heap) ≡ (bytes_eq c.id id || queued id heap)
unfolding heappush queued
heappush-queued c id [] = refl
heappush-queued c id (d ∷ heap) = ground (arith, heappush-queued c id heap)

heapify-queued : (id : Bytes) (cs : List Candidate) → queued id (heapify cs) ≡ queued id cs
unfolding heapify queued
heapify-queued id [] = refl
heapify-queued id (c ∷ cs) = ground (arith, heappush-queued c id (heapify cs), heapify-queued id cs)

pub length-heappush :
    (c : Candidate) (heap : List Candidate) → length (heappush c heap) ≡ length heap + 1
unfolding heappush
length-heappush c [] = refl
length-heappush c (d ∷ heap) = ground (arith, length-heappush c heap)

length-heapify : (cs : List Candidate) → length (heapify cs) ≡ length cs
unfolding heapify
length-heapify [] = refl
length-heapify (c ∷ cs) = omega (arith, length-heappush c (heapify cs), length-heapify cs)

-- A table that is not empty has a last entry.
pub max_key-some : (p : Pending) → is_empty p ≡ false → (n : ℕ) × (max_key p ≡ some n)
unfolding is_empty max_key
max_key-some [] h = cc
max_key-some ((k, e) ∷ p) h = elim (Option-cases (max_key p)) [
  | inl missing ↦ (k, ground arith)
  | inr (m, found) ↦ (max k m, ground arith)
]

pub last_nonce-max : (p : Pending) (n : ℕ) → max_key p ≡ some n → last_nonce p ≡ ok n
unfolding last_nonce
last_nonce-max p n h = ground arith

pub lookup-max_key :
    (p : Pending) (n : ℕ) → max_key p ≡ some n → (e : MempoolEntry) × (lookup n p ≡ some e)
unfolding contains
lookup-max_key p n h = elim (Option-cases (lookup n p)) [
  | inl missing ↦ absurd (ground (arith, max_key-contains p n h))
  | inr found ↦ found
]

pub last_entry-found :
    (p : Pending) (n : ℕ) (e : MempoolEntry)
    → max_key p ≡ some n
    → lookup n p ≡ some e
    → last_entry p ≡ ok e
unfolding last_entry last_nonce item
last_entry-found p n e h found = ground arith

pub last_entry-some :
    (p : Pending) → is_empty p ≡ false → (e : MempoolEntry) × (last_entry p ≡ ok e)
last_entry-some p h =
    let (n, found) = max_key-some p h in
    let (e, at) = lookup-max_key p n found in (e, last_entry-found p n e found at)

-- Rebuilding the heap.
rebuild-Covers :
    (b : Bytes) (p : Pending) (d : Dict Pending) (e : MempoolEntry) (es : List MempoolEntry)
    → last_entry p ≡ ok e
    → Covers (map candidate_of es) d
    → Covers (map candidate_of (e ∷ es)) ((b, p) ∷ d)
unfolding lookup queued candidate_of
rebuild-Covers b p d e es h covers a q f found last =
    ground (arith, covers a q f, bytes_eq_iff b a, bytes_eq_iff e.txid f.txid)

nothing_covered : Covers [] []
unfolding lookup
nothing_covered a p e found last = cc

last_entries-total :
    (d : Dict Pending)
    → AllWaiting d
    → (es : List MempoolEntry) × (last_entries (values d) ≡ ok es)
      × (length es ≡ length d)
      × Covers (map candidate_of es) d
unfolding last_entries values
last_entries-total [] w = ([], refl, refl, nothing_covered)
last_entries-total ((b, p) ∷ d) w =
    let (e, h) = last_entry-some p w.0 in
    let (es, done, size, covers) = last_entries-total d w.1 in
    (
      e ∷ es,
      rw (last_entries, values, h, done) refl,
      omega (arith, size),
      rebuild-Covers b p d e es h covers,
    )

-- What `_push_evictable` gives.
pub record Pushed (m m' : Mempool) : Type 0 where
  pub rest : m' ≡ record m { evictable = m'.evictable }
  pub covers : Covers m'.evictable m.by_sender
  pub grows : length m'.evictable ≤ length m.evictable + 1

pub push_evictable-total :
    (e : MempoolEntry) (m : Mempool)
    → AllWaiting m.by_sender
    → Covers (candidate_of e ∷ m.evictable) m.by_sender
    → (m' : Mempool) × (push_evictable e m ≡ ok m') × Pushed m m'
unfolding push_evictable queued
push_evictable-total e m w covers =
    let heap = heappush (candidate_of e) m.evictable in
    elim (Bool-cases (ltb (2 * length m.by_sender + 1000) (length heap))) [
      | inl crowded ↦
          let (es, done, size, rebuilt) = last_entries-total m.by_sender w in
          (
            record m { evictable = heapify (map candidate_of es) },
            rw (push_evictable, crowded, done) refl,
            record {
              rest = refl;
              covers = λ a p f found last.
                  rw (heapify-queued f.txid (map candidate_of es)) (rebuilt a p f found last);
              grows = ground (
                arith,
                size,
                length-map candidate_of es,
                length-heapify (map candidate_of es),
                length-heappush (candidate_of e) m.evictable,
              );
            },
          )
      | inr spare ↦ (
        record m { evictable = heap },
        ground arith,
        record {
          rest = refl;
          covers = λ a p f found last.
              ground (
                arith,
                heappush-queued (candidate_of e) f.txid m.evictable,
                covers a p f found last,
              );
          grows = omega (arith, length-heappush (candidate_of e) m.evictable);
        },
      )
    ]
