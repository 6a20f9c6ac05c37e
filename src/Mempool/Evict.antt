-- ===== src/Mempool/Evict.antt =====
-- Removal and eviction in node/mempool.py. `heapq` keeps a list whose least item `heappop` returns; here
-- the list is sorted.
use tal_cash.Base.{
  Bool, Bytes, List, Result, [], bind, err, false, if◌then◌else◌, index_error, leb, length, ltb,
  map, none, ok, out_of_fuel, some, suc, true, value_error, zero, ℕ, ◌&&◌, ◌*◌, ◌+◌, ◌-◌, ◌==◌,
  ◌||◌, ◌∷◌,
}
use tal_cash.Base.Dict.{
  Dict, Table, bytes_Key, delete, insert, item, lookup, number_Key, remove, values,
}
use tal_cash.Block.{member}
use tal_cash.Crypto.{Crypto}
use tal_cash.Mempool.{
  Candidate, Mempool, MempoolEntry, Pending, fee_rate, fraction_eq, fraction_lt, max_key,
}
use tal_cash.Snapshot.{bytes_le}
use tal_cash.Tx.{Output, sender}

-- The order of the tuples `(fee_rate, -added, txid)`.
unfoldable pub candidate_le : Candidate → Candidate → Bool
candidate_le a b =
    fraction_lt a.rate b.rate
    || (fraction_eq a.rate b.rate
        && (ltb b.added a.added || (a.added == b.added && bytes_le a.id b.id)))

unfoldable pub heappush : Candidate → List Candidate → List Candidate
heappush c [] = c ∷ []
heappush c (d ∷ heap) = if candidate_le c d then c ∷ d ∷ heap else d ∷ heappush c heap

unfoldable pub heapify : List Candidate → List Candidate
heapify [] = []
heapify (c ∷ cs) = heappush c (heapify cs)

unfoldable pub candidate_of : MempoolEntry → Candidate
candidate_of e = record { rate = fee_rate e; added = e.added; id = e.txid }

-- `max(pending)`
unfoldable pub last_nonce : Pending → Result ℕ
last_nonce p = elim (max_key p) [ none ↦ err value_error | some n ↦ ok n ]

-- `pending[max(pending)]`
unfoldable pub last_entry : Pending → Result MempoolEntry
last_entry p = bind (last_nonce p) λ n. item n p

unfoldable pub last_entries : List Pending → Result (List MempoolEntry)
last_entries [] = ok []
last_entries (p ∷ ps) = bind (last_entry p) λ e. bind (last_entries ps) λ es. ok (e ∷ es)

-- `_push_evictable`
unfoldable pub push_evictable : MempoolEntry → Mempool → Result Mempool
push_evictable e m =
    let heap = heappush (candidate_of e) m.evictable in
    if ltb (2 * length m.by_sender + 1000) (length heap)
    then (bind (last_entries (values m.by_sender))
        λ es. ok (record m { evictable = heapify (map candidate_of es) }))
    else ok (record m { evictable = heap })

-- `{o.address for o in tx.outputs}`
unfoldable pub receivers : List Output → List Bytes
receivers [] = []
receivers (o ∷ os) =
    let rest = receivers os in if member o.address rest then rest else o.address ∷ rest

unfoldable pub is_empty {ℓ} : {A : Type ℓ} → List A → Bool
is_empty [] = true
is_empty (_ ∷ _) = false

-- `del d[k]` where `d` becomes `rest`, and `del` of the key of `d` when nothing is left.
unfoldable pub put_back {ℓ} :
    {V : Type ℓ} {K : Type 0} → Bytes → Table K V → Dict (Table K V) → Dict (Table K V)
put_back address rest d = if is_empty rest then remove address d else insert address rest d

-- The loop over the receivers in `_remove`.
unfoldable pub forget_receivers :
    List Bytes → Bytes → Dict (Dict MempoolEntry) → Result (Dict (Dict MempoolEntry))
forget_receivers [] id d = ok d
forget_receivers (a ∷ others) id d =
    bind (item a d)
      λ incoming. bind (delete id incoming) λ rest. forget_receivers others id (put_back a rest d)

-- In `_remove`: the entry before the removed one may be the sender's last now.
unfoldable pub push_last : ℕ → Pending → Mempool → Result Mempool
push_last nonce rest m = elim (max_key rest) [
  | none ↦ ok m
  | some last ↦ if ltb last nonce then (bind (item last rest) λ e. push_evictable e m) else ok m
]

module _ ⦃c : Crypto⦄ where
  -- `_remove`
  unfoldable pub remove_entry : MempoolEntry → Mempool → Result Mempool
  remove_entry e m = bind (delete e.txid m.by_id) λ by_id.
      bind (item (sender e.tx) m.by_sender) λ pending. bind (delete e.tx.nonce pending) λ rest.
        bind
          (push_last e.tx.nonce rest
            (record m { by_id = by_id; by_sender = put_back (sender e.tx) rest m.by_sender }))
          λ m'.
            bind (forget_receivers (receivers e.tx.outputs) e.txid m'.by_receiver)
              λ by_receiver. ok (record m' { by_receiver = by_receiver; bytes = m'.bytes - e.size })

  -- A round of `_trim_to_size` after `heappop`.
  unfoldable pub evict : Bytes → Mempool → Result Mempool
  evict id m = elim (lookup id m.by_id) [
    | none ↦ ok m
    | some e ↦ bind (item (sender e.tx) m.by_sender) λ pending.
        bind (last_nonce pending) λ last. if e.tx.nonce == last then remove_entry e m else ok m
  ]

  -- `_trim_to_size`, on fuel; `heappop` of an empty heap raises `IndexError`.
  unfoldable pub trim_to_size : ℕ → Mempool → Result Mempool
  trim_to_size zero m = if leb m.bytes m.max_bytes then ok m else err out_of_fuel
  trim_to_size (suc fuel) m = elim (leb m.bytes m.max_bytes) [
    | true ↦ ok m
    | false ↦ elim m.evictable [
      | [] ↦ err index_error
      | best ∷ heap ↦ bind (evict best.id (record m { evictable = heap })) (trim_to_size fuel)
    ]
  ]

  -- Each round takes an item from the heap; one that removes an entry adds one item at most.
  unfoldable pub trim_fuel : Mempool → ℕ
  trim_fuel m = 2 * length m.by_id + length m.evictable
