-- ===== src/Mempool/Removal.antt =====
-- `_remove` (node/mempool.py) of a waiting entry goes through and keeps the heap and the dict by receiver
-- right.
use tal_cash.Base.{
  Bytes, [], arith, bind-eq-ok, bytes_eq, bytes_eq_iff, false, length, ok, refl, some, true, ℕ, ◌+◌,
  ◌-◌, ◌∙◌, ◌∷◌, ◌≡◌, ◌≤◌,
}
use tal_cash.Base.Dict.{
  Dict, bytes_Key, contains-some, get_or, get_or-some, item, item-eq-ok, lookup, lookup-remove,
  number_Key, remove,
}
use tal_cash.Block.{member}
use tal_cash.Crypto.{Crypto}
use tal_cash.Mempool.{Mempool, MempoolEntry, Pending, pending_of}
use tal_cash.Mempool.Evict.{candidate_of, last_entry, last_nonce, put_back, receivers, remove_entry}
use tal_cash.Mempool.Heap.{AllWaiting, Covers, queued}
use tal_cash.Mempool.LastEntry.{push_last-total, put_back-AllWaiting}
use tal_cash.Mempool.Pool.{IsIndexed}
use tal_cash.Mempool.Receivers.{
  Forgets, delete-ok, forget_receivers-total, item-get_or, paying, receivers-IsDistinct,
}
use tal_cash.Tx.{sender}

-- What the pool keeps beside the indexes: no sender without a transfer, every sender's last transfer in
-- the heap, and the dict by receiver.
pub record IsWired (m : Mempool) : Type 0 where
  pub waiting : AllWaiting m.by_sender
  pub covers : Covers m.evictable m.by_sender
  pub paid : (a id : Bytes) → lookup id (get_or [] a m.by_receiver) ≡ paying a id m.by_id

-- The same but for `e`, which the heap need not hold.
pub record IsWiredBut (e : MempoolEntry) (m : Mempool) : Type 0 where
  pub waiting : AllWaiting m.by_sender
  pub covers : Covers (candidate_of e ∷ m.evictable) m.by_sender
  pub paid : (a id : Bytes) → lookup id (get_or [] a m.by_receiver) ≡ paying a id m.by_id

pub IsWired-but : (e : MempoolEntry) (m : Mempool) → IsWired m → IsWiredBut e m
unfolding queued
IsWired-but e m w = record {
  waiting = w.waiting;
  covers = λ a p f found last. ground (arith, w.covers a p f found last);
  paid = w.paid;
}

pub last_entry-lookup :
    (p : Pending) (f : MempoolEntry)
    → last_entry p ≡ ok f
    → (n : ℕ) × (last_nonce p ≡ ok n) × (lookup n p ≡ some f)
unfolding last_entry
last_entry-lookup p f h =
    let (n, e₁, h₁) = bind-eq-ok (last_nonce p) (λ n. item n p) h in (n, e₁, item-eq-ok n p f h₁)

abbrev pub forgotten : MempoolEntry → Mempool → Dict Pending → Mempool
forgotten e m senders = record m { by_id = remove e.txid m.by_id; by_sender = senders }

module _ ⦃c : Crypto⦄ where
  pub record Withdrawn (e : MempoolEntry) (m m' : Mempool) : Type 0 where
    pub done : remove_entry e m ≡ ok m'
    pub wired : IsWired m'
    pub grows : length m'.evictable ≤ length m.evictable + 1

  receivers_left :
      (e : MempoolEntry) (m : Mempool) (d' : Dict (Dict MempoolEntry)) (a id : Bytes)
      → lookup e.txid m.by_id ≡ some e
      → IsWiredBut e m
      → Forgets (receivers e.tx.outputs) e.txid m.by_receiver d'
      → lookup id (get_or [] a d') ≡ paying a id (remove e.txid m.by_id)
  unfolding paying
  receivers_left e m d' a id found w forgets =
      ground
        (arith, forgets a id, w.paid a id, lookup-remove e.txid id m.by_id, bytes_eq_iff e.txid id)

  paying_found :
      (e : MempoolEntry) (a : Bytes) (d : Dict MempoolEntry)
      → lookup e.txid d ≡ some e
      → member a (receivers e.tx.outputs) ≡ true
      → paying a e.txid d ≡ some e
  unfolding paying
  paying_found e a d found h = ground arith

  others_queued :
      (e : MempoolEntry) (m : Mempool)
      → IsIndexed m
      → IsWiredBut e m
      → (b : Bytes) (p : Pending) (f : MempoolEntry) → bytes_eq (sender e.tx) b ≡ false
      → lookup e.txid m.by_id ≡ some e
      → lookup b m.by_sender ≡ some p
      → last_entry p ≡ ok f
      → queued f.txid m.evictable ≡ true
  unfolding queued candidate_of pending_of
  others_queued e m i w b p f other known found last =
      let (n, e₁, at) = last_entry-lookup p f last in
      ground (
        arith,
        w.covers b p f found last,
        i.by_sender b n f,
        get_or-some [] b m.by_sender p found,
        bytes_eq_iff e.txid f.txid,
        bytes_eq_iff (sender e.tx) b,
      )

  last_queued :
      (e : MempoolEntry) (m : Mempool) (p : Pending) (f : MempoolEntry)
      → IsIndexed m
      → IsWiredBut e m
      → lookup e.txid m.by_id ≡ some e
      → lookup (sender e.tx) m.by_sender ≡ some p
      → last_entry (remove e.tx.nonce p) ≡ ok f
      → last_entry p ≡ ok f
      → queued f.txid m.evictable ≡ true
  unfolding queued candidate_of pending_of
  last_queued e m p f i w known found last_rest last =
      let (n, e₁, at) = last_entry-lookup (remove e.tx.nonce p) f last_rest in
      ground (
        arith,
        w.covers (sender e.tx) p f found last,
        i.by_sender (sender e.tx) n f,
        lookup-remove e.tx.nonce n p,
        get_or-some [] (sender e.tx) m.by_sender p found,
        bytes_eq_iff e.txid f.txid,
      )

  pub remove_entry-Withdrawn :
      (e : MempoolEntry) (m : Mempool)
      → IsIndexed m
      → IsWiredBut e m
      → lookup e.txid m.by_id ≡ some e
      → (m' : Mempool) × Withdrawn e m m'
  unfolding remove_entry pending_of
  remove_entry-Withdrawn e m i w found =
      let a = sender e.tx in
      let pending = pending_of m a in
      let there : lookup e.tx.nonce pending ≡ some e = (i.by_id e.txid e found).1 in
      let at_nonce = contains-some e.tx.nonce e pending there in
      let at_sender = item-get_or a e.tx.nonce m.by_sender at_nonce in
      let senders = put_back a (remove e.tx.nonce pending) m.by_sender in
      let m₁ = forgotten e m senders in
      let (m₂, pushing, pushed) =
        push_last-total a e.tx.nonce pending m m₁ w.waiting
          (λ b p f other found' last. others_queued e m i w b p f other found found' last)
          (λ f last_rest last.
            last_queued e m pending f i w found (item-eq-ok a m.by_sender pending at_sender)
              last_rest last)
          (item-eq-ok a m.by_sender pending at_sender) refl refl in
      let (d', forgot, forgets) =
        forget_receivers-total (receivers e.tx.outputs) e.txid m.by_receiver
          (receivers-IsDistinct e.tx.outputs)
          λ b h.
            contains-some e.txid e (get_or [] b m.by_receiver)
              (w.paid b e.txid ∙ paying_found e b m.by_id found h) in
      (
        record m₁ { evictable = m₂.evictable; by_receiver = d'; bytes = m.bytes - e.size },
        record {
          done =
              rw
                (
                  remove_entry,
                  delete-ok e.txid m.by_id (contains-some e.txid e m.by_id found),
                  at_sender,
                  delete-ok e.tx.nonce pending at_nonce,
                  pushing,
                  pushed.rest,
                  forgot,
                )
                refl;
          wired = record {
            waiting = put_back-AllWaiting a (remove e.tx.nonce pending) m.by_sender w.waiting;
            covers = pushed.covers;
            paid = λ b id. receivers_left e m d' b id found w forgets;
          };
          grows = pushed.grows;
        },
      )
