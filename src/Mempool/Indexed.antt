-- ===== src/Mempool/Indexed.antt =====
-- The indexes of the pool (node/mempool.py) when an entry leaves or comes in.
use tal_cash.Base.{
  Bytes, [], ap, arith, bind-eq-ok, bytes_eq, bytes_eq_iff, if◌then◌else◌, none, ok, some, ◌+◌,
  ◌==◌, ◌≡◌,
}
use tal_cash.Base.Dict.{
  bytes_Key, get_or-insert, insert, insert-IsDict, lookup, lookup-insert, lookup-remove, number_Key,
  remove-IsDict, sum_by, sum_by-insert_new, sum_by-remove,
}
use tal_cash.Crypto.{Crypto}
use tal_cash.Mempool.{Mempool, MempoolEntry, pending_of}
use tal_cash.Mempool.Add.{note_receivers, put_entry}
use tal_cash.Mempool.Evict.{last_nonce, push_evictable, receivers}
use tal_cash.Mempool.Pool.{IsIndexed, Removed, SameLimits, push_evictable-eq-ok}
use tal_cash.Tx.{sender}

module _ ⦃c : Crypto⦄ where
  -- Two entries of one id, or of one sender and nonce, are one.
  same_id :
      (m : Mempool) (e f : MempoolEntry)
      → lookup e.txid m.by_id ≡ some e
      → lookup f.txid m.by_id ≡ some f
      → e.txid ≡ f.txid
      → e ≡ f
  same_id m e f h h' q = cc

  same_place :
      (m : Mempool) (e f : MempoolEntry)
      → IsIndexed m
      → lookup e.txid m.by_id ≡ some e
      → lookup f.txid m.by_id ≡ some f
      → sender e.tx ≡ sender f.tx
      → e.tx.nonce ≡ f.tx.nonce
      → e ≡ f
  same_place m e f i h h' q n =
      let at_e = (i.by_id e.txid e h).1 in let at_f = (i.by_id f.txid f h').1 in cc

  pub Removed-IsIndexed :
      (e : MempoolEntry) (m m' : Mempool)
      → IsIndexed m
      → lookup e.txid m.by_id ≡ some e
      → Removed e m m'
      → IsIndexed m'
  Removed-IsIndexed e m m' i found r = record {
    dict = rw (r.by_id) (remove-IsDict e.txid m.by_id i.dict);
    sizes = omega (
      arith,
      r.bytes,
      i.sizes,
      ap (sum_by (λ (f : MempoolEntry). f.size)) r.by_id,
      sum_by-remove (λ (f : MempoolEntry). f.size) e.txid e m.by_id i.dict found,
    );
    by_id = λ id f h. ground (
      arith,
      r.by_id,
      lookup-remove e.txid id m.by_id,
      i.by_id id f,
      bytes_eq_iff e.txid id,
      bytes_eq_iff (sender e.tx) (sender f.tx),
      r.pending (sender f.tx),
      lookup-remove e.tx.nonce f.tx.nonce (pending_of m (sender f.tx)),
      same_place m e f i found,
    );
    by_sender = λ a n f h. ground (
      arith,
      r.by_id,
      r.pending a,
      bytes_eq_iff (sender e.tx) a,
      lookup-remove e.tx.nonce n (pending_of m a),
      i.by_sender a n f,
      lookup-remove e.txid f.txid m.by_id,
      bytes_eq_iff e.txid f.txid,
      same_id m e f found,
    );
  }

  -- What the entry into the indexes does.
  pub record Put (e : MempoolEntry) (m m' : Mempool) : Type 0 where
    pub limits : SameLimits m m'
    pub by_id : m'.by_id ≡ insert e.txid e m.by_id
    pub pending :
        (a : Bytes)
        → pending_of m' a ≡ (
            if bytes_eq (sender e.tx) a
            then insert e.tx.nonce e (pending_of m a)
            else pending_of m a)
    pub bytes : m'.bytes ≡ m.bytes + e.size

  pub Put-IsIndexed :
      (e : MempoolEntry) (m m' : Mempool)
      → IsIndexed m
      → lookup e.txid m.by_id ≡ none
      → lookup e.tx.nonce (pending_of m (sender e.tx)) ≡ none
      → Put e m m'
      → IsIndexed m'
  Put-IsIndexed e m m' i new free r = record {
    dict = rw (r.by_id) (insert-IsDict e.txid e m.by_id i.dict);
    sizes = omega (
      arith,
      r.bytes,
      i.sizes,
      ap (sum_by (λ (f : MempoolEntry). f.size)) r.by_id,
      sum_by-insert_new (λ (f : MempoolEntry). f.size) e.txid e m.by_id new,
    );
    by_id = λ id f h. ground (
      arith,
      r.by_id,
      lookup-insert e.txid id e m.by_id,
      i.by_id id f,
      bytes_eq_iff e.txid id,
      bytes_eq_iff (sender e.tx) (sender f.tx),
      r.pending (sender f.tx),
      lookup-insert e.tx.nonce f.tx.nonce e (pending_of m (sender f.tx)),
    );
    by_sender = λ a n f h. ground (
      arith,
      r.by_id,
      r.pending a,
      bytes_eq_iff (sender e.tx) a,
      lookup-insert e.tx.nonce n e (pending_of m a),
      i.by_sender a n f,
      lookup-insert e.txid f.txid e m.by_id,
      bytes_eq_iff e.txid f.txid,
    );
  }

  pub put_entry-Put : (e : MempoolEntry) (m m' : Mempool) → put_entry e m ≡ ok m' → Put e m m'
  unfolding put_entry pending_of
  put_entry-Put e m m' h =
      let pending = insert e.tx.nonce e (pending_of m (sender e.tx)) in
      let m₁ : Mempool = record m {
        by_id = insert e.txid e m.by_id;
        by_sender = insert (sender e.tx) pending m.by_sender;
        by_receiver = note_receivers (receivers e.tx.outputs) e m.by_receiver;
      } in
      let (last, e₁, h₁) = bind-eq-ok (last_nonce pending) _ h in
      let (m₂, e₂, h₂) =
        bind-eq-ok (if e.tx.nonce == last then push_evictable e m₁ else ok m₁) _ h₁ in
      let pushed : m₂ ≡ record m₁ { evictable = m₂.evictable } =
        ground (arith, push_evictable-eq-ok e m₁ m₂) in
      record {
        limits = record {
          params = cc;
          state = cc;
          max_bytes = cc;
          max_per_sender = cc;
          min_fee_per_byte = cc;
          expiry = cc;
        };
        by_id = cc;
        pending = λ a. ground (
          arith,
          bytes_eq_iff (sender e.tx) a,
          get_or-insert [] pending (sender e.tx) a m.by_sender,
        );
        bytes = cc;
      }
