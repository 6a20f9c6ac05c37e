-- ===== src/Mempool/Pool.antt =====
-- The invariants of the pool (node/mempool.py), and what `_remove` does to its indexes.
use tal_cash.Base.{
  Bytes, Result, [], arith, bind-eq-ok, bytes_eq, bytes_eq_iff, if◌then◌else◌, leb, length, ltb, ok,
  refl, some, ℕ, ◌&&◌, ◌+◌, ◌-◌, ◌∙◌, ◌∷◌, ◌≡◌, ◌≤◌,
}
use tal_cash.Base.Dict.{
  Dict, IsDict, bytes_Key, contains, delete, delete-eq-ok, get_or, get_or-insert, get_or-remove,
  get_or-some, item, item-eq-ok, lookup, number_Key, remove, sum_by,
}
use tal_cash.Crypto.{Crypto}
use tal_cash.Mempool.{Mempool, MempoolEntry, Pending, pending_of}
use tal_cash.Mempool.Evict.{
  forget_receivers, is_empty, push_evictable, push_last, put_back, receivers, remove_entry,
}
use tal_cash.State.{Account}
use tal_cash.Tx.{sender, total_spent}

-- One sender's waiting transfers: the nonces follow on from the account's, and its balance covers all.
pub record IsQueue (account : Account) (p : Pending) : Type 0 where
  pub dict : IsDict p
  pub no_gap : (n : ℕ) → contains n p ≡ (leb account.nonce n && ltb n (account.nonce + length p))
  pub covered : sum_by (λ e. total_spent e.tx) p ≤ account.balance

module _ ⦃c : Crypto⦄ where
  -- The dict by id and the dict by sender hold the same entries, and the sizes add up.
  pub record IsIndexed (m : Mempool) : Type 0 where
    pub dict : IsDict m.by_id
    pub sizes : m.bytes ≡ sum_by (λ e. e.size) m.by_id
    pub by_id :
        (id : Bytes) (e : MempoolEntry)
        → lookup id m.by_id ≡ some e
        → (e.txid ≡ id) × (lookup e.tx.nonce (pending_of m (sender e.tx)) ≡ some e)
    pub by_sender :
        (a : Bytes) (n : ℕ) (e : MempoolEntry)
        → lookup n (pending_of m a) ≡ some e
        → (sender e.tx ≡ a) × (e.tx.nonce ≡ n) × (lookup e.txid m.by_id ≡ some e)

  -- What a step leaves alone.
  pub record SameLimits (m m' : Mempool) : Type 0 where
    pub params : m'.params ≡ m.params
    pub state : m'.state ≡ m.state
    pub max_bytes : m'.max_bytes ≡ m.max_bytes
    pub max_per_sender : m'.max_per_sender ≡ m.max_per_sender
    pub min_fee_per_byte : m'.min_fee_per_byte ≡ m.min_fee_per_byte
    pub expiry : m'.expiry ≡ m.expiry

  pub SameLimits-refl : (m : Mempool) → SameLimits m m
  SameLimits-refl m = record {
    params = refl;
    state = refl;
    max_bytes = refl;
    max_per_sender = refl;
    min_fee_per_byte = refl;
    expiry = refl;
  }

  pub SameLimits-trans :
      {m m' m'' : Mempool} → SameLimits m m' → SameLimits m' m'' → SameLimits m m''
  SameLimits-trans s t = record {
    params = t.params ∙ s.params;
    state = t.state ∙ s.state;
    max_bytes = t.max_bytes ∙ s.max_bytes;
    max_per_sender = t.max_per_sender ∙ s.max_per_sender;
    min_fee_per_byte = t.min_fee_per_byte ∙ s.min_fee_per_byte;
    expiry = t.expiry ∙ s.expiry;
  }

  -- `_push_evictable` only writes the heap.
  pub push_evictable-eq-ok :
      (e : MempoolEntry) (m m' : Mempool)
      → push_evictable e m ≡ ok m'
      → m' ≡ record m { evictable = m'.evictable }
  unfolding push_evictable
  push_evictable-eq-ok e m m' h = ground arith

  pub push_last-eq-ok :
      (nonce : ℕ) (rest : Pending) (m m' : Mempool)
      → push_last nonce rest m ≡ ok m'
      → m' ≡ record m { evictable = m'.evictable }
  unfolding push_last push_evictable
  push_last-eq-ok nonce rest m m' h = ground arith

  -- What `_remove` does.
  pub record Removed (e : MempoolEntry) (m m' : Mempool) : Type 0 where
    pub limits : SameLimits m m'
    pub by_id : m'.by_id ≡ remove e.txid m.by_id
    pub pending :
        (a : Bytes)
        → pending_of m' a ≡ (
            if bytes_eq (sender e.tx) a then remove e.tx.nonce (pending_of m a) else pending_of m a)
    pub bytes : m'.bytes ≡ m.bytes - e.size

  pending_of-put_back :
      (m : Mempool) (a b : Bytes) (rest : Pending)
      → get_or [] b (put_back a rest m.by_sender)
        ≡ (if bytes_eq a b then rest else get_or [] b m.by_sender)
  unfolding put_back is_empty
  pending_of-put_back m a b [] = get_or-remove [] a b m.by_sender
  pending_of-put_back m a b (x ∷ rest) = get_or-insert [] (x ∷ rest) a b m.by_sender

  Removed-made :
      (e : MempoolEntry) (m m' : Mempool) (by_id : Dict MempoolEntry) (pending rest : Pending)
      (receivers' : Dict (Dict MempoolEntry)) (m₂ : Mempool)
      → m₂ ≡ record m {
        by_id = by_id;
        by_sender = put_back (sender e.tx) rest m.by_sender;
        evictable = m₂.evictable;
      }
      → ◌≡◌ {A = Result Mempool}
          (ok (record m₂ { by_receiver = receivers'; bytes = m₂.bytes - e.size }))
          (ok m')
      → by_id ≡ remove e.txid m.by_id
      → pending_of m (sender e.tx) ≡ pending
      → rest ≡ remove e.tx.nonce pending
      → Removed e m m'
  unfolding pending_of
  Removed-made e m m' by_id pending rest receivers' m₂ pushed made removed at_sender left = record {
    limits = record {
      params = cc;
      state = cc;
      max_bytes = cc;
      max_per_sender = cc;
      min_fee_per_byte = cc;
      expiry = cc;
    };
    by_id = cc;
    pending = λ a.
        ground (arith, bytes_eq_iff (sender e.tx) a, pending_of-put_back m (sender e.tx) a rest);
    bytes = cc;
  }

  pub remove_entry-Removed :
      (e : MempoolEntry) (m m' : Mempool) → remove_entry e m ≡ ok m' → Removed e m m'
  unfolding remove_entry pending_of get_or
  remove_entry-Removed e m m' h =
      let (by_id, e₁, h₁) = bind-eq-ok (delete e.txid m.by_id) _ h in
      let (pending, e₂, h₂) = bind-eq-ok (item (sender e.tx) m.by_sender) _ h₁ in
      let (rest, e₃, h₃) = bind-eq-ok (delete e.tx.nonce pending) _ h₂ in
      let m₁ : Mempool = record m {
        by_id = by_id;
        by_sender = put_back (sender e.tx) rest m.by_sender;
      } in
      let (m₂, e₄, h₄) = bind-eq-ok (push_last e.tx.nonce rest m₁) _ h₃ in
      let (receivers', e₅, h₅) =
        bind-eq-ok (forget_receivers (receivers e.tx.outputs) e.txid m₂.by_receiver) _ h₄ in
      let pushed = push_last-eq-ok e.tx.nonce rest m₁ m₂ e₄ in
      Removed-made e m m' by_id pending rest receivers' m₂ pushed h₅
        (delete-eq-ok e.txid m.by_id by_id e₁).1
        (get_or-some [] (sender e.tx) m.by_sender pending
          (item-eq-ok (sender e.tx) m.by_sender pending e₂))
        (delete-eq-ok e.tx.nonce pending rest e₃).1
