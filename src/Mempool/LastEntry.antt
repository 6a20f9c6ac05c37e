-- ===== src/Mempool/LastEntry.antt =====
-- The dict by sender and the eviction heap when an entry leaves (node/mempool.py).
use tal_cash.Base.{
  Bool-cases, Bytes, Option-cases, [], arith, bytes_eq, bytes_eq_iff, false, if◌then◌else◌, inl,
  inr, ltb, none, ok, refl, some, subst, sym, true, ℕ, ◌∙◌, ◌∷◌, ◌≡◌,
}
use tal_cash.Base.Dict.{
  Dict, bytes_Key, contains, contains-remove, insert, item-some, lookup, lookup-insert,
  lookup-remove, number_Key, remove,
}
use tal_cash.Mempool.{Mempool, MempoolEntry, Pending, max_key}
use tal_cash.Mempool.Evict.{candidate_of, is_empty, last_entry, push_last, put_back}
use tal_cash.Mempool.Heap.{
  AllWaiting, Pushed, last_entry-found, lookup-max_key, max_key-some, push_evictable-total, queued,
}
use tal_cash.Mempool.Queue.{max_key-bounds, max_key-contains}

-- The dict by sender.
pub lookup-put_back :
    (a b : Bytes) (rest : Pending) (d : Dict Pending)
    → lookup b (put_back a rest d)
      ≡ (if bytes_eq a b then if is_empty rest then none else some rest else lookup b d)
unfolding put_back is_empty
lookup-put_back a b [] d = ground (arith, lookup-remove a b d)
lookup-put_back a b (x ∷ rest) d = ground (arith, lookup-insert a b (x ∷ rest) d)

pub insert-AllWaiting :
    (a : Bytes) (p : Pending) (d : Dict Pending)
    → is_empty p ≡ false
    → AllWaiting d
    → AllWaiting (insert a p d)
unfolding insert
insert-AllWaiting a p [] h w = (h, tt)
insert-AllWaiting a p ((b, q) ∷ d) h w = ground (arith, insert-AllWaiting a p d h w.1)

pub remove-AllWaiting : (a : Bytes) (d : Dict Pending) → AllWaiting d → AllWaiting (remove a d)
unfolding remove
remove-AllWaiting a [] w = tt
remove-AllWaiting a ((b, q) ∷ d) w = ground (arith, remove-AllWaiting a d w.1)

pub put_back-AllWaiting :
    (a : Bytes) (p : Pending) (d : Dict Pending) → AllWaiting d → AllWaiting (put_back a p d)
unfolding put_back
put_back-AllWaiting a p d w = elim (Bool-cases (is_empty p)) [
  | inl e ↦ rw (put_back, e) (remove-AllWaiting a d w)
  | inr e ↦ rw (put_back, e) (insert-AllWaiting a p d e w)
]

pub max_key-is_empty : (p : Pending) → max_key p ≡ none → is_empty p ≡ true
max_key-is_empty p h = elim (Bool-cases (is_empty p)) [
  | inl e ↦ e
  | inr e ↦ let (n, found) = max_key-some p e in cc
]

pub contains-is_empty : (n : ℕ) (p : Pending) → contains n p ≡ true → is_empty p ≡ false
unfolding contains lookup is_empty
contains-is_empty n [] h = cc
contains-is_empty n (x ∷ p) h = refl

-- A removal below the last entry.
pub last_entry-remove :
    (n last : ℕ) (p : Pending)
    → max_key (remove n p) ≡ some last
    → ltb last n ≡ false
    → last_entry (remove n p) ≡ last_entry p
last_entry-remove n last p h above =
    let at = max_key-contains (remove n p) last h in
    let at_p : contains last p ≡ true = ground (arith, contains-remove n last p) in
    let (k, found) = max_key-some p (contains-is_empty last p at_p) in
    let same : k ≡ last = ground (
      arith,
      contains-remove n last p,
      max_key-bounds p k last found,
      max_key-contains p k found,
      contains-remove n k p,
      max_key-bounds (remove n p) last k h,
    ) in
    let (e, there) = lookup-max_key p k found in
    last_entry-found (remove n p) last e h
      (ground (arith, lookup-remove n last p, contains-remove n last p))
    ∙ sym (last_entry-found p k e found there)

-- The dict by sender and the heap after a removal, before the push.
pub push_last-total :
    (a : Bytes) (nonce : ℕ) (pending : Pending) (m m₁ : Mempool)
    → AllWaiting m.by_sender
    → ((b : Bytes) (p : Pending) (f : MempoolEntry)
        → bytes_eq a b ≡ false
        → lookup b m.by_sender ≡ some p
        → last_entry p ≡ ok f
        → queued f.txid m.evictable ≡ true)
    → ((f : MempoolEntry)
        → last_entry (remove nonce pending) ≡ ok f
        → last_entry pending ≡ ok f
        → queued f.txid m.evictable ≡ true)
    → lookup a m.by_sender ≡ some pending
    → m₁.by_sender ≡ put_back a (remove nonce pending) m.by_sender
    → m₁.evictable ≡ m.evictable
    → (m' : Mempool) × (push_last nonce (remove nonce pending) m₁ ≡ ok m') × Pushed m₁ m'
unfolding push_last queued candidate_of
push_last-total a nonce pending m m₁ waiting covers_others covers_last at_sender sent heap =
    let rest = remove nonce pending in
    let waiting₁ : AllWaiting m₁.by_sender =
      subst AllWaiting (sym sent) (put_back-AllWaiting a rest m.by_sender waiting) in
    let stay : ((e : MempoolEntry)
          → last_entry rest ≡ ok e
          → is_empty rest ≡ false
          → queued e.txid m.evictable ≡ true)
        → Pushed m₁ m₁ =
      λ last_queued. record {
        rest = refl;
        covers = λ b p f found last. ground (
          arith,
          covers_others b p f,
          lookup-put_back a b rest m.by_sender,
          bytes_eq_iff a b,
          last_queued f,
        );
        grows = omega arith;
      } in
    elim (Option-cases (max_key rest)) [
      | inl left ↦ (
        m₁,
        rw (push_last, left) refl,
        stay (λ e last some_left. cc (max_key-is_empty rest left)),
      )
      | inr (last, found) ↦ elim (Bool-cases (ltb last nonce)) [
        | inr above ↦ (
          m₁,
          rw (push_last, found, above) refl,
          stay (λ e h some_left.
              covers_last e h (sym (last_entry-remove nonce last pending found above) ∙ h)),
        )
        | inl below ↦
            let (f, there) = lookup-max_key rest last found in
            let new = last_entry-found rest last f found there in
            let (m', done, pushed) = push_evictable-total f m₁ waiting₁ (λ b p g at h. ground (
              arith,
              covers_others b p g,
              lookup-put_back a b rest m.by_sender,
              bytes_eq_iff a b,
              new,
              bytes_eq_iff f.txid g.txid,
            )) in
            (m', rw (push_last, found, below, item-some last rest f there) done, pushed)
      ]
    ]
