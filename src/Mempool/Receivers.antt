-- ===== src/Mempool/Receivers.antt =====
-- The dict by receiver in the pool (node/mempool.py).
use tal_cash.Base.{
  Bool-cases, Bytes, List, Option, Option-cases, [], arith, bytes_eq, bytes_eq_iff, false,
  if◌then◌else◌, inl, inr, none, ok, refl, some, true, ◌&&◌, ◌∷◌, ◌≡◌,
}
use tal_cash.Base.Dict.{
  Dict, Key, Table, bytes_Key, contains, delete, get_or, get_or-insert, get_or-remove, insert, item,
  lookup, lookup-insert, lookup-remove, number_Key, remove,
}
use tal_cash.Block.{member}
use tal_cash.Mempool.{MempoolEntry}
use tal_cash.Mempool.Add.{note_receivers}
use tal_cash.Mempool.Evict.{forget_receivers, is_empty, put_back, receivers}
use tal_cash.Mempool.Update.{distinct}
use tal_cash.Tx.{Output}

abbrev pub IsDistinct : List Bytes → Type 0
IsDistinct [] = Unit {0}
IsDistinct (a ∷ rest) = (member a rest ≡ false) × IsDistinct rest

pub receivers-IsDistinct : (os : List Output) → IsDistinct (receivers os)
unfolding receivers
receivers-IsDistinct [] = tt
receivers-IsDistinct (o ∷ os) = elim (Bool-cases (member o.address (receivers os))) [
  | inl again ↦ rw (receivers, again) (receivers-IsDistinct os)
  | inr new ↦ rw (receivers, new) (new, receivers-IsDistinct os)
]

-- The entries that pay `a`.
unfoldable pub paying : Bytes → Bytes → Dict MempoolEntry → Option MempoolEntry
paying a id d = elim (lookup id d) [
  | none ↦ none
  | some e ↦ if member a (receivers e.tx.outputs) then some e else none
]

pub get_or-put_back {ℓ} :
    {V : Type ℓ} {K : Type 0} (a b : Bytes) (rest : Table K V) (d : Dict (Table K V))
    → get_or [] b (put_back a rest d) ≡ (if bytes_eq a b then rest else get_or [] b d)
unfolding put_back is_empty
get_or-put_back a b [] d = get_or-remove [] a b d
get_or-put_back a b (x ∷ rest) d = get_or-insert [] (x ∷ rest) a b d

pub item-get_or {ℓ} :
    {V : Type ℓ} {K : Type 0} ⦃c : Key K⦄ (a : Bytes) (k : K) (d : Dict (Table K V))
    → contains k (get_or [] a d) ≡ true
    → item a d ≡ ok (get_or [] a d)
unfolding get_or item contains lookup
item-get_or a k d h = elim (Option-cases (lookup a d)) [
  | inl missing ↦ absurd (ground arith)
  | inr (t, found) ↦ rw (item, get_or, found) refl
]

pub delete-ok :
    {V : Type 0} {K : Type 0} ⦃c : Key K⦄ (k : K) (d : Table K V)
    → contains k d ≡ true
    → delete k d ≡ ok (remove k d)
unfolding delete
delete-ok k d h = ground arith

-- What is left of the dict.
abbrev pub Forgets :
    List Bytes → Bytes → Dict (Dict MempoolEntry) → Dict (Dict MempoolEntry) → Type 0
Forgets rs id d d' =
    (b j : Bytes)
    → lookup j (get_or [] b d')
      ≡ (if member b rs && bytes_eq id j then none else lookup j (get_or [] b d))

forget_first :
    (a : Bytes) (others : List Bytes) (id : Bytes) (d d' : Dict (Dict MempoolEntry))
    → Forgets others id (put_back a (remove id (get_or [] a d)) d) d'
    → Forgets (a ∷ others) id d d'
unfolding member
forget_first a others id d d' h b j = ground (
  arith,
  h b j,
  get_or-put_back a b (remove id (get_or [] a d)) d,
  lookup-remove id j (get_or [] a d),
  bytes_eq_iff a b,
  bytes_eq_iff b a,
)

pub forget_receivers-total :
    (rs : List Bytes) (id : Bytes) (d : Dict (Dict MempoolEntry))
    → IsDistinct rs
    → ((a : Bytes) → member a rs ≡ true → contains id (get_or [] a d) ≡ true)
    → (d' : Dict (Dict MempoolEntry)) × (forget_receivers rs id d ≡ ok d') × Forgets rs id d d'
unfolding forget_receivers member
forget_receivers-total [] id d distinct known = (d, refl, λ b j. refl)
forget_receivers-total (a ∷ others) id d distinct known =
    let held = known a (ground (arith, bytes_eq_iff a a)) in
    let d₁ = put_back a (remove id (get_or [] a d)) d in
    let (d', done, forgets) = forget_receivers-total others id d₁ distinct.1 (λ b h. ground (
      arith,
      known b,
      bytes_eq_iff a b,
      bytes_eq_iff b a,
      get_or-put_back a b (remove id (get_or [] a d)) d,
    )) in
    (
      d',
      rw (forget_receivers, item-get_or a id d held, delete-ok id (get_or [] a d) held, done) refl,
      forget_first a others id d d' forgets,
    )

pub note_receivers-lookup :
    (rs : List Bytes) (e : MempoolEntry) (d : Dict (Dict MempoolEntry)) (b j : Bytes)
    → lookup j (get_or [] b (note_receivers rs e d))
      ≡ (if member b rs && bytes_eq e.txid j then some e else lookup j (get_or [] b d))
unfolding note_receivers member
note_receivers-lookup [] e d b j = refl
note_receivers-lookup (a ∷ others) e d b j = ground (
  arith,
  note_receivers-lookup others e (insert a (insert e.txid e (get_or [] a d)) d) b j,
  get_or-insert [] (insert e.txid e (get_or [] a d)) a b d,
  lookup-insert e.txid j e (get_or [] a d),
  bytes_eq_iff a b,
  bytes_eq_iff b a,
)
