-- ===== src/Mempool/Queue.antt =====
-- One sender's waiting transfers (node/mempool.py): what putting, replacing and dropping the last one
-- does to the run of nonces and to what they spend.
use tal_cash.Base.{
  Option-cases, [], ap, arith, false, if◌then◌else◌, inl, inr, length, max, none, ok, refl, some,
  true, ℕ, ◌+◌, ◌-◌, ◌==◌, ◌∷◌, ◌≡◌, ◌≤◌, ◌⊎◌,
}
use tal_cash.Base.Dict.{
  bytes_Key, contains, contains-insert, contains-remove, contains-some, insert, insert-IsDict,
  length-insert_new, length-remove, lookup, lookup-remove, number_Key, remove, remove-IsDict,
  remove_missing, sum_by, sum_by-insert_new, sum_by-remove,
}
use tal_cash.Mempool.{MempoolEntry, Pending, max_key}
use tal_cash.Mempool.Add.{spent_besides}
use tal_cash.Mempool.Evict.{last_nonce}
use tal_cash.Mempool.Pool.{IsQueue}
use tal_cash.State.{Account}
use tal_cash.Tx.{total_spent}

abbrev spent : Pending → ℕ
spent p = sum_by (λ e. total_spent e.tx) p

spent_besides-remove : (n : ℕ) (p : Pending) → spent_besides n p ≡ spent (remove n p)
unfolding spent_besides remove sum_by
spent_besides-remove n [] = refl
spent_besides-remove n ((k, e) ∷ p) = ground (arith, spent_besides-remove n p)

pub IsQueue-empty : (account : Account) → IsQueue account []
unfolding contains lookup sum_by
IsQueue-empty account = record { dict = tt; no_gap = λ n. ground arith; covered = omega arith }

-- The next nonce.
pub IsQueue-put :
    (account : Account) (p : Pending) (e : MempoolEntry)
    → IsQueue account p
    → e.tx.nonce ≡ account.nonce + length p
    → lookup e.tx.nonce p ≡ none
    → total_spent e.tx + spent_besides e.tx.nonce p ≤ account.balance
    → IsQueue account (insert e.tx.nonce e p)
IsQueue-put account p e q next new fits = record {
  dict = insert-IsDict e.tx.nonce e p q.dict;
  no_gap = λ n.
      ground
        (arith, contains-insert e.tx.nonce n e p, q.no_gap n, length-insert_new e.tx.nonce e p new);
  covered = omega (
    arith,
    sum_by-insert_new (λ (f : MempoolEntry). total_spent f.tx) e.tx.nonce e p new,
    spent_besides-remove e.tx.nonce p,
    ap spent (remove_missing e.tx.nonce p new),
  );
}

-- A nonce that waits already.
pub IsQueue-replace :
    (account : Account) (p : Pending) (e old : MempoolEntry)
    → IsQueue account p
    → lookup e.tx.nonce p ≡ some old
    → total_spent e.tx + spent_besides e.tx.nonce p ≤ account.balance
    → IsQueue account (insert e.tx.nonce e (remove e.tx.nonce p))
IsQueue-replace account p e old q found fits =
    let gone : lookup e.tx.nonce (remove e.tx.nonce p) ≡ none =
      ground (arith, lookup-remove e.tx.nonce e.tx.nonce p) in
    record {
      dict = insert-IsDict e.tx.nonce e (remove e.tx.nonce p) (remove-IsDict e.tx.nonce p q.dict);
      no_gap = λ n. ground (
        arith,
        contains-insert e.tx.nonce n e (remove e.tx.nonce p),
        contains-remove e.tx.nonce n p,
        contains-some e.tx.nonce old p found,
        q.no_gap n,
        length-insert_new e.tx.nonce e (remove e.tx.nonce p) gone,
        length-remove e.tx.nonce old p q.dict found,
      );
      covered = omega (
        arith,
        sum_by-insert_new (λ (f : MempoolEntry). total_spent f.tx) e.tx.nonce e
            (remove e.tx.nonce p) gone,
        spent_besides-remove e.tx.nonce p,
      );
    }

-- The last nonce.
pub IsQueue-drop_last :
    (account : Account) (p : Pending) (e : MempoolEntry) (n : ℕ)
    → IsQueue account p
    → lookup n p ≡ some e
    → n + 1 ≡ account.nonce + length p
    → IsQueue account (remove n p)
IsQueue-drop_last account p e n q found last = record {
  dict = remove-IsDict n p q.dict;
  no_gap = λ k. ground (arith, contains-remove n k p, q.no_gap k, length-remove n e p q.dict found);
  covered =
      omega (
        arith,
        q.covered,
        sum_by-remove (λ (f : MempoolEntry). total_spent f.tx) n e p q.dict found,
      );
}

pub max_key-none : (k : ℕ) (p : Pending) → max_key p ≡ none → contains k p ≡ false
unfolding max_key contains lookup
max_key-none k [] h = refl
max_key-none k ((j, e) ∷ p) h = ground arith

-- The greatest key of a table with one entry more.
max_key-more :
    (j n : ℕ) (e : MempoolEntry) (p : Pending)
    → max_key ((j, e) ∷ p) ≡ some n
    → ((max_key p ≡ none) × (n ≡ j)) ⊎ ((m : ℕ) × (max_key p ≡ some m) × (n ≡ max j m))
unfolding max_key
max_key-more j n e p h = elim (Option-cases (max_key p)) [
  | inl missing ↦ inl (missing, ground arith)
  | inr (m, found) ↦ inr (m, found, ground arith)
]

contains-more :
    (j k : ℕ) (e : MempoolEntry) (p : Pending)
    → contains k ((j, e) ∷ p) ≡ (if j == k then true else contains k p)
unfolding contains lookup
contains-more j k e p = ground arith

-- `max(pending)` is the last nonce.
pub max_key-bounds : (p : Pending) (n k : ℕ) → max_key p ≡ some n → contains k p ≡ true → k ≤ n
unfolding max_key contains lookup
max_key-bounds [] n k h c = cc
max_key-bounds ((j, e) ∷ p) n k h c = elim (max_key-more j n e p h) [
  | inl (missing, q) ↦ ground (arith, contains-more j k e p, max_key-none k p missing)
  | inr (m, found, q) ↦ ground (arith, contains-more j k e p, max_key-bounds p m k found)
]

pub max_key-contains : (p : Pending) (n : ℕ) → max_key p ≡ some n → contains n p ≡ true
unfolding max_key contains lookup
max_key-contains [] n h = cc
max_key-contains ((j, e) ∷ p) n h = elim (max_key-more j n e p h) [
  | inl (missing, q) ↦ ground (arith, contains-more j n e p)
  | inr (m, found, q) ↦ ground (arith, contains-more j n e p, max_key-contains p m found)
]

pub last_nonce-next :
    (account : Account) (p : Pending) (n : ℕ)
    → IsQueue account p
    → last_nonce p ≡ ok n
    → n + 1 ≡ account.nonce + length p
unfolding last_nonce
last_nonce-next account p n q h =
    let found : max_key p ≡ some n = ground arith in
    ground (
      arith,
      max_key-contains p n found,
      max_key-bounds p n (account.nonce + length p - 1) found,
      q.no_gap n,
      q.no_gap (account.nonce + length p - 1),
    )
