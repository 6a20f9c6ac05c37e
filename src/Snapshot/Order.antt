-- ===== src/Snapshot/Order.antt =====
-- The state root does not depend on the order in which the accounts come.
use mathlib.Core.List.{Permᴰ}
use tal_cash.Base.{
  Bool-cases, Bytes, List, [], ap, arith, bytes_eq, bytes_eq_iff, false, if◌then◌else◌, inl, inr,
  refl, subst, sym, true, ◌∙◌, ◌∷◌, ◌≡◌, ◌⊎◌,
}
use tal_cash.Crypto.{Crypto}
use tal_cash.Snapshot.{
  Entry, bytes_le, has_twice, insert_entry, non_empty, sort_entries, state_root,
}
use tal_cash.State.{account_eq, empty_account}

bytes_le_total : (xs ys : Bytes) → bytes_le xs ys ≡ false → bytes_le ys xs ≡ true
unfolding bytes_le
bytes_le_total [] ys h = cc
bytes_le_total (x ∷ xs) [] h = refl
bytes_le_total (x ∷ xs) (y ∷ ys) h = ground (arith, bytes_le_total xs ys)

bytes_le_trans :
    (xs ys zs : Bytes) → bytes_le xs ys ≡ true → bytes_le ys zs ≡ true → bytes_le xs zs ≡ true
unfolding bytes_le
bytes_le_trans [] ys zs h k = refl
bytes_le_trans (x ∷ xs) [] zs h k = cc
bytes_le_trans (x ∷ xs) (y ∷ ys) [] h k = cc
bytes_le_trans (x ∷ xs) (y ∷ ys) (z ∷ zs) h k = ground (arith, bytes_le_trans xs ys zs)

bytes_le_antisym :
    (xs ys : Bytes) → bytes_le xs ys ≡ true → bytes_le ys xs ≡ true → bytes_eq xs ys ≡ true
unfolding bytes_le bytes_eq
bytes_le_antisym [] [] h k = refl
bytes_le_antisym [] (y ∷ ys) h k = cc
bytes_le_antisym (x ∷ xs) [] h k = cc
bytes_le_antisym (x ∷ xs) (y ∷ ys) h k = ground (arith, bytes_le_antisym xs ys)

-- Inserting two entries with different keys: the order does not count.
insert_entry-swap :
    (e f : Entry) (es : List Entry)
    → bytes_eq e.0 f.0 ≡ false
    → insert_entry e (insert_entry f es) ≡ insert_entry f (insert_entry e es)
unfolding insert_entry
insert_entry-swap e f [] ne = ground (
  arith,
  bytes_le_total e.0 f.0,
  bytes_le_total f.0 e.0,
  bytes_le_antisym e.0 f.0,
  bytes_le_antisym f.0 e.0,
)
insert_entry-swap e f (g ∷ es) ne = ground (
  arith,
  insert_entry-swap e f es ne,
  bytes_le_total e.0 f.0,
  bytes_le_total e.0 g.0,
  bytes_le_total f.0 g.0,
  bytes_le_total f.0 e.0,
  bytes_le_antisym e.0 f.0,
  bytes_le_trans e.0 f.0 g.0,
  bytes_le_trans f.0 e.0 g.0,
)

-- Two entries with one key become neighbours.
has_twice-insert_entry :
    (e : Entry) (es : List Entry) → has_twice es ≡ true → has_twice (insert_entry e es) ≡ true
unfolding has_twice insert_entry
has_twice-insert_entry e [] h = cc
has_twice-insert_entry e (f ∷ []) h = cc
has_twice-insert_entry e (f ∷ g ∷ es) h =
    ground (arith, has_twice-insert_entry e (g ∷ es), bytes_eq_iff f.0 g.0)

has_twice-cons : (e : Entry) (es : List Entry) → has_twice es ≡ true → has_twice (e ∷ es) ≡ true
unfolding has_twice
has_twice-cons e [] h = cc
has_twice-cons e (f ∷ es) h = ground (arith, h)

same_test : (e f g : Entry) → e.0 ≡ f.0 → bytes_le e.0 g.0 ≡ bytes_le f.0 g.0
same_test e f g same = ap (λ (k : Bytes). bytes_le k g.0) same

has_twice-same_key :
    (e f : Entry) (es : List Entry)
    → e.0 ≡ f.0
    → has_twice (insert_entry e (insert_entry f es)) ≡ true
unfolding has_twice insert_entry
has_twice-same_key e f [] same = ground (arith, bytes_eq_iff e.0 f.0, bytes_eq_iff f.0 e.0, same)
has_twice-same_key e f (g ∷ es) same = ground (
  arith,
  has_twice-same_key e f es same,
  has_twice-cons g (insert_entry e (insert_entry f es)),
  bytes_eq_iff e.0 f.0,
  bytes_eq_iff f.0 e.0,
  same_test e f g same,
  same,
)

-- Sorted lists that `state_root` treats alike: equal, or both with a key twice.
abbrev Alike : List Entry → List Entry → Type 0
Alike es fs = (es ≡ fs) ⊎ ((has_twice es ≡ true) × (has_twice fs ≡ true))

Alike-trans : (es fs gs : List Entry) → Alike es fs → Alike fs gs → Alike es gs
Alike-trans es fs gs (inl p) (inl q) = inl (p ∙ q)
Alike-trans es fs gs (inl p) (inr (a, b)) = inr (ap has_twice p ∙ a, b)
Alike-trans es fs gs (inr (a, b)) (inl q) = inr (a, ap has_twice (sym q) ∙ b)
Alike-trans es fs gs (inr (a, b)) (inr (c, d)) = inr (a, d)

Alike-insert_entry :
    (e : Entry) (es fs : List Entry) → Alike es fs → Alike (insert_entry e es) (insert_entry e fs)
Alike-insert_entry e es fs (inl p) = inl (ap (insert_entry e) p)
Alike-insert_entry e es fs (inr (a, b)) =
    inr (has_twice-insert_entry e es a, has_twice-insert_entry e fs b)

Alike-swap :
    (e f : Entry) (es : List Entry)
    → Alike (insert_entry e (insert_entry f es)) (insert_entry f (insert_entry e es))
Alike-swap e f es = elim (Bool-cases (bytes_eq e.0 f.0)) [
  | inl same ↦
      let key = (bytes_eq_iff e.0 f.0).0 same in
      inr (has_twice-same_key e f es key, has_twice-same_key f e es (sym key))
  | inr other ↦ inl (insert_entry-swap e f es other)
]

-- What `state_root` sorts.
abbrev ordered : List Entry → List Entry
ordered es = sort_entries (non_empty es)

ordered-keep :
    (e : Entry) (es : List Entry)
    → ordered (e ∷ es)
      ≡ (if account_eq e.1 empty_account then ordered es else insert_entry e (ordered es))
unfolding non_empty sort_entries
ordered-keep e es = ground arith

ordered-cons :
    (e : Entry) (es fs : List Entry)
    → Alike (ordered es) (ordered fs)
    → Alike (ordered (e ∷ es)) (ordered (e ∷ fs))
ordered-cons e es fs h = elim (Bool-cases (account_eq e.1 empty_account)) [
  | inl empty ↦ rw (ordered-keep e es, ordered-keep e fs, empty) h
  | inr kept ↦
      rw (ordered-keep e es, ordered-keep e fs, kept)
        (Alike-insert_entry e (ordered es) (ordered fs) h)
]

ordered-swap : (e f : Entry) (es : List Entry) → Alike (ordered (e ∷ f ∷ es)) (ordered (f ∷ e ∷ es))
ordered-swap e f es =
    let first = ordered-keep e (f ∷ es) in
    let second = ordered-keep f (e ∷ es) in
    elim (Bool-cases (account_eq e.1 empty_account)) [
      | inl empty ↦ inl (rw (first, second, ordered-keep e es, ordered-keep f es, empty) refl)
      | inr kept ↦ elim (Bool-cases (account_eq f.1 empty_account)) [
        | inl empty ↦
            inl (rw (first, second, ordered-keep e es, ordered-keep f es, kept, empty) refl)
        | inr both ↦
            rw (first, second, ordered-keep e es, ordered-keep f es, kept, both)
              (Alike-swap e f (ordered es))
      ]
    ]

ordered-Alike : (es fs : List Entry) → Permᴰ es fs → Alike (ordered es) (ordered fs)
ordered-Alike es fs Permᴰ.nil = inl refl
ordered-Alike (e ∷ es) (f ∷ fs) (Permᴰ.cons p q) =
    subst (λ x. Alike (ordered (e ∷ es)) (ordered (x ∷ fs))) p
      (ordered-cons e es fs (ordered-Alike es fs q))
ordered-Alike (e ∷ f ∷ es) (f' ∷ e' ∷ _) (Permᴰ.swap p q) =
    subst (λ x. Alike (ordered (e ∷ f ∷ es)) (ordered (f' ∷ x ∷ es))) p
      (subst (λ x. Alike (ordered (e ∷ f ∷ es)) (ordered (x ∷ e ∷ es))) q (ordered-swap e f es))
ordered-Alike es fs (Permᴰ.trans {l₂ = gs} p q) =
    Alike-trans (ordered es) (ordered gs) (ordered fs) (ordered-Alike es gs p)
      (ordered-Alike gs fs q)

module _ ⦃c : Crypto⦄ where
  -- state_root gives the same result, a root or an error, for every order of the accounts.
  pub state_root_order :
      (accounts others : List Entry)
      → Permᴰ accounts others
      → state_root accounts ≡ state_root others
  unfolding state_root
  state_root_order accounts others p = elim (ordered-Alike accounts others p) [
    | inl same ↦ rw same refl
    | inr (a, b) ↦ rw (a, b) refl
  ]
