-- ===== src/Base/Dict.antt =====
-- Python's `dict`: entries in the order of insertion. Keys are bytes or numbers.
use tal_cash.Base.{
  ==_iff, Bool, Bool-cases, Bytes, List, Option, Result, [], ap, arith, bytes_eq, bytes_eq_iff, err,
  false, if◌then◌else◌, inl, inr, key_error, length, none, ok, refl, some, true, ℕ, ◌&&◌, ◌++◌, ◌+◌,
  ◌==◌, ◌↔◌, ◌∷◌, ◌≡◌,
}

-- The equality of keys.
pub record Key (K : Type 0) : Type 0 where
  pub same : K → K → Bool
  pub same_iff : (j k : K) → (same j k ≡ true) ↔ (j ≡ k)

instance abbrev pub bytes_Key : Key Bytes
bytes_Key = record { same = bytes_eq; same_iff = bytes_eq_iff }

instance abbrev pub number_Key : Key ℕ
number_Key = record { same = λ j k. j == k; same_iff = ==_iff }

pub pair_same : (j k : ℕ × ℕ) → ((j.0 == k.0 && j.1 == k.1) ≡ true) ↔ (j ≡ k)
pair_same j k = ground arith

instance abbrev pub pair_Key : Key (ℕ × ℕ)
pair_Key = record { same = λ j k. j.0 == k.0 && j.1 == k.1; same_iff = λ j k. pair_same j k }

abbrev pub Table {ℓ} : Type 0 → Type ℓ → Type ℓ
Table K V = List (K × V)

abbrev pub Dict {ℓ} : Type ℓ → Type ℓ
Dict V = Table Bytes V

module _ {ℓ} {K : Type 0} ⦃c : Key K⦄ {V : Type ℓ} where
  -- `d.get(k)`
  unfoldable pub lookup : K → Table K V → Option V
  lookup k [] = none
  lookup k ((j, v) ∷ d) = if c.same j k then some v else lookup k d

  -- `k in d`
  unfoldable pub contains : K → Table K V → Bool
  contains k d = elim (lookup k d) [ none ↦ false | some _ ↦ true ]

  -- `d.get(k, default)`
  unfoldable pub get_or : V → K → Table K V → V
  get_or default k d = elim (lookup k d) [ none ↦ default | some v ↦ v ]

  -- `d[k]`
  unfoldable pub item : K → Table K V → Result V
  item k d = elim (lookup k d) [ none ↦ err key_error | some v ↦ ok v ]

  unfoldable pub values : Table K V → List V
  values [] = []
  values ((k, v) ∷ d) = v ∷ values d

  -- `d[k] = v`
  unfoldable pub insert : K → V → Table K V → Table K V
  insert k v [] = (k, v) ∷ []
  insert k v ((j, w) ∷ d) = if c.same j k then (k, v) ∷ d else (j, w) ∷ insert k v d

  -- `d.pop(k, None)`
  unfoldable pub remove : K → Table K V → Table K V
  remove k [] = []
  remove k ((j, w) ∷ d) = let rest = remove k d in if c.same j k then rest else (j, w) ∷ rest

  -- `del d[k]`
  unfoldable pub delete : K → Table K V → Result (Table K V)
  delete k d = if contains k d then ok (remove k d) else err key_error

  pub lookup-insert :
      (k j : K) (v : V) (d : Table K V)
      → lookup j (insert k v d) ≡ (if c.same k j then some v else lookup j d)
  unfolding lookup insert
  lookup-insert k j v [] = refl
  lookup-insert k j v ((i, w) ∷ d) =
      ground (arith, c.same_iff k j, c.same_iff i k, c.same_iff i j, lookup-insert k j v d)

  pub lookup-remove :
      (k j : K) (d : Table K V) → lookup j (remove k d) ≡ (if c.same k j then none else lookup j d)
  unfolding lookup remove
  lookup-remove k j [] = ground arith
  lookup-remove k j ((i, w) ∷ d) =
      ground (arith, c.same_iff k j, c.same_iff i k, c.same_iff i j, lookup-remove k j d)

  -- No key stands twice.
  abbrev pub IsDict : Table K V → Type ℓ
  IsDict [] = Unit {ℓ}
  IsDict ((k, v) ∷ d) = (lookup k d ≡ none) × IsDict d

  pub insert-IsDict : (k : K) (v : V) (d : Table K V) → IsDict d → IsDict (insert k v d)
  unfolding insert lookup
  insert-IsDict k v [] h = (refl, tt)
  insert-IsDict k v ((j, w) ∷ d) h =
      ground (arith, c.same_iff j k, c.same_iff k j, lookup-insert k j v d, insert-IsDict k v d h.1)

  -- The sum of a measure over the values.
  unfoldable pub sum_by : (V → ℕ) → Table K V → ℕ
  sum_by f [] = 0
  sum_by f ((k, v) ∷ d) = f v + sum_by f d

  pub sum_by-insert :
      (f : V → ℕ) (k : K) (v old : V) (d : Table K V)
      → lookup k d ≡ some old
      → sum_by f (insert k v d) + f old ≡ sum_by f d + f v
  unfolding insert lookup sum_by
  sum_by-insert f k v old [] h = cc
  sum_by-insert f k v old ((j, w) ∷ d) h = ground (arith, sum_by-insert f k v old d)

  pub sum_by-insert_new :
      (f : V → ℕ) (k : K) (v : V) (d : Table K V)
      → lookup k d ≡ none
      → sum_by f (insert k v d) ≡ sum_by f d + f v
  unfolding insert lookup sum_by
  sum_by-insert_new f k v [] h = omega arith
  sum_by-insert_new f k v ((j, w) ∷ d) h = ground (arith, sum_by-insert_new f k v d)

  pub remove_missing : (k : K) (d : Table K V) → lookup k d ≡ none → remove k d ≡ d
  unfolding lookup remove
  remove_missing k [] h = refl
  remove_missing k ((j, w) ∷ d) h = elim (Bool-cases (c.same j k)) [
    | inl e ↦ cc (rw (lookup, e) at h)
    | inr e ↦
        rw (remove, e)
          (ap (λ (t : Table K V). (j, w) ∷ t) (remove_missing k d (rw (lookup, e) at h)))
  ]

  pub remove-IsDict : (k : K) (d : Table K V) → IsDict d → IsDict (remove k d)
  unfolding remove
  remove-IsDict k [] h = tt
  remove-IsDict k ((j, w) ∷ d) h = ground (arith, remove-IsDict k d h.1, lookup-remove k j d)

  pub sum_by-remove :
      (f : V → ℕ) (k : K) (v : V) (d : Table K V)
      → IsDict d
      → lookup k d ≡ some v
      → sum_by f (remove k d) + f v ≡ sum_by f d
  unfolding lookup remove sum_by
  sum_by-remove f k v [] h e = cc
  sum_by-remove f k v ((j, w) ∷ d) h e =
      ground (arith, sum_by-remove f k v d h.1, c.same_iff j k, remove_missing k d)

  pub contains-insert :
      (k a : K) (v : V) (d : Table K V)
      → contains a (insert k v d) ≡ (if c.same k a then true else contains a d)
  unfolding contains
  contains-insert k a v d = ground (arith, lookup-insert k a v d)

  pub contains-remove :
      (k a : K) (d : Table K V)
      → contains a (remove k d) ≡ (if c.same k a then false else contains a d)
  unfolding contains
  contains-remove k a d = ground (arith, lookup-remove k a d)

  pub get_or-insert :
      (default v : V) (k a : K) (d : Table K V)
      → get_or default a (insert k v d) ≡ (if c.same k a then v else get_or default a d)
  unfolding get_or
  get_or-insert default v k a d = ground (arith, lookup-insert k a v d)

  pub get_or-remove :
      (default : V) (k a : K) (d : Table K V)
      → get_or default a (remove k d) ≡ (if c.same k a then default else get_or default a d)
  unfolding get_or
  get_or-remove default k a d = ground (arith, lookup-remove k a d)

  pub length-sum_by : (d : Table K V) → sum_by (λ _. 1) d ≡ length d
  unfolding sum_by
  length-sum_by [] = refl
  length-sum_by ((k, v) ∷ d) = omega (arith, length-sum_by d)

  pub delete-eq-ok :
      (k : K) (d d' : Table K V) → delete k d ≡ ok d' → (contains k d ≡ true) × (d' ≡ remove k d)
  unfolding delete
  delete-eq-ok k d d' h = ground arith

  pub item-eq-ok : (k : K) (d : Table K V) (v : V) → item k d ≡ ok v → lookup k d ≡ some v
  unfolding item
  item-eq-ok k d v h = ground arith

  pub get_or-some :
      (default : V) (k : K) (d : Table K V) (v : V) → lookup k d ≡ some v → get_or default k d ≡ v
  unfolding get_or
  get_or-some default k d v h = ground arith

  pub length-remove :
      (k : K) (v : V) (d : Table K V)
      → IsDict d
      → lookup k d ≡ some v
      → length (remove k d) + 1 ≡ length d
  length-remove k v d h e =
      omega (arith, sum_by-remove (λ _. 1) k v d h e, length-sum_by d, length-sum_by (remove k d))

  pub length-insert_new :
      (k : K) (v : V) (d : Table K V) → lookup k d ≡ none → length (insert k v d) ≡ length d + 1
  length-insert_new k v d e =
      omega
        (arith, sum_by-insert_new (λ _. 1) k v d e, length-sum_by d, length-sum_by (insert k v d))

  pub contains-some : (k : K) (v : V) (d : Table K V) → lookup k d ≡ some v → contains k d ≡ true
  unfolding contains
  contains-some k v d e = ground arith

  pub contains-none : (k : K) (d : Table K V) → contains k d ≡ false → lookup k d ≡ none
  unfolding contains
  contains-none k d e = ground arith

  pub lookup-none : (k : K) (d : Table K V) → lookup k d ≡ none → contains k d ≡ false
  unfolding contains
  lookup-none k d e = ground arith

  pub item-some : (k : K) (d : Table K V) (v : V) → lookup k d ≡ some v → item k d ≡ ok v
  unfolding item
  item-some k d v h = ground arith

  pub insert_new :
      (k : K) (v : V) (d : Table K V) → lookup k d ≡ none → insert k v d ≡ d ++ (k, v) ∷ []
  unfolding lookup insert
  insert_new k v [] h = refl
  insert_new k v ((j, w) ∷ d) h = elim (Bool-cases (c.same j k)) [
    | inl e ↦ cc (rw (lookup, e) at h)
    | inr e ↦
        rw (insert, e) (ap (λ (t : Table K V). (j, w) ∷ t) (insert_new k v d (rw (lookup, e) at h)))
  ]

  pub remove-insert_new :
      (k : K) (v : V) (d : Table K V) → lookup k d ≡ none → remove k (insert k v d) ≡ d
  unfolding lookup insert remove
  remove-insert_new k v [] h = rw (remove, insert, (c.same_iff k k).1 refl) refl
  remove-insert_new k v ((j, w) ∷ d) h = elim (Bool-cases (c.same j k)) [
    | inl e ↦ cc (rw (lookup, e) at h)
    | inr e ↦
        rw (insert, e, remove, e)
          (ap (λ (t : Table K V). (j, w) ∷ t) (remove-insert_new k v d (rw (lookup, e) at h)))
  ]

  lookup-append_entry :
      (k j : K) (v : V) (d rest : Table K V)
      → lookup j (d ++ (k, v) ∷ rest) ≡ none
      → c.same k j ≡ false
  unfolding lookup
  lookup-append_entry k j v [] rest h = ground arith
  lookup-append_entry k j v ((i, w) ∷ d) rest h = ground (arith, lookup-append_entry k j v d rest)

  -- The key of an entry stands nowhere before it.
  pub IsDict-append :
      (k : K) (v : V) (d rest : Table K V) → IsDict (d ++ (k, v) ∷ rest) → lookup k d ≡ none
  unfolding lookup
  IsDict-append k v [] rest h = refl
  IsDict-append k v ((j, w) ∷ d) rest h = ground (
    arith,
    IsDict-append k v d rest h.1,
    lookup-append_entry k j v d rest,
    c.same_iff j k,
    c.same_iff k k,
  )
