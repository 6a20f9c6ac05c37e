-- ===== src/BlockFiles/Coherent.antt =====
-- The cache of recent blocks (node/blockfiles.py): what its operations keep.
use tal_cash.Base.{
  Bool-cases, Bytes, Option-cases, [], arith, bytes_eq, bytes_eq_iff, false, if◌then◌else◌, inl,
  inr, leb, length, none, ok, refl, some, ℕ, ◌+◌, ◌-◌, ◌∷◌, ◌≡◌, ◌≤◌,
}
use tal_cash.Base.Dict.{
  Dict, IsDict, bytes_Key, insert, insert-IsDict, lookup, lookup-insert, lookup-remove, number_Key,
  remove-IsDict, sum_by, sum_by-insert_new, sum_by-remove,
}
use tal_cash.BlockFiles.Files.{BlockFiles, cache_drop, cache_put, recent_cache_bytes, trim_cache}

pub record IsCoherent (f : BlockFiles) : Type 0 where
  pub dict : IsDict f.recent_cache
  pub sizes : f.cached ≡ sum_by length f.recent_cache
  pub bounded : f.cached ≤ recent_cache_bytes
  pub agrees :
      (name octets : Bytes)
      → lookup name f.recent_cache ≡ some octets
      → lookup name f.memory ≡ some octets

-- What the loop leaves of a cache.
pub record Trimmed (cache cache' : Dict Bytes) (cached : ℕ) : Type 0 where
  pub dict : IsDict cache'
  pub sizes : cached ≡ sum_by length cache'
  pub bounded : cached ≤ recent_cache_bytes
  pub kept :
      (name octets : Bytes) → lookup name cache' ≡ some octets → lookup name cache ≡ some octets

pub kept_below :
    (n o : Bytes) (cache : Dict Bytes) (name octets : Bytes)
    → lookup n cache ≡ none
    → lookup name cache ≡ some octets
    → lookup name ((n, o) ∷ cache) ≡ some octets
unfolding lookup
kept_below n o cache name octets fresh h = ground (arith, bytes_eq_iff n name)

pub trim_cache-Trimmed :
    (cache : Dict Bytes) (cached : ℕ)
    → IsDict cache
    → cached ≡ sum_by length cache
    → (cache' : Dict Bytes) × (cached' : ℕ) × (trim_cache cache cached ≡ ok (cache', cached'))
      × Trimmed cache cache' cached'
unfolding trim_cache sum_by
trim_cache-Trimmed [] cached dict sizes = (
  [],
  cached,
  rw (trim_cache, sizes) refl,
  record { dict = tt; sizes = sizes; bounded = omega arith; kept = λ n o h. h },
)
trim_cache-Trimmed ((n, o) ∷ cache) cached dict sizes =
    elim (Bool-cases (leb cached recent_cache_bytes)) [
      | inl fits ↦ (
        (n, o) ∷ cache,
        cached,
        rw (trim_cache, fits) refl,
        record { dict = dict; sizes = sizes; bounded = ground arith; kept = λ n o h. h },
      )
      | inr over ↦
          let (cache', cached', done, t) =
            trim_cache-Trimmed cache (cached - length o) dict.1 (omega (arith, sizes)) in
          (
            cache',
            cached',
            rw (trim_cache, over) done,
            record {
              dict = t.dict;
              sizes = t.sizes;
              bounded = t.bounded;
              kept =
                  λ name octets h. kept_below n o cache name octets dict.0 (t.kept name octets h);
            },
          )
    ]

-- A cache that may be wrong at one name.
pub record IsCoherentBut (name : Bytes) (f : BlockFiles) : Type 0 where
  pub dict : IsDict f.recent_cache
  pub sizes : f.cached ≡ sum_by length f.recent_cache
  pub agrees :
      (other octets : Bytes)
      → bytes_eq name other ≡ false
      → lookup other f.recent_cache ≡ some octets
      → lookup other f.memory ≡ some octets

pub record Dropped (name : Bytes) (f f' : BlockFiles) : Type 0 where
  pub dict : IsDict f'.recent_cache
  pub sizes : f'.cached ≡ sum_by length f'.recent_cache
  pub smaller : f'.cached ≤ f.cached
  pub memory : f'.memory ≡ f.memory
  pub left :
      (other : Bytes)
      → lookup other f'.recent_cache
        ≡ (if bytes_eq name other then none else lookup other f.recent_cache)

pub cache_drop-Dropped :
    (name : Bytes) (f : BlockFiles)
    → IsDict f.recent_cache
    → f.cached ≡ sum_by length f.recent_cache
    → Dropped name f (cache_drop name f)
unfolding cache_drop
cache_drop-Dropped name f dict sizes = elim (Option-cases (lookup name f.recent_cache)) [
  | inl missing ↦
      rw (cache_drop, missing)
        (record {
          dict = dict;
          sizes = sizes;
          smaller = omega arith;
          memory = refl;
          left = λ other. ground (arith, bytes_eq_iff name other);
        })
  | inr (octets, found) ↦
      rw (cache_drop, found)
        (record {
          dict = remove-IsDict name f.recent_cache dict;
          sizes = omega (arith, sizes, sum_by-remove length name octets f.recent_cache dict found);
          smaller = omega arith;
          memory = refl;
          left = λ other. lookup-remove name other f.recent_cache;
        })
]

pub cache_put-IsCoherent :
    (name octets : Bytes) (f : BlockFiles)
    → IsCoherentBut name f
    → lookup name f.memory ≡ some octets
    → (f' : BlockFiles) × (cache_put name octets f ≡ ok f') × IsCoherent f' × (f'.memory ≡ f.memory)
unfolding cache_put
cache_put-IsCoherent name octets f s there =
    let d = cache_drop-Dropped name f s.dict s.sizes in
    let f₁ = cache_drop name f in
    let free : lookup name f₁.recent_cache ≡ none =
      ground (arith, d.left name, bytes_eq_iff name name) in
    let (cache, cached, done, t) =
      trim_cache-Trimmed (insert name octets f₁.recent_cache) (f₁.cached + length octets)
        (insert-IsDict name octets f₁.recent_cache d.dict)
        (omega (arith, d.sizes, sum_by-insert_new length name octets f₁.recent_cache free)) in
    (
      record f₁ { recent_cache = cache; cached = cached },
      rw (cache_put, done) refl,
      record {
        dict = t.dict;
        sizes = t.sizes;
        bounded = t.bounded;
        agrees = λ other o h. ground (
          arith,
          t.kept other o h,
          lookup-insert name other octets f₁.recent_cache,
          d.left other,
          d.memory,
          bytes_eq_iff name other,
          s.agrees other o,
        );
      },
      d.memory,
    )
