-- ===== src/BlockFiles/Cache.antt =====
-- The cache of recent blocks (node/blockfiles.py) never shows in what is read.
use tal_cash.Base.{
  Bytes, Error, Option-cases, arith, bytes_eq_iff, err, inl, inr, key_error, length, none, ok, refl,
  subst, sym, ℕ, ◌∙◌, ◌≡◌, ◌⊎◌,
}
use tal_cash.Base.Dict.{
  bytes_Key, insert, insert-IsDict, item, lookup, lookup-insert, lookup-remove, number_Key, remove,
  remove-IsDict, sum_by-insert_new, sum_by-remove,
}
use tal_cash.Block.{Block, block_id, serialize_block}
use tal_cash.BlockFiles.Coherent.{
  IsCoherent, IsCoherentBut, cache_drop-Dropped, cache_put-IsCoherent,
}
use tal_cash.BlockFiles.Files.{
  BlockFiles, cache_drop, delete_file, delete_recent, read_file, read_named, read_recent,
  recent_name, write_file, write_recent,
}
use tal_cash.Crypto.{Crypto}
use tal_cash.Encoding.{written}

IsCoherent-but : (name : Bytes) (f : BlockFiles) → IsCoherent f → IsCoherentBut name f
IsCoherent-but name f s = record {
  dict = s.dict;
  sizes = s.sizes;
  agrees = λ other octets _ h. s.agrees other octets h;
}

-- Over coherent files, where the cache has no wrong entry and stays within 64 MB, read_recent
-- raises what a read of the file raises, or it returns the bytes of the file and leaves coherent
-- files with the same memory: the cache never shows.
pub read_recent_cases :
    (height : ℕ) (id : Bytes) (f : BlockFiles)
    → IsCoherent f
    → ((e : Error) × (read_file (recent_name height id) f ≡ err e)
        × (read_recent height id f ≡ err e))
      ⊎ ((octets : Bytes) × (f' : BlockFiles) × (read_file (recent_name height id) f ≡ ok octets)
          × (read_recent height id f ≡ ok (octets, f'))
          × IsCoherent f'
          × (f'.memory ≡ f.memory))
unfolding read_recent read_named read_file item
read_recent_cases height id f s =
    let name = recent_name height id in
    elim (Option-cases (lookup name f.recent_cache)) [
      | inr (octets, found) ↦
          let gone : lookup name (remove name f.recent_cache) ≡ none =
            ground (arith, lookup-remove name name f.recent_cache, bytes_eq_iff name name) in
          inr (
            octets,
            record f { recent_cache = insert name octets (remove name f.recent_cache) },
            rw (read_file, item, s.agrees name octets found) refl,
            rw (read_recent, read_named, found) refl,
            record {
              dict =
                  insert-IsDict name octets (remove name f.recent_cache)
                    (remove-IsDict name f.recent_cache s.dict);
              sizes = omega (
                arith,
                s.sizes,
                sum_by-insert_new length name octets (remove name f.recent_cache) gone,
                sum_by-remove length name octets f.recent_cache s.dict found,
              );
              bounded = s.bounded;
              agrees = λ other o h. ground (
                arith,
                lookup-insert name other octets (remove name f.recent_cache),
                lookup-remove name other f.recent_cache,
                bytes_eq_iff name other,
                s.agrees other o,
                s.agrees name octets found,
              );
            },
            refl,
          )
      | inl missing ↦ elim (Option-cases (lookup name f.memory)) [
        | inl nowhere ↦ inl (
          key_error,
          rw (read_file, item, nowhere) refl,
          rw (read_recent, read_named, missing, read_file, item, nowhere) refl,
        )
        | inr (octets, there) ↦
            let (f', done, s', same) =
              cache_put-IsCoherent name octets f (IsCoherent-but name f s) there in
            inr (
              octets,
              f',
              rw (read_file, item, there) refl,
              rw (read_recent, read_named, missing, read_file, item, there, done) refl,
              s',
              same,
            )
      ]
    ]

-- Deleting a recent block keeps coherent files coherent.
pub delete_recent-IsCoherent :
    (height : ℕ) (id : Bytes) (f : BlockFiles)
    → IsCoherent f
    → IsCoherent (delete_recent height id f)
unfolding delete_recent delete_file
delete_recent-IsCoherent height id f s =
    let name = recent_name height id in
    let d = cache_drop-Dropped name f s.dict s.sizes in
    record {
      dict = d.dict;
      sizes = d.sizes;
      bounded = omega (arith, d.smaller, s.bounded);
      agrees = λ other o h. ground (
        arith,
        d.left other,
        d.memory,
        lookup-remove name other (cache_drop name f).memory,
        s.agrees other o,
      );
    }

module _ ⦃c : Crypto⦄ where
  -- Writing a recent block succeeds over coherent files, keeps them coherent and writes its file.
  pub write_recent-IsCoherent :
      (b : Block) (id octets : Bytes) (f : BlockFiles)
      → IsCoherent f
      → block_id b.header ≡ ok id
      → serialize_block b ≡ ok octets
      → (f' : BlockFiles) × (write_recent b f ≡ ok f')
        × IsCoherent f'
        × (f'.memory ≡ insert (recent_name b.header.height id) octets f.memory)
  unfolding write_recent write_file
  write_recent-IsCoherent b id octets f s named serialized =
      let name = recent_name b.header.height id in
      let f₁ = write_file name octets f in
      let but : IsCoherentBut name f₁ = record {
        dict = s.dict;
        sizes = s.sizes;
        agrees = λ other o differ h.
            ground (arith, lookup-insert name other octets f.memory, s.agrees other o h);
      } in
      let (f', done, s', same) =
        cache_put-IsCoherent name octets f₁ but
          (ground (arith, lookup-insert name name octets f.memory, bytes_eq_iff name name)) in
      (f', rw (write_recent, named, serialized) done, s', same)

  -- If the files are coherent, a block's header has an id, the block serializes and write_recent
  -- succeeds, then read_recent of its height and id returns its bytes and leaves the files
  -- coherent.
  pub read_recent-write_recent :
      (b : Block) (id octets : Bytes) (f f' : BlockFiles)
      → IsCoherent f
      → block_id b.header ≡ ok id
      → serialize_block b ≡ ok octets
      → write_recent b f ≡ ok f'
      → (f'' : BlockFiles) × (read_recent b.header.height id f' ≡ ok (octets, f'')) × IsCoherent f''
  unfolding read_file item
  read_recent-write_recent b id octets f f' s named serialized written =
      let name = recent_name b.header.height id in
      let (f₁, done, s₁, memory) = write_recent-IsCoherent b id octets f s named serialized in
      let same : f₁ ≡ f' = ground (arith, sym done ∙ written) in
      let stored : read_file name f' ≡ ok octets =
        ground
          (arith, memory, same, lookup-insert name name octets f.memory, bytes_eq_iff name name) in
      elim (read_recent_cases b.header.height id f' (subst IsCoherent same s₁)) [
        | inl (e, missing, _) ↦ absurd (cc)
        | inr (octets', f'', read, found, s'', _) ↦ (f'', found ∙ cc, s'')
      ]
