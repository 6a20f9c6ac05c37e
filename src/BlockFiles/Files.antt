-- ===== src/BlockFiles/Files.antt =====
-- `BlockFiles` (node/blockfiles.py) with its files in memory, as `folder=None` keeps them. A name is the
-- list of its code points.
use tal_cash.Amounts.{padded}
use tal_cash.Base.{
  Bool, Bytes, List, Result, [], bind, drop, err, if◌then◌else◌, index_error, leb, length, ltb,
  none, ok, some, stop_iteration, suc, take, zero, ℕ, ◌%◌, ◌++◌, ◌+◌, ◌-◌, ◌/◌, ◌∷◌,
}
use tal_cash.Base.Dict.{
  Dict, Table, bytes_Key, contains, insert, item, lookup, number_Key, pair_Key, remove,
}
use tal_cash.Block.{Block, block_id, serialize_block}
use tal_cash.BlockFiles.{ChunkLocation, Zlib, max_segment_bytes, unpack_segment}
use tal_cash.BlockFiles.Chunks.{encode_chunk}
use tal_cash.Crypto.{Crypto}
use tal_cash.Mempool.Add.{place}
use tal_cash.Tx.{size}

abbrev pub recent_cache_bytes : ℕ
recent_cache_bytes = 67_108_864

pub record BlockFiles : Type 0 where
  pub memory : Dict Bytes
  pub recent_cache : Dict Bytes
  pub cached : ℕ
  pub segments : Table (ℕ × ℕ) (List Bytes)

unfoldable pub new_files : BlockFiles
new_files = record { memory = []; recent_cache = []; cached = 0; segments = [] }

unfoldable pub hex_char : ℕ → ℕ
hex_char n = if ltb n 10 then 48 + n else 87 + n

-- `block_id.hex()`
unfoldable pub hex : Bytes → Bytes
hex [] = []
hex (b ∷ bs) = hex_char (b / 16) ∷ hex_char (b % 16) ∷ hex bs

unfoldable pub recent_name : ℕ → Bytes → Bytes
recent_name height id =
    (114 ∷ 101 ∷ 99 ∷ 101 ∷ 110 ∷ 116 ∷ 47 ∷ [])
    ++ padded 10 height
    ++ (45 ∷ [])
    ++ hex id
    ++ (46 ∷ 98 ∷ 108 ∷ 111 ∷ 99 ∷ 107 ∷ [])

unfoldable pub chunk_name : ℕ → Bytes
chunk_name index =
    (99 ∷ 104 ∷ 117 ∷ 110 ∷ 107 ∷ 115 ∷ 47 ∷ [])
    ++ padded 6 index
    ++ (46 ∷ 99 ∷ 104 ∷ 117 ∷ 110 ∷ 107 ∷ [])

-- The file layer.
unfoldable pub write_file : Bytes → Bytes → BlockFiles → BlockFiles
write_file name octets f = record f { memory = insert name octets f.memory }

unfoldable pub read_file : Bytes → BlockFiles → Result Bytes
read_file name f = item name f.memory

unfoldable pub read_part : Bytes → ℕ → ℕ → BlockFiles → Result Bytes
read_part name offset size f =
    bind (item name f.memory) λ octets. ok (take size (drop offset octets))

unfoldable pub exists : Bytes → BlockFiles → Bool
exists name f = contains name f.memory

unfoldable pub delete_file : Bytes → BlockFiles → BlockFiles
delete_file name f = record f { memory = remove name f.memory }

-- `_cache_drop`
unfoldable pub cache_drop : Bytes → BlockFiles → BlockFiles
cache_drop name f = elim (lookup name f.recent_cache) [
  | none ↦ f
  | some octets ↦ record f {
    recent_cache = remove name f.recent_cache;
    cached = f.cached - length octets;
  }
]

-- The loop of `_cache_put`: the oldest go first.
unfoldable pub trim_cache : Dict Bytes → ℕ → Result (Dict Bytes × ℕ)
trim_cache [] cached = if leb cached recent_cache_bytes then ok ([], cached) else err stop_iteration
trim_cache ((name, octets) ∷ cache) cached =
    let rest = trim_cache cache (cached - length octets) in
    if leb cached recent_cache_bytes then ok ((name, octets) ∷ cache, cached) else rest

-- `_cache_put`
unfoldable pub cache_put : Bytes → Bytes → BlockFiles → Result BlockFiles
cache_put name octets f =
    let f' = cache_drop name f in
    bind (trim_cache (insert name octets f'.recent_cache) (f'.cached + length octets))
      λ (cache, cached). ok (record f' { recent_cache = cache; cached = cached })

module _ ⦃c : Crypto⦄ where
  unfoldable pub write_recent : Block → BlockFiles → Result BlockFiles
  write_recent b f = bind (block_id b.header) λ id. bind (serialize_block b) λ octets.
      let name = recent_name b.header.height id in cache_put name octets (write_file name octets f)

-- A cached block moves to the end of the cache.
unfoldable pub read_named : Bytes → BlockFiles → Result (Bytes × BlockFiles)
read_named name f = elim (lookup name f.recent_cache) [
  | none ↦ bind (read_file name f) λ octets. bind (cache_put name octets f) λ f'. ok (octets, f')
  | some octets ↦
      ok (octets, record f { recent_cache = insert name octets (remove name f.recent_cache) })
]

unfoldable pub read_recent : ℕ → Bytes → BlockFiles → Result (Bytes × BlockFiles)
read_recent height id = read_named (recent_name height id)

unfoldable pub delete_recent : ℕ → Bytes → BlockFiles → BlockFiles
delete_recent height id f = let name = recent_name height id in delete_file name (cache_drop name f)

module _ ⦃c : Crypto⦄ ⦃z : Zlib⦄ where
  unfoldable pub write_chunk :
      ℕ → ℕ → ℕ → List Bytes → BlockFiles → Result (List ChunkLocation × BlockFiles)
  write_chunk network_id index first_height blocks f =
      bind (encode_chunk network_id index first_height blocks)
        λ (octets, locations). ok (locations, write_file (chunk_name index) octets f)

unfoldable pub save_chunk_bytes : ℕ → Bytes → BlockFiles → BlockFiles
save_chunk_bytes index = write_file (chunk_name index)

unfoldable pub delete_chunk : ℕ → BlockFiles → BlockFiles
delete_chunk index = delete_file (chunk_name index)

unfoldable pub has_chunk : ℕ → BlockFiles → Bool
has_chunk index = exists (chunk_name index)

unfoldable pub chunk_bytes : ℕ → BlockFiles → Result Bytes
chunk_bytes index = read_file (chunk_name index)

-- `blocks[location.position]`
unfoldable pub nth : ℕ → List Bytes → Result Bytes
nth n [] = err index_error
nth zero (b ∷ blocks) = ok b
nth (suc n) (b ∷ blocks) = nth n blocks

-- At most 64 unpacked segments stay in memory; the one not used for longest goes.
unfoldable pub limit_segments : Table (ℕ × ℕ) (List Bytes) → Table (ℕ × ℕ) (List Bytes)
limit_segments d = if ltb 64 (length d) then drop 1 d else d

unfoldable pub read_from_chunk :
    ⦃z : Zlib⦄ → ChunkLocation → BlockFiles → Result (Bytes × BlockFiles)
read_from_chunk place f =
    let key : ℕ × ℕ = (place.chunk, place.segment_offset) in
    elim (lookup key f.segments) [
      | none ↦
          bind (read_part (chunk_name place.chunk) place.segment_offset place.segment_length f)
            λ packed. bind (unpack_segment packed max_segment_bytes) λ blocks.
              bind (nth place.position blocks) λ octets.
                ok (octets, record f { segments = limit_segments (insert key blocks f.segments) })
      | some blocks ↦
          bind (nth place.position blocks)
            λ octets. ok (octets, record f { segments = insert key blocks (remove key f.segments) })
    ]
