-- ===== src/Chain/Reading.antt =====
-- Reading blocks changes the caches of the files and nothing else (node/blockfiles.py, node/store.py).
use tal_cash.Base.{
  Bool-cases, Bytes, Option, Option-cases, ap, arith, bind-eq-ok, inl, inr, length, ltb, ok, refl,
  subst, sym, ℕ, ◌+◌, ◌-◌, ◌∙◌, ◌≡◌,
}
use tal_cash.Base.Dict.{bytes_Key, insert, lookup, number_Key, pair_Key}
use tal_cash.Block.{Block, BlockHeader, block_from_bytes, block_id}
use tal_cash.BlockFiles.{ChunkLocation, Zlib, max_segment_bytes, unpack_segment}
use tal_cash.BlockFiles.Files.{
  BlockFiles, cache_drop, cache_put, chunk_name, nth, read_file, read_from_chunk, read_named,
  read_part, read_recent, recent_name, trim_cache,
}
use tal_cash.Chain.{branch_median, coinbase_of, main_block, tip}
use tal_cash.Chain.Connect.{context, matured_of, prepare, root_at}
use tal_cash.Crypto.{Crypto}
use tal_cash.Difficulty.{next_target}
use tal_cash.Mempool.Add.{place}
use tal_cash.Params.{NetworkParams}
use tal_cash.State.{BlockContext}
use tal_cash.Store.{HeaderRow, Store, main_id}
use tal_cash.Store.Blocks.{block_bytes, find_block, read_place}
use tal_cash.Tx.{Coinbase}

-- The same block files, whatever the caches hold.
abbrev pub SameFiles : Store → Store → Type 0
SameFiles s s' = s'.files.memory ≡ s.files.memory

-- Only the caches of the files differ.
pub record OnlyReads (s s' : Store) : Type 0 where
  pub others : s' ≡ record s { files = s'.files }
  pub files : SameFiles s s'

unread : (s s' : Store) → s ≡ s' → OnlyReads s s'
unread s s' same = subst (OnlyReads s) same (record { others = refl; files = refl })

cache_drop-memory : (name : Bytes) (f : BlockFiles) → (cache_drop name f).memory ≡ f.memory
unfolding cache_drop
cache_drop-memory name f = ground arith

cache_put-memory :
    (name octets : Bytes) (f f' : BlockFiles)
    → cache_put name octets f ≡ ok f'
    → f'.memory ≡ f.memory
unfolding cache_put
cache_put-memory name octets f f' h =
    let dropped = cache_drop name f in
    let (t, e, h₁) =
      bind-eq-ok
        (trim_cache (insert name octets dropped.recent_cache) (dropped.cached + length octets)) _
        h in
    let same : record dropped { recent_cache = t.0; cached = t.1 } ≡ f' = ground arith in
    ap (λ (x : BlockFiles). x.memory) (sym same) ∙ cache_drop-memory name f

read_named-memory :
    (name octets : Bytes) (f f' : BlockFiles)
    → read_named name f ≡ ok (octets, f')
    → f'.memory ≡ f.memory
unfolding read_named
read_named-memory name octets f f' h = elim (Option-cases (lookup name f.recent_cache)) [
  | inr (cached, found) ↦ ground (arith, rw (read_named, found) at h)
  | inl missing ↦
      let (read, e₁, h₁) = bind-eq-ok (read_file name f) _ (rw (read_named, missing) at h) in
      let (f₁, e₂, h₂) = bind-eq-ok (cache_put name read f) _ h₁ in
      let same : f₁ ≡ f' = ground arith in
      ap (λ (x : BlockFiles). x.memory) (sym same) ∙ cache_put-memory name read f f₁ e₂
]

module _ ⦃z : Zlib⦄ where
  read_from_chunk-memory :
      (place : ChunkLocation) (octets : Bytes) (f f' : BlockFiles)
      → read_from_chunk place f ≡ ok (octets, f')
      → f'.memory ≡ f.memory
  unfolding read_from_chunk
  read_from_chunk-memory place octets f f' h =
      let key : ℕ × ℕ = (place.chunk, place.segment_offset) in
      elim (Option-cases (lookup key f.segments)) [
        | inr (blocks, found) ↦
            let (read, e₁, h₁) =
              bind-eq-ok (nth place.position blocks) _ (rw (read_from_chunk, found) at h) in
            ground arith
        | inl missing ↦
            let (packed, e₁, h₁) =
              bind-eq-ok
                (read_part (chunk_name place.chunk) place.segment_offset place.segment_length f) _
                (rw (read_from_chunk, missing) at h) in
            let (blocks, e₂, h₂) = bind-eq-ok (unpack_segment packed max_segment_bytes) _ h₁ in
            let (read, e₃, h₃) = bind-eq-ok (nth place.position blocks) _ h₂ in ground arith
      ]

  read_place-memory :
      (id : Bytes) (row : HeaderRow) (octets : Bytes) (f f' : BlockFiles)
      → read_place id row f ≡ ok (octets, f')
      → f'.memory ≡ f.memory
  unfolding read_place read_recent
  read_place-memory id row octets f f' h = elim (Option-cases row.place) [
    | inl recent ↦
        read_named-memory (recent_name row.height id) octets f f' (rw (read_place, recent) at h)
    | inr (place, sealed) ↦ read_from_chunk-memory place octets f f' (rw (read_place, sealed) at h)
  ]

  pub block_bytes-OnlyReads :
      (id : Bytes) (s s' : Store) (found : Option Bytes)
      → block_bytes id s ≡ ok (found, s')
      → OnlyReads s s'
  unfolding block_bytes
  block_bytes-OnlyReads id s s' found h = elim (Option-cases (lookup id s.headers)) [
    | inl missing ↦ unread s s' (ground (arith, rw (block_bytes, missing) at h))
    | inr (row, there) ↦
        let ((octets, files), e₁, h₁) =
          bind-eq-ok (read_place id row s.files) _ (rw (block_bytes, there) at h) in
        let same : record s { files = files } ≡ s' = ground arith in
        subst (OnlyReads s) same
          (record { others = refl; files = read_place-memory id row octets s.files files e₁ })
  ]

  pub find_block-OnlyReads :
      (id : Bytes) (s s' : Store) (found : Option Block)
      → find_block id s ≡ ok (found, s')
      → OnlyReads s s'
  unfolding find_block
  find_block-OnlyReads id s s' found h =
      let ((octets, s₁), e₁, h₁) = bind-eq-ok (block_bytes id s) _ h in
      let read = block_bytes-OnlyReads id s s₁ octets e₁ in
      elim (Option-cases octets) [
        | inl missing ↦
            let same : s₁ ≡ s' = ground (arith, rw missing at h₁) in subst (OnlyReads s) same read
        | inr (bs, there) ↦
            let (b, e₂, h₂) = bind-eq-ok (block_from_bytes bs) _ (rw there at h₁) in
            let same : s₁ ≡ s' = ground arith in subst (OnlyReads s) same read
      ]

  pub main_block-OnlyReads :
      (height : ℕ) (s s' : Store) (found : Option Block)
      → main_block height s ≡ ok (found, s')
      → OnlyReads s s'
  unfolding main_block
  main_block-OnlyReads height s s' found h = elim (Option-cases (main_id height s)) [
    | inl missing ↦ unread s s' (ground (arith, rw (main_block, missing) at h))
    | inr (id, there) ↦ find_block-OnlyReads id s s' found (rw (main_block, there) at h)
  ]

module _ ⦃c : Crypto⦄ ⦃z : Zlib⦄ where
  matured_of-OnlyReads :
      (params : NetworkParams) (height : ℕ) (s s' : Store) (matured : Option Coinbase)
      → matured_of params height s ≡ ok (matured, s')
      → OnlyReads s s'
  unfolding matured_of
  matured_of-OnlyReads params height s s' matured h =
      elim (Bool-cases (ltb height params.coinbase_maturity)) [
        | inl young ↦ unread s s' (ground (arith, rw (matured_of, young) at h))
        | inr due ↦
            let ((found, s₁), e₁, h₁) =
              bind-eq-ok (main_block (height - params.coinbase_maturity) s) _
                (rw (matured_of, due) at h) in
            elim (Option-cases found) [
              | inl missing ↦ cc (rw missing at h₁)
              | inr (b, there) ↦
                  let (reward, e₂, h₂) = bind-eq-ok (coinbase_of b) _ (rw there at h₁) in
                  let same : s₁ ≡ s' = ground arith in
                  subst (OnlyReads s) same
                    (main_block-OnlyReads (height - params.coinbase_maturity) s s₁ found e₁)
            ]
      ]

  context-OnlyReads :
      (params : NetworkParams) (genesis parent : BlockHeader) (s s' : Store) (ctx : BlockContext)
      → context params genesis parent s ≡ ok (ctx, s')
      → OnlyReads s s'
  unfolding context
  context-OnlyReads params genesis parent s s' ctx h =
      let ((matured, s₁), e₁, h₁) = bind-eq-ok (matured_of params (parent.height + 1) s) _ h in
      let (root, e₂, h₂) = bind-eq-ok (root_at params (parent.height + 1) s₁) _ h₁ in
      let (id, e₃, h₃) = bind-eq-ok (block_id parent) _ h₂ in
      let (median, e₄, h₄) = bind-eq-ok (branch_median id params s₁) _ h₃ in
      let (target, e₅, h₅) = bind-eq-ok (next_target params genesis parent) _ h₄ in
      let same : s₁ ≡ s' = ground arith in
      subst (OnlyReads s) same (matured_of-OnlyReads params (parent.height + 1) s s₁ matured e₁)

  pub prepare-OnlyReads :
      (params : NetworkParams) (genesis : BlockHeader) (b : Block) (s s' : Store)
      (ctx : BlockContext)
      → prepare params genesis b s ≡ ok (ctx, s')
      → OnlyReads s s'
  unfolding prepare
  prepare-OnlyReads params genesis b s s' ctx h =
      let (t, e₁, h₁) = bind-eq-ok (tip s) _ h in
      let (id, e₂, h₂) = bind-eq-ok (block_id t.header) _ h₁ in
      context-OnlyReads params genesis t.header s s' ctx (ground arith)
