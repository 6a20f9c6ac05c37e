-- ===== src/Chain/Import.antt =====
-- Importing sealed chunks and the first start (node/chain.py).
use tal_cash.Amounts.{decimal}
use tal_cash.Base.{
  Bool, Bytes, List, Option, Result, [], bad_chunk, bad_pow, bind, bytes_eq, chunk_not_next,
  decode_error, err, false, if◌then◌else◌, length, map, none, not, ok, raise_if, runtime_error,
  some, true, validation, wrong_network, ℕ, ◌*◌, ◌+◌, ◌==◌, ◌||◌, ◌∷◌, ◌⨟◌,
}
use tal_cash.Base.Dict.{bytes_Key, lookup, number_Key}
use tal_cash.Block.{Block, block_from_bytes, block_id}
use tal_cash.BlockFiles.{ChunkFile, ChunkLocation, Zlib}
use tal_cash.BlockFiles.Chunks.{decode_chunk}
use tal_cash.BlockFiles.Files.{BlockFiles, delete_recent, has_chunk, hex, save_chunk_bytes}
use tal_cash.Chain.{same_id, tip}
use tal_cash.Chain.Connect.{connect}
use tal_cash.Chain.Headers.{all_meet_target}
use tal_cash.Chain.Switch.{Rules, seal_ready_chunks}
use tal_cash.Crypto.{Crypto}
use tal_cash.Difficulty.{block_work}
use tal_cash.Params.{NetworkParams}
use tal_cash.Store.{Store, StoredHeader, main_id, set_main, status_stored, status_valid}
use tal_cash.Store.Blocks.{
  add_block, find_header, sealed_chunks, sealed_key, set_location, set_meta,
}
use tal_cash.Store.Index.{index_block}

pub record CheckedChunk : Type 0 where
  pub octets : Bytes
  pub chunk : ChunkFile
  pub blocks : List Block

-- `except DecodeError as error: raise ValidationError("bad-chunk", ...)`
unfoldable pub as_bad_chunk {ℓ} : {A : Type ℓ} → Result A → Result A
as_bad_chunk (ok a) = ok a
as_bad_chunk (err e) = elim e [ decode_error ↦ err (validation bad_chunk) | other ↦ err other ]

unfoldable pub parse_blocks : List Bytes → Result (List Block)
parse_blocks [] = ok []
parse_blocks (b ∷ blocks) =
    bind (as_bad_chunk (block_from_bytes b))
      λ first. bind (parse_blocks blocks) λ rest. ok (first ∷ rest)

module _ ⦃c : Crypto⦄ ⦃z : Zlib⦄ where
  unfoldable pub check_chunk_file : Bytes → NetworkParams → Option ℕ → Result CheckedChunk
  check_chunk_file octets params budget =
      bind (decode_chunk octets (some params.chunk_size) budget) λ chunk.
        raise_if (not (chunk.network_id == params.network_id)) (validation wrong_network)
        ⨟ raise_if
            (not (chunk.first_height == chunk.index * params.chunk_size)
              || not (length chunk.blocks == params.chunk_size))
            (validation bad_chunk)
        ⨟ bind (parse_blocks chunk.blocks) λ blocks.
          bind (all_meet_target (map (λ b. b.header) blocks) params.pow) λ met.
            raise_if (not met) (validation bad_pow)
            ⨟ ok (record { octets = octets; chunk = chunk; blocks = blocks })

  -- A block that the store knows already, with its row, or a new one.
  unfoldable pub place_block :
      Block → Bytes → ChunkLocation → Option StoredHeader → StoredHeader → Store → Result Store
  place_block b id location none t s =
      add_block b (t.chain_work + block_work b.header.target) status_stored (some location) s
  place_block b id location (some _) t s = ok (set_location id location s)

  -- The row of a block on the active chain.
  unfoldable pub is_known_main : Bytes → Option StoredHeader → Store → Bool
  is_known_main id none s = false
  is_known_main id (some h) s = same_id (main_id h.header.height s) id

  unfoldable pub extend_by :
      Rules → Block → Bytes → ChunkLocation → Option StoredHeader → Store → Result Store
  extend_by rules b id location known s = bind (tip s) λ t. bind (block_id t.header) λ tip_id.
      raise_if (not (bytes_eq b.header.prev_id tip_id)) (validation chunk_not_next)
      ⨟ bind (place_block b id location known t s) (connect rules.params rules.genesis b)

  -- The loop of `apply_chunk`; a block on the active chain is only given its place.
  unfoldable pub apply_blocks :
      Rules → List Block → List ChunkLocation → Store → Result (List Block × Store)
  apply_blocks rules [] locations s = ok ([], s)
  apply_blocks rules (b ∷ blocks) [] s = ok ([], s)
  apply_blocks rules (b ∷ blocks) (location ∷ locations) s = bind (block_id b.header) λ id.
      bind (find_header id s) λ known. elim (is_known_main id known s) [
        | true ↦ apply_blocks rules blocks locations (set_location id location s)
        | false ↦
            bind (extend_by rules b id location known s) λ s'.
              bind (apply_blocks rules blocks locations s') λ (added, s''). ok (b ∷ added, s'')
      ]

  unfoldable pub delete_all_recent : List Block → BlockFiles → Result BlockFiles
  delete_all_recent [] f = ok f
  delete_all_recent (b ∷ blocks) f =
      bind (block_id b.header) λ id. delete_all_recent blocks (delete_recent b.header.height id f)

  unfoldable pub save_new_chunk : ℕ → Bytes → BlockFiles → BlockFiles
  save_new_chunk index octets f = if has_chunk index f then f else save_chunk_bytes index octets f

  -- `apply_chunk`. An error carries no store: what it leaves, rolled back tables and a new chunk file that
  -- the code deletes only on a `ValidationError`, is not modelled.
  unfoldable pub apply_chunk : Rules → CheckedChunk → Store → Result (List Block × Store)
  apply_chunk rules checked s = bind (sealed_chunks s) λ sealed.
      raise_if (not (checked.chunk.index == sealed)) (validation chunk_not_next)
      ⨟ bind
          (apply_blocks rules checked.blocks checked.chunk.locations
            (record s { files = save_new_chunk checked.chunk.index checked.octets s.files }))
          λ (added, s').
            let s'' = set_meta sealed_key (decimal (checked.chunk.index + 1)) s' in
            bind (delete_all_recent checked.blocks s''.files)
              λ files. ok (added, record s'' { files = files })

  unfoldable pub import_chunk : Rules → Bytes → Store → Result (ℕ × Store)
  import_chunk rules octets s =
      bind (check_chunk_file octets rules.params none)
        λ checked. bind (apply_chunk rules checked s) λ (added, s'). ok (length added, s')

abbrev pub network_key : Bytes
network_key = 110 ∷ 101 ∷ 116 ∷ 119 ∷ 111 ∷ 114 ∷ 107 ∷ []

abbrev pub genesis_key : Bytes
genesis_key = 103 ∷ 101 ∷ 110 ∷ 101 ∷ 115 ∷ 105 ∷ 115 ∷ 95 ∷ 105 ∷ 100 ∷ []

-- `self.store.meta("network") != self.params.name`, turned round
unfoldable pub is_network : Bytes → Store → Bool
is_network name s = elim (lookup network_key s.meta) [ none ↦ false | some n ↦ bytes_eq n name ]

module _ ⦃c : Crypto⦄ ⦃z : Zlib⦄ where
  unfoldable pub write_genesis : NetworkParams → Block → Bytes → Store → Result Store
  write_genesis params genesis id s =
      bind
        (add_block genesis (block_work genesis.header.target) status_valid none
          (set_meta genesis_key (hex id) (set_meta network_key params.name s)))
        λ s₁. bind (set_main 0 id s₁) λ s₂. index_block genesis s₂

  -- `_init_genesis` up to the tidying of files.
  unfoldable pub init_genesis : NetworkParams → Block → Store → Result Store
  init_genesis params genesis s = bind (block_id genesis.header) λ id.
      bind
        (elim (main_id 0 s) [
          | none ↦ write_genesis params genesis id s
          | some known ↦
              raise_if (not (bytes_eq known id) || not (is_network params.name s)) runtime_error
              ⨟ ok s
        ])
        (seal_ready_chunks (record { params = params; genesis = genesis.header }))
