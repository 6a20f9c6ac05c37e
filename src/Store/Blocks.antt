-- ===== src/Store/Blocks.antt =====
-- Headers, blocks and chunks in node/store.py.
use tal_cash.Amounts.{decimal, int_of}
use tal_cash.Base.{
  Bytes, List, Option, Result, [], bind, bytes_eq, err, if◌then◌else◌, leb, map, none, not, ok,
  some, suc, type_error, zero, ℕ, ◌&&◌, ◌++◌, ◌+◌, ◌-◌, ◌∷◌,
}
use tal_cash.Base.Dict.{Dict, Table, bytes_Key, get_or, insert, lookup, number_Key, remove}
use tal_cash.Block.{Block, block_from_bytes, block_id, header_from_bytes, serialize_header}
use tal_cash.BlockFiles.{ChunkLocation, Zlib}
use tal_cash.BlockFiles.Files.{
  BlockFiles, delete_recent, read_from_chunk, read_recent, write_chunk, write_recent,
}
use tal_cash.Crypto.{Crypto}
use tal_cash.Encoding.{from_bytes, int_to_bytes}
use tal_cash.Store.{
  HeaderRow, Status, Store, StoredHeader, insert_row, main_id, on_main, work_bytes,
}

-- A row is found, changed and put back; a key that is not there changes nothing.
unfoldable pub change_row : Bytes → (HeaderRow → HeaderRow) → Store → Store
change_row id f s = elim (lookup id s.headers) [
  | none ↦ s
  | some row ↦ record s { headers = insert id (f row) s.headers }
]

unfoldable pub set_location : Bytes → ChunkLocation → Store → Store
set_location id location = change_row id λ row. record row { place = some location }

unfoldable pub set_status : Bytes → Status → Store → Store
set_status id status = change_row id λ row. record row { status = status }

unfoldable pub children_of : Bytes → Dict HeaderRow → List Bytes
children_of id [] = []
children_of id ((k, row) ∷ d) =
    let rest = children_of id d in if bytes_eq row.prev_id id then k ∷ rest else rest

unfoldable pub children : Bytes → Store → List Bytes
children id s = children_of id s.headers

unfoldable pub stored_header_of : HeaderRow → Result StoredHeader
stored_header_of row =
    bind (header_from_bytes row.header)
      λ h. ok (record { header = h; chain_work = from_bytes row.chain_work; status = row.status })

-- `header`
unfoldable pub find_header : Bytes → Store → Result (Option StoredHeader)
find_header id s = elim (lookup id s.headers) [
  | none ↦ ok none
  | some row ↦ bind (stored_header_of row) λ h. ok (some h)
]

-- The files before the row is written.
unfoldable pub store_bytes :
    ⦃c : Crypto⦄ → Block → Option ChunkLocation → BlockFiles → Result BlockFiles
store_bytes b none f = write_recent b f
store_bytes b (some location) f = ok f

unfoldable pub add_block :
    ⦃c : Crypto⦄ → Block → ℕ → Status → Option ChunkLocation → Store → Result Store
add_block b chain_work status location s = bind (store_bytes b location s.files) λ files.
    bind (block_id b.header) λ id. bind (serialize_header b.header) λ header.
      bind (int_to_bytes work_bytes chain_work) λ work.
        let row : HeaderRow = record {
          prev_id = b.header.prev_id;
          height = b.header.height;
          header = header;
          chain_work = work;
          status = status;
          place = location;
        } in
        bind (insert_row id row s.headers) λ d. ok (record s { headers = d; files = files })

-- The bytes of a block; the caches of the files change.
unfoldable pub read_place :
    ⦃z : Zlib⦄ → Bytes → HeaderRow → BlockFiles → Result (Bytes × BlockFiles)
read_place id row f = elim row.place [
  | none ↦ read_recent row.height id f
  | some location ↦ read_from_chunk location f
]

unfoldable pub block_bytes : ⦃z : Zlib⦄ → Bytes → Store → Result (Option Bytes × Store)
block_bytes id s = elim (lookup id s.headers) [
  | none ↦ ok (none, s)
  | some row ↦
      bind (read_place id row s.files)
        λ (octets, files). ok (some octets, record s { files = files })
]

-- `block`
unfoldable pub find_block : ⦃z : Zlib⦄ → Bytes → Store → Result (Option Block × Store)
find_block id s = bind (block_bytes id s) λ (found, s'). elim found [
  | none ↦ ok (none, s')
  | some octets ↦ bind (block_from_bytes octets) λ b. ok (some b, s')
]

-- `"sealed_chunks"`
abbrev pub sealed_key : Bytes
sealed_key = 115 ∷ 101 ∷ 97 ∷ 108 ∷ 101 ∷ 100 ∷ 95 ∷ 99 ∷ 104 ∷ 117 ∷ 110 ∷ 107 ∷ 115 ∷ []

-- `int(self.meta("sealed_chunks") or 0)`
unfoldable pub sealed_chunks : Store → Result ℕ
sealed_chunks s = elim (get_or [] sealed_key s.meta) [ [] ↦ ok 0 | c ∷ text ↦ int_of (c ∷ text) ]

unfoldable pub set_meta : Bytes → Bytes → Store → Store
set_meta key value s = record s { meta = insert key value s.meta }

unfoldable pub main_ids : ℕ → ℕ → Store → List (Option Bytes)
main_ids first zero s = []
main_ids first (suc n) s = main_id first s ∷ main_ids (first + 1) n s

-- The blocks of a range of the active chain; a height without a block has no bytes to write.
unfoldable pub blocks_of :
    ⦃z : Zlib⦄ → List (Option Bytes) → Store → Result (List (Bytes × Bytes) × Store)
blocks_of [] s = ok ([], s)
blocks_of (none ∷ ids) s = err type_error
blocks_of (some id ∷ ids) s = bind (block_bytes id s) λ (found, s'). elim found [
  | none ↦ err type_error
  | some octets ↦ bind (blocks_of ids s') λ (rest, s''). ok ((id, octets) ∷ rest, s'')
]

-- Blocks of these heights that are not on the active chain.
unfoldable pub losers : ℕ → ℕ → Table ℕ Bytes → Dict HeaderRow → List (ℕ × Bytes)
losers first last main [] = []
losers first last main ((id, row) ∷ d) =
    let rest = losers first last main d in
    if leb first row.height && leb row.height last && not (on_main id main)
    then (row.height, id) ∷ rest
    else rest

unfoldable pub set_locations : List Bytes → List ChunkLocation → Store → Store
set_locations [] locations s = s
set_locations (id ∷ ids) [] s = s
set_locations (id ∷ ids) (l ∷ locations) s = set_locations ids locations (set_location id l s)

unfoldable pub delete_headers : List (ℕ × Bytes) → Dict HeaderRow → Dict HeaderRow
delete_headers [] d = d
delete_headers ((h, id) ∷ rest) d = delete_headers rest (remove id d)

unfoldable pub delete_files : List (ℕ × Bytes) → BlockFiles → BlockFiles
delete_files [] f = f
delete_files ((h, id) ∷ rest) f = delete_files rest (delete_recent h id f)

-- `zip(range(first_height, ...), ids)`
unfoldable pub number_from : ℕ → List Bytes → List (ℕ × Bytes)
number_from h [] = []
number_from h (id ∷ ids) = (h, id) ∷ number_from (h + 1) ids

-- `seal_chunk` once the chunk file is written.
unfoldable pub point_at_chunk : ℕ → ℕ → ℕ → List Bytes → List ChunkLocation → Store → Store
point_at_chunk index first last ids locations s =
    let lost = losers first last s.main_chain s.headers in
    let s₁ = set_locations ids locations s in
    let s₂ = record s₁ { headers = delete_headers lost s₁.headers } in
    let s₃ = set_meta sealed_key (decimal (index + 1)) s₂ in
    record s₃ { files = delete_files (number_from first ids ++ lost) s₃.files }

unfoldable pub seal_chunk : ⦃c : Crypto⦄ ⦃z : Zlib⦄ → ℕ → ℕ → ℕ → ℕ → Store → Result Store
seal_chunk network_id index first last s =
    bind (blocks_of (main_ids first (last + 1 - first) s) s) λ (blocks, s₁).
      bind (write_chunk network_id index first (map (λ b. b.1) blocks) s₁.files)
        λ (locations, files). ok (
          point_at_chunk index first last (map (λ b. b.0) blocks) locations
            (record s₁ { files = files }))
