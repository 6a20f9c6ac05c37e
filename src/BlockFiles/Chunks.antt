-- ===== src/BlockFiles/Chunks.antt =====
-- `encode_chunk` and `decode_chunk` (node/blockfiles.py).
use tal_cash.Base.{
  Bool, Bytes, List, Option, Result, [], bind, bytes_eq, chunk_error, decode_error, drop, err,
  false, length, ltb, map, min, none, not, ok, raise_if, some, suc, take, zero, zlib_error, ℕ, ◌*◌,
  ◌++◌, ◌+◌, ◌-◌, ◌/◌, ◌==◌, ◌||◌, ◌∷◌, ◌⨟◌,
}
use tal_cash.Block.{block_id, header_from_bytes, header_size}
use tal_cash.BlockFiles.{
  ChunkFile, ChunkLocation, Zlib, block_id_of, chunk_header_bytes, magic, max_segment_bytes,
  pack_segment, segment_blocks, unpack_segment,
}
use tal_cash.Crypto.{Crypto, sha256}
use tal_cash.Encoding.{
  Reading, Writing, join, new_reader, pure, read_fixed, read_u32, read_u64, read_u8, write_fixed,
  write_raw, write_u32, write_u64, write_u8, written, ◌>>=◌, ◌⨾◌,
}
use tal_cash.Hashing.{merkle_root}
use tal_cash.Tx.{size}

-- `blocks[i:i + SEGMENT_BLOCKS]` for each i; each round takes a block at least.
unfoldable pub group_blocks : ℕ → List Bytes → List (List Bytes)
group_blocks fuel [] = []
group_blocks zero (b ∷ blocks) = []
group_blocks (suc fuel) (b ∷ blocks) =
    take segment_blocks (b ∷ blocks) ∷ group_blocks fuel (drop segment_blocks (b ∷ blocks))

unfoldable pub pack_segments : ⦃z : Zlib⦄ → List (List Bytes) → Result (List Bytes)
pack_segments [] = ok []
pack_segments (g ∷ groups) =
    bind (pack_segment g) λ s. bind (pack_segments groups) λ segments. ok (s ∷ segments)

-- `ChunkLocation(index, offset, length, position) for position in range(...)`
unfoldable pub locate_group : ℕ → ℕ → ℕ → ℕ → List Bytes → List ChunkLocation
locate_group index offset size position [] = []
locate_group index offset size position (b ∷ group) =
    (record { chunk = index; segment_offset = offset; segment_length = size; position = position })
    ∷ locate_group index offset size (position + 1) group

unfoldable pub locate_groups : ℕ → ℕ → List (List Bytes) → List Bytes → List ChunkLocation
locate_groups index offset [] segments = []
locate_groups index offset (g ∷ groups) [] = []
locate_groups index offset (g ∷ groups) (s ∷ segments) =
    locate_group index offset (length s) 0 g
    ++ locate_groups index (offset + length s) groups segments

-- The segment table.
unfoldable pub write_table : ℕ → List Bytes → Writing
write_table offset [] = ok
write_table offset (s ∷ segments) =
    write_u64 offset ⨾ write_u32 (length s) ⨾ write_table (offset + length s) segments

module _ ⦃c : Crypto⦄ ⦃z : Zlib⦄ where
  unfoldable pub encode_chunk : ℕ → ℕ → ℕ → List Bytes → Result (Bytes × List ChunkLocation)
  encode_chunk network_id index first_height blocks =
      let groups = group_blocks (length blocks) blocks in
      bind (pack_segments groups) λ segments. bind (merkle_root (map block_id_of blocks)) λ root.
        let offset = chunk_header_bytes + 12 * length segments in
        bind (written (write_table offset segments)) λ table.
          bind
            (written (
              write_raw magic
              ⨾ write_u8 network_id
              ⨾ write_u32 index
              ⨾ write_u64 first_height
              ⨾ write_u32 (length blocks)
              ⨾ write_fixed root 32
              ⨾ write_u32 (length segments)))
            λ head.
              let body = head ++ table ++ join segments in
              ok (body ++ sha256 body, locate_groups index offset groups segments)

-- The fields at the head of a chunk.
pub record ChunkHead : Type 0 where
  pub network_id : ℕ
  pub index : ℕ
  pub first_height : ℕ
  pub count : ℕ
  pub root : Bytes
  pub segment_count : ℕ

unfoldable pub read_head : Reading ChunkHead
read_head = do
  _ ← read_fixed 8
  network_id ← read_u8
  index ← read_u32
  first_height ← read_u64
  count ← read_u32
  root ← read_fixed 32
  segment_count ← read_u32
  pure (record {
    network_id = network_id;
    index = index;
    first_height = first_height;
    count = count;
    root = root;
    segment_count = segment_count;
  })

unfoldable pub read_table : ℕ → Reading (List (ℕ × ℕ))
read_table zero = pure []
read_table (suc n) = do
  offset ← read_u64
  size ← read_u32
  rest ← read_table n
  pure ((offset, size) ∷ rest)

-- The segments follow on from `expected` and end with the body.
unfoldable pub check_layout : ℕ → ℕ → List (ℕ × ℕ) → Result (Unit {0})
check_layout expected size [] = raise_if (not (expected == size)) chunk_error
check_layout expected size ((offset, n) ∷ table) =
    raise_if (not (offset == expected) || n == 0 || ltb size (offset + n)) chunk_error
    ⨟ check_layout (expected + n) size table

-- `except (DecodeError, zlib.error) as error: raise ChunkError(...)`
unfoldable pub as_chunk_error {ℓ} : {A : Type ℓ} → Result A → Result A
as_chunk_error (ok a) = ok a
as_chunk_error (err e) = elim e [
  | decode_error ↦ err chunk_error
  | zlib_error ↦ err chunk_error
  | other ↦ err other
]

-- `max_blocks is not None and count > max_blocks`
unfoldable pub exceeds : Option ℕ → ℕ → Bool
exceeds none count = false
exceeds (some limit) count = ltb limit count

unfoldable pub head_checks : Option ℕ → ChunkHead → ℕ → Result (Unit {0})
head_checks max_blocks head size =
    raise_if (head.count == 0 || exceeds max_blocks head.count) chunk_error
    ⨟ raise_if (not (head.segment_count == (head.count + segment_blocks - 1) / segment_blocks))
        chunk_error
    ⨟ raise_if (ltb size (chunk_header_bytes + 12 * head.segment_count)) chunk_error

-- `sum(len(block) + 4 for block in group)`
unfoldable pub decoded_size : List Bytes → ℕ
decoded_size [] = 0
decoded_size (b ∷ group) = length b + 4 + decoded_size group

-- What is decoded never exceeds the budget, since each segment is held to what is left.
unfoldable pub budget_left : Option ℕ → ℕ → ℕ
budget_left none decoded = max_segment_bytes
budget_left (some limit) decoded = limit - decoded

-- `previous_id is not None and header.prev_id != previous_id`
unfoldable pub breaks_link : Option Bytes → Bytes → Bool
breaks_link none prev_id = false
breaks_link (some id) prev_id = not (bytes_eq prev_id id)

module _ ⦃c : Crypto⦄ ⦃z : Zlib⦄ where
  -- The loop over the table, with the number of blocks and of bytes decoded so far.
  unfoldable pub unpack_segments :
      Bytes → ChunkHead → Option ℕ → List (ℕ × ℕ) → ℕ → ℕ → Result (List Bytes × List ChunkLocation)
  unpack_segments body head budget [] known decoded = ok ([], [])
  unpack_segments body head budget ((offset, n) ∷ table) known decoded =
      bind (unpack_segment (take n (drop offset body)) (budget_left budget decoded)) λ group.
        raise_if (not (length group == min segment_blocks (head.count - known))) chunk_error
        ⨟ bind
            (unpack_segments body head budget table (known + length group)
              (decoded + decoded_size group))
            λ (blocks, locations).
              ok (group ++ blocks, locate_group head.index offset n 0 group ++ locations)

  unfoldable pub decode_body :
      Bytes → Option ℕ → Option ℕ → Result (ChunkHead × List Bytes × List ChunkLocation)
  decode_body body max_blocks budget = bind (read_head (new_reader body)) λ (head, r).
      head_checks max_blocks head (length body)
      ⨟ bind (read_table head.segment_count r) λ (table, r').
        check_layout (chunk_header_bytes + 12 * head.segment_count) (length body) table
        ⨟ bind (unpack_segments body head budget table 0 0)
            λ (blocks, locations). ok (head, blocks, locations)

  -- The loop over the blocks: their heights and links.
  unfoldable pub check_links : ℕ → Option Bytes → List Bytes → Result (Unit {0})
  check_links height previous_id [] = ok tt
  check_links height previous_id (b ∷ blocks) =
      bind (as_chunk_error (header_from_bytes (take header_size b))) λ header.
        raise_if (not (header.height == height) || breaks_link previous_id header.prev_id)
          chunk_error
        ⨟ bind (block_id header) λ id. check_links (height + 1) (some id) blocks

  unfoldable pub decode_chunk : Bytes → Option ℕ → Option ℕ → Result ChunkFile
  decode_chunk octets max_blocks budget =
      let size = length octets - 32 in
      let body = take size octets in
      raise_if
        (ltb (length octets) (chunk_header_bytes + 32) || not (bytes_eq (take 8 octets) magic))
        chunk_error
      ⨟ raise_if (not (bytes_eq (sha256 body) (drop size octets))) chunk_error
      ⨟ bind (as_chunk_error (decode_body body max_blocks budget)) λ (head, blocks, locations).
        raise_if (not (length blocks == head.count) || length blocks == 0) chunk_error
        ⨟ bind (merkle_root (map block_id_of blocks)) λ root.
          raise_if (not (bytes_eq root head.root)) chunk_error
          ⨟ check_links head.first_height none blocks
          ⨟ ok (record {
            network_id = head.network_id;
            index = head.index;
            first_height = head.first_height;
            blocks = blocks;
            locations = locations;
            root = head.root;
          })
