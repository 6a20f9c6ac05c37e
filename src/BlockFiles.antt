-- ===== src/BlockFiles.antt =====
-- node/blockfiles.py: chunk files. zlib is not in the repository: `Zlib` takes what the code calls of it
-- as a parameter.
pub mod Chunks
pub mod Files
pub mod Segments
pub mod Coherent
pub mod Cache
pub mod Plain
mod Examples
use tal_cash.Base.{
  Bool, Bytes, List, Result, [], bind, chunk_too_large, drop, err, false, leb, length, ltb, min,
  not, ok, raise_if, suc, take, true, zero, zlib_error, ℕ, ◌&&◌, ◌++◌, ◌+◌, ◌<◌, ◌||◌, ◌∷◌, ◌≡◌,
  ◌⨟◌,
}
use tal_cash.Block.{header_size}
use tal_cash.Crypto.{Crypto, sha256}
use tal_cash.Encoding.{from_bytes, int_to_bytes}
use tal_cash.Tx.{size}

-- What `decompressobj().decompress(data, limit)` gives, and the state of the object after it.
pub record Unpacked : Type 0 where
  pub raw : Bytes
  pub has_tail : Bool
  pub eof : Bool
  pub has_unused : Bool

pub record Zlib : Type 0 where
  -- `zlib.compress(data, 6)`
  pub compress : Bytes → Bytes
  pub decompress : Bytes → ℕ → Result Unpacked

-- What zlib documents: compressed data unpacks to itself, whole, when the limit is above its length.
pub record ZlibLaws ⦃z : Zlib⦄ : Type 0 where
  pub unpacks :
      (raw : Bytes) (limit : ℕ)
      → length raw < limit
      → z.decompress (z.compress raw) limit
        ≡ ok (record { raw = raw; has_tail = false; eof = true; has_unused = false })

abbrev pub magic : Bytes
magic = 84 ∷ 67 ∷ 67 ∷ 72 ∷ 85 ∷ 78 ∷ 75 ∷ 49 ∷ []

abbrev pub segment_blocks : ℕ
segment_blocks = 64

abbrev pub chunk_header_bytes : ℕ
chunk_header_bytes = 61

abbrev pub max_segment_bytes : ℕ
max_segment_bytes = 64_000_256

pub record ChunkLocation : Type 0 where
  pub chunk : ℕ
  pub segment_offset : ℕ
  pub segment_length : ℕ
  pub position : ℕ

pub record ChunkFile : Type 0 where
  pub network_id : ℕ
  pub index : ℕ
  pub first_height : ℕ
  pub blocks : List Bytes
  pub locations : List ChunkLocation
  pub root : Bytes

unfoldable pub block_id_of : ⦃c : Crypto⦄ → Bytes → Bytes
block_id_of block_bytes = sha256 (take header_size block_bytes)

-- The bytes of a segment before compression.
unfoldable pub segment_bytes : List Bytes → Result Bytes
segment_bytes [] = ok []
segment_bytes (b ∷ blocks) =
    bind (int_to_bytes 4 (length b))
      λ size. bind (segment_bytes blocks) λ rest. ok (size ++ (b ++ rest))

unfoldable pub pack_segment : ⦃z : Zlib⦄ → List Bytes → Result Bytes
pack_segment ⦃z = z⦄ blocks = bind (segment_bytes blocks) λ raw. ok (z.compress raw)

-- The loop of `_unpack_segment` over what is left of `raw`, with room for so many blocks.
unfoldable pub split_segment : ℕ → Bytes → Result (List Bytes)
split_segment room [] = ok []
split_segment zero (x ∷ raw) = err zlib_error
split_segment (suc room) (x ∷ raw) =
    let size = from_bytes (take 4 (x ∷ raw)) in
    let others = split_segment room (drop (4 + size) (x ∷ raw)) in
    raise_if (ltb (length (x ∷ raw)) 4) zlib_error
    ⨟ raise_if (not (leb 1 size && leb size 1_000_000) || ltb (length (x ∷ raw)) (4 + size))
        zlib_error
    ⨟ bind others λ blocks. ok (take size (drop 4 (x ∷ raw)) ∷ blocks)

unfoldable pub unpack_segment : ⦃z : Zlib⦄ → Bytes → ℕ → Result (List Bytes)
unpack_segment ⦃z = z⦄ octets max_bytes =
    bind (z.decompress octets (min max_bytes max_segment_bytes + 1)) λ u.
      raise_if (ltb max_segment_bytes (length u.raw)) zlib_error
      ⨟ raise_if (ltb max_bytes (length u.raw)) chunk_too_large
      ⨟ raise_if u.has_tail zlib_error
      ⨟ raise_if (not u.eof || u.has_unused) zlib_error
      ⨟ split_segment segment_blocks u.raw
