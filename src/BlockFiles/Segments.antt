-- ===== src/BlockFiles/Segments.antt =====
-- A segment unpacks to the blocks that were packed (node/blockfiles.py).
use tal_cash.Base.{
  All, Bytes, List, [], ap, append_assoc, arith, bind, drop, drop-prefix, length, length-append,
  le→ltb, min, ok, refl, suc, sym, take, take-prefix, zero, ℕ, ◌*◌, ◌++◌, ◌+◌, ◌∙◌, ◌∷◌, ◌≡◌, ◌≤◌,
}
use tal_cash.Base58.RoundTrip.{split}
use tal_cash.BlockFiles.{
  Zlib, ZlibLaws, max_segment_bytes, pack_segment, segment_blocks, segment_bytes, split_segment,
  unpack_segment,
}
use tal_cash.BlockFiles.Chunks.{decoded_size}
use tal_cash.Encoding.{from_bytes, to_bytes}
use tal_cash.Encoding.BigEndian.{from_bytes-to_bytes, int_to_bytes_fits, length-to_bytes}
use tal_cash.Tx.{size}

-- The blocks of a segment: of 1 to 1,000,000 bytes each.
abbrev pub IsBlockBytes : Bytes → Type 0
IsBlockBytes b = (1 ≤ length b) × (length b ≤ 1_000_000)

-- A round of the loop.
split_more :
    (room n : ℕ) (raw : Bytes) (blocks : List Bytes)
    → from_bytes (take 4 raw) ≡ n
    → 1 ≤ n
    → n ≤ 1_000_000
    → 4 + n ≤ length raw
    → split_segment room (drop (4 + n) raw) ≡ ok blocks
    → split_segment (suc room) raw ≡ ok (take n (drop 4 raw) ∷ blocks)
unfolding split_segment
split_more room n [] blocks read one most fits rest = absurd (omega arith)
split_more room n (x ∷ raw) blocks read one most fits rest =
    rw (split_segment, read, rest) (ground arith)

segment_first :
    (room : ℕ) (b raw : Bytes) (blocks : List Bytes)
    → IsBlockBytes b
    → split_segment room raw ≡ ok blocks
    → split_segment (suc room) (to_bytes 4 (length b) ++ (b ++ raw)) ≡ ok (b ∷ blocks)
segment_first room b raw blocks fit split =
    let size = to_bytes 4 (length b) in
    let four = length-to_bytes 4 (length b) in
    let whole = size ++ (b ++ raw) in
    let read : from_bytes (take 4 whole) ≡ length b =
      ap from_bytes (take-prefix 4 size (b ++ raw) four)
      ∙ from_bytes-to_bytes 4 (length b) (omega arith) in
    let left : drop (4 + length b) whole ≡ raw =
      ap (drop (4 + length b)) (sym (append_assoc size b raw))
      ∙ drop-prefix (4 + length b) (size ++ b) raw (omega (arith, length-append size b, four)) in
    let here : take (length b) (drop 4 whole) ≡ b =
      ap (take (length b)) (drop-prefix 4 size (b ++ raw) four)
      ∙ take-prefix (length b) b raw refl in
    split_more room (length b) whole blocks read fit.0 fit.1
      (omega (arith, length-append size (b ++ raw), length-append b raw, four))
      (ap (split_segment room) left ∙ split)
    ∙ ap (λ (x : Bytes). ok (x ∷ blocks)) here

split_empty : (room : ℕ) → split_segment room [] ≡ ok []
unfolding split_segment
split_empty zero = refl
split_empty (suc room) = refl

decoded_size_bound :
    (blocks : List Bytes)
    → All IsBlockBytes blocks
    → decoded_size blocks ≤ 1_000_004 * length blocks
unfolding decoded_size
decoded_size_bound [] fit = omega arith
decoded_size_bound (b ∷ blocks) fit = omega (arith, fit.0, decoded_size_bound blocks fit.1)

pub split_segment-segment_bytes :
    (room : ℕ) (blocks : List Bytes)
    → All IsBlockBytes blocks
    → length blocks ≤ room
    → (raw : Bytes) × (segment_bytes blocks ≡ ok raw)
      × (split_segment room raw ≡ ok blocks)
      × (length raw ≡ decoded_size blocks)
unfolding segment_bytes split_segment decoded_size
split_segment-segment_bytes room [] fit h = ([], refl, split_empty room, refl)
split_segment-segment_bytes zero (b ∷ blocks) fit h = absurd (omega arith)
split_segment-segment_bytes (suc room) (b ∷ blocks) fit h =
    let (raw, packed, split, short) = split_segment-segment_bytes room blocks fit.1 (omega arith) in
    let size = to_bytes 4 (length b) in
    (
      size ++ (b ++ raw),
      rw (segment_bytes, int_to_bytes_fits 4 (length b) (omega (arith, fit.0)), packed) refl,
      segment_first room b raw blocks fit.0 split,
      omega (
        arith,
        fit.0,
        length-append size (b ++ raw),
        length-append b raw,
        length-to_bytes 4 (length b),
      ),
    )

module _ ⦃z : Zlib⦄ where
  -- If zlib unpacks what it compressed, then for at most 64 blocks of 1 to 1,000,000 bytes each,
  -- and a budget of at least their size with the length fields, pack_segment succeeds and
  -- unpack_segment returns the same blocks.
  pub unpack_segment-pack_segment :
      (blocks : List Bytes) (max_bytes : ℕ)
      → ZlibLaws
      → All IsBlockBytes blocks
      → length blocks ≤ segment_blocks
      → decoded_size blocks ≤ max_bytes
      → bind (pack_segment blocks) (λ packed. unpack_segment packed max_bytes) ≡ ok blocks
  unfolding pack_segment unpack_segment
  unpack_segment-pack_segment blocks max_bytes laws fit few budget =
      let (raw, packed, split, size) = split_segment-segment_bytes segment_blocks blocks fit few in
      let room : length raw ≤ max_segment_bytes =
        omega (arith, size, decoded_size_bound blocks fit) in
      rw
        (
          pack_segment,
          packed,
          unpack_segment,
          laws.unpacks raw (min max_bytes max_segment_bytes + 1) (omega (arith, size, room)),
          le→ltb max_segment_bytes (length raw) room,
          le→ltb max_bytes (length raw) (omega (arith, size)),
          split,
        )
        refl
