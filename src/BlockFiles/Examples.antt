-- ===== src/BlockFiles/Examples.antt =====
-- Tests of node/blockfiles.py and the theorems about it at concrete inputs.
use tal_cash.Base.{Bytes, Error, List, [], arith, bind, err, ok, refl, zlib_error, ◌∷◌, ◌≡◌, ◌⊎◌}
use tal_cash.Base.Dict.{bytes_Key, lookup, number_Key, sum_by}
use tal_cash.BlockFiles.{pack_segment, split_segment, unpack_segment}
use tal_cash.BlockFiles.Cache.{read_recent_cases}
use tal_cash.BlockFiles.Chunks.{decoded_size}
use tal_cash.BlockFiles.Coherent.{IsCoherent}
use tal_cash.BlockFiles.Files.{BlockFiles, new_files, read_file, read_recent, recent_name}
use tal_cash.BlockFiles.Plain.{plain-ZlibLaws, plain_zlib}
use tal_cash.BlockFiles.Segments.{unpack_segment-pack_segment}
use tal_cash.Encoding.{from_bytes}
use tal_cash.Toy.{toy_crypto}

abbrev two_blocks : List Bytes
two_blocks = (1 ∷ 2 ∷ 3 ∷ []) ∷ (4 ∷ []) ∷ []

unpack_segment-pack_segment_example :
    bind (pack_segment two_blocks) (λ packed. unpack_segment packed 100) ≡ ok two_blocks
unfolding decoded_size
unpack_segment-pack_segment_example =
    unpack_segment-pack_segment two_blocks 100 plain-ZlibLaws (omega arith) (omega arith)
      (omega arith)

-- A segment that ends in the middle of a block.
cut_short : split_segment 64 (0 ∷ 0 ∷ 0 ∷ 9 ∷ 1 ∷ []) ≡ err zlib_error
unfolding split_segment from_bytes
cut_short = refl

new_files-IsCoherent : IsCoherent new_files
unfolding new_files lookup sum_by
new_files-IsCoherent = record {
  dict = tt;
  sizes = refl;
  bounded = omega arith;
  agrees = λ name octets h. cc;
}

read_recent_cases_example :
    ((e : Error) × (read_file (recent_name 7 (1 ∷ [])) new_files ≡ err e)
      × (read_recent 7 (1 ∷ []) new_files ≡ err e))
    ⊎ ((octets : Bytes) × (f' : BlockFiles) × (read_file (recent_name 7 (1 ∷ [])) new_files
          ≡ ok octets)
        × (read_recent 7 (1 ∷ []) new_files ≡ ok (octets, f'))
        × IsCoherent f'
        × (f'.memory ≡ new_files.memory))
read_recent_cases_example = read_recent_cases 7 (1 ∷ []) new_files new_files-IsCoherent
