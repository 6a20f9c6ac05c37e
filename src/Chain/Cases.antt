-- ===== src/Chain/Cases.antt =====
-- A store before and after a block, for tests of node/chain.py and node/store.py.
use tal_cash.Base.{
  All, Bytes, [], arith, bytes_eq, bytes_eq_iff, false, none, ok, refl, some, true, ◌∷◌, ◌≡◌,
}
use tal_cash.Base.Dict.{bytes_Key, get_or, lookup, number_Key, remove, sum_by}
use tal_cash.Block.{
  block_id, header_from_bytes, read_header, serialize_block, serialize_header, write_transactions,
}
use tal_cash.BlockFiles.Cache.{read_recent-write_recent, write_recent-IsCoherent}
use tal_cash.BlockFiles.Coherent.{IsCoherent}
use tal_cash.BlockFiles.Files.{BlockFiles, new_files, read_recent, write_recent}
use tal_cash.BlockFiles.Plain.{plain_zlib}
use tal_cash.Chain.{finalized_height, is_on_main_chain, same_id}
use tal_cash.Chain.Connect.{note_snapshot, record_block}
use tal_cash.Chain.Headers.{check_finality, meets_chain}
use tal_cash.Chain.Reorg.{IsClear}
use tal_cash.Encoding.{
  append_part, expect_end, from_bytes, get_value, int_to_bytes, read_all, read_uint, take_bytes,
  to_bytes, uint_bytes, write_fixed, write_uint, write_var8, written, ◌>>=◌,
}
use tal_cash.Hashing.{node_hash, pair_level}
use tal_cash.Mempool.Evict.{receivers}
use tal_cash.Params.{regtest}
use tal_cash.Snapshot.{is_snapshot_point}
use tal_cash.State.{account_eq, get_account}
use tal_cash.State.Examples.{
  before, block_five, changes, parent_header, sender_address, short_maturity,
}
use tal_cash.Store.{
  HeaderRow, Store, StoredHeader, insert_row, main_id, max_height, new_store, on_main, put_undo,
  set_main, status_stored, status_valid, stored_account, tip_height, undo_bytes, write_account,
  write_accounts, write_rows,
}
use tal_cash.Store.Blocks.{change_row, find_header, sealed_chunks, set_status, stored_header_of}
use tal_cash.Store.Index.{
  addresses_of, has_row, index_addresses, index_block, index_transactions, rows_without,
  without_height,
}
use tal_cash.Store.Laws.{IsAccountRow, stored_account-get_account}
use tal_cash.Store.Undo.{IsUndoEntry}
use tal_cash.Toy.{get_ok, toy_crypto, toy_sha256}
use tal_cash.Tx.{serialize, serialize_coinbase, serialize_transfer, write_outputs, write_unsigned}

-- The store before a block of height 5.
unfoldable pub store_four : Store
unfolding before new_store
store_four = record new_store { accounts = before.accounts }

unfoldable pub five_id : Bytes
unfolding block_five block_id serialize_header written write_uint uint_bytes append_part write_fixed
    get_value
five_id = get_ok [] (block_id block_five.header)

pub five_named : block_id block_five.header ≡ ok five_id
unfolding five_id pair_level node_hash
five_named = refl

pub undo_fits : All IsUndoEntry changes.previous
unfolding changes sender_address to_bytes toy_sha256 from_bytes
undo_fits = omega arith

pub undo_rows : All IsAccountRow changes.previous
unfolding changes sender_address to_bytes toy_sha256 from_bytes
undo_rows = omega arith

unfoldable pub store_five : Store
unfolding store_four five_id changes record_block put_undo undo_bytes int_to_bytes insert_row
    set_main on_main index_block index_transactions index_addresses addresses_of has_row set_status
    change_row note_snapshot is_snapshot_point write_accounts write_rows write_account account_eq
    receivers short_maturity regtest remove
store_five = get_ok store_four (record_block short_maturity block_five changes store_four)

pub five_recorded : record_block short_maturity block_five changes store_four ≡ ok store_five
unfolding store_five
five_recorded = refl

pub four-IsClear : IsClear block_five.header.height store_four
unfolding store_four block_five without_height rows_without lookup
four-IsClear = record { snapshots = refl; txs = refl; rows = refl }

pub four_view : stored_account store_four ≡ get_account before
unfolding store_four
four_view = λ i a. stored_account-get_account store_four a i

pub no_undo : lookup five_id store_four.undo ≡ none
unfolding store_four new_store lookup
no_undo = refl

unfoldable pub five_bytes : Bytes
unfolding block_five serialize_block serialize_header write_transactions serialize
    serialize_coinbase serialize_transfer write_unsigned write_outputs written write_uint uint_bytes
    append_part write_fixed write_var8 get_value to_bytes
five_bytes = get_ok [] (serialize_block block_five)

pub five_serialized : serialize_block block_five ≡ ok five_bytes
unfolding five_bytes pair_level node_hash
five_serialized = refl

pub no_files-IsCoherent : IsCoherent new_files
unfolding new_files lookup sum_by
no_files-IsCoherent = record {
  dict = tt;
  sizes = refl;
  bounded = omega arith;
  agrees = λ name octets h. cc;
}

unfoldable pub five_files : BlockFiles
five_files =
    (write_recent-IsCoherent block_five five_id five_bytes new_files no_files-IsCoherent five_named
      five_serialized).0

pub five_written : write_recent block_five new_files ≡ ok five_files
unfolding five_files
five_written =
    (write_recent-IsCoherent block_five five_id five_bytes new_files no_files-IsCoherent five_named
      five_serialized).1

-- A store whose tip is the parent of the block.
unfoldable pub tip_id : Bytes
unfolding block_id serialize_header written write_uint uint_bytes append_part write_fixed get_value
    to_bytes toy_sha256 from_bytes
tip_id = get_ok [] (block_id parent_header)

pub tip_named : block_id parent_header ≡ ok tip_id
unfolding tip_id
tip_named = refl

unfoldable pub tip_bytes : Bytes
unfolding serialize_header written write_uint uint_bytes append_part write_fixed get_value to_bytes
tip_bytes = get_ok [] (serialize_header parent_header)

pub tip_read : header_from_bytes tip_bytes ≡ ok parent_header
unfolding tip_bytes header_from_bytes read_all read_header read_uint take_bytes expect_end ◌>>=◌
    from_bytes
tip_read = refl

unfoldable pub tip_row : HeaderRow
tip_row = record {
  prev_id = parent_header.prev_id;
  height = 4;
  header = tip_bytes;
  chain_work = 7 ∷ [];
  status = status_valid;
  place = none;
}

unfoldable pub store_tip : Store
unfolding new_store
store_tip = record new_store { headers = (tip_id, tip_row) ∷ []; main_chain = (4, tip_id) ∷ [] }

unfoldable pub tip_header : StoredHeader
tip_header = record { header = parent_header; chain_work = 7; status = status_valid }

pub same_tip : bytes_eq tip_id tip_id ≡ true
same_tip = (bytes_eq_iff tip_id tip_id).1 refl

pub tip_found : find_header tip_id store_tip ≡ ok (some tip_header)
unfolding store_tip find_header lookup stored_header_of tip_row tip_header from_bytes
tip_found = rw (find_header, store_tip, lookup, same_tip, stored_header_of, tip_row, tip_read) refl

pub tip_on_chain : is_on_main_chain tip_id store_tip ≡ ok true
unfolding is_on_main_chain same_id main_id store_tip lookup tip_header
tip_on_chain = rw (is_on_main_chain, tip_found, same_id, main_id, store_tip, lookup, same_tip) refl

pub final_height : finalized_height regtest store_tip ≡ ok 0
unfolding finalized_height tip_height max_height sealed_chunks get_or lookup store_tip new_store
    regtest
final_height = refl

pub tip_final : check_finality regtest tip_header store_tip ≡ ok tt
unfolding check_finality meets_chain tip_header
tip_final = rw (check_finality, final_height, meets_chain, tip_named, tip_on_chain) refl

unfoldable pub five_header_bytes : Bytes
unfolding block_five serialize_header written write_uint uint_bytes append_part write_fixed
    get_value to_bytes pair_level node_hash
five_header_bytes = get_ok [] (serialize_header block_five.header)

pub five_read : header_from_bytes five_header_bytes ≡ ok block_five.header
unfolding five_header_bytes header_from_bytes read_all read_header read_uint take_bytes expect_end
    ◌>>=◌ from_bytes
five_read = refl

unfoldable pub five_row : HeaderRow
five_row = record {
  prev_id = tip_id;
  height = 5;
  header = five_header_bytes;
  chain_work = 9 ∷ [];
  status = status_stored;
  place = none;
}

unfoldable pub five_stored : StoredHeader
five_stored = record { header = block_five.header; chain_work = 9; status = status_stored }

unfoldable pub waiting : Store
unfolding new_store
waiting = record new_store {
  headers = (tip_id, tip_row) ∷ (five_id, five_row) ∷ [];
  main_chain = (4, tip_id) ∷ [];
  files = five_files;
}

pub differ : bytes_eq tip_id five_id ≡ false
unfolding tip_id five_id bytes_eq block_five pair_level node_hash
differ = refl

pub same_five : bytes_eq five_id five_id ≡ true
same_five = (bytes_eq_iff five_id five_id).1 refl

-- The files after the read of the block.
pub files_read :
    (f : BlockFiles) × (read_recent block_five.header.height five_id five_files
      ≡ ok (five_bytes, f))
    × IsCoherent f
files_read =
    read_recent-write_recent block_five five_id five_bytes new_files five_files no_files-IsCoherent
      five_named five_serialized five_written

pub five_parent : block_five.header.prev_id ≡ tip_id
unfolding block_five tip_id
five_parent = refl
