-- ===== src/Chain/Undone.antt =====
-- A run of the loop of `_switch_to` that undoes a block, for tests of node/chain.py.
use tal_cash.Base.{[], none, ok, refl, some, true, ◌∷◌, ◌≡◌}
use tal_cash.Base.Dict.{bytes_Key, get_or, lookup, number_Key, remove}
use tal_cash.BlockFiles.Plain.{plain_zlib}
use tal_cash.Chain.{is_on_main_chain, main_block, same_id}
use tal_cash.Chain.Cases.{
  differ, files_read, five_files, five_id, five_row, same_five, same_tip, store_five, store_four,
  tip_header, tip_id, tip_named, tip_read, tip_row,
}
use tal_cash.Chain.Connect.{disconnect_tip, forget_block}
use tal_cash.Chain.Refused.{five_block, rules}
use tal_cash.Chain.Switch.{
  SubmitResult, climb_down, connect_all, disconnect_to, finish_switch, last_of, new_tip, seal_ready,
  seal_ready_chunks, switch_to,
}
use tal_cash.Encoding.{from_bytes}
use tal_cash.Hashing.{node_hash, pair_level}
use tal_cash.Params.{mainnet, regtest}
use tal_cash.State.{account_eq}
use tal_cash.State.Examples.{block_five}
use tal_cash.Store.{
  Store, delete_main, delete_snapshot, main_id, max_height, read_undo, take_undo, tip_height,
  write_account, write_accounts, write_rows,
}
use tal_cash.Store.Blocks.{
  block_bytes, find_block, find_header, read_place, sealed_chunks, stored_header_of,
}
use tal_cash.Store.Index.{rows_without, unindex_block, without_height}
use tal_cash.Toy.{get_ok, toy_crypto}

-- The block is connected on top of the tip, and its bytes are in a file.
unfoldable pub connected_store : Store
connected_store = record store_five {
  headers = (tip_id, tip_row) ∷ (five_id, five_row) ∷ [];
  main_chain = (4, tip_id) ∷ (5, five_id) ∷ [];
  files = five_files;
}

-- The store after the read of the block.
unfoldable pub connected_read : Store
connected_read = record connected_store { files = files_read.0 }

top_found : find_block five_id connected_store ≡ ok (some block_five, connected_read)
unfolding find_block block_bytes connected_store lookup read_place connected_read five_row
    block_five
top_found =
    rw
      (
        find_block, block_bytes, connected_store, lookup, differ, same_five, read_place, five_row,
        files_read.1, five_block, connected_read,
      )
      refl

-- The block is gone again.
unfoldable pub cut_store : Store
unfolding forget_block connected_read connected_store store_five store_four five_id take_undo lookup
    read_undo from_bytes write_accounts write_rows write_account account_eq unindex_block
    delete_main delete_snapshot without_height rows_without remove
cut_store = get_ok connected_read (forget_block 5 block_five connected_read)

top_forgotten : forget_block 5 block_five connected_read ≡ ok cut_store
unfolding cut_store pair_level node_hash
top_forgotten = refl

top_height : tip_height connected_store ≡ ok 5
unfolding tip_height max_height connected_store
top_height = refl

top_id : main_id 5 connected_store ≡ some five_id
unfolding main_id lookup connected_store
top_id = refl

cut_height : tip_height cut_store ≡ ok 4
unfolding tip_height max_height cut_store remove pair_level node_hash
cut_height = refl

top_gone : disconnect_tip connected_store ≡ ok (block_five, cut_store)
unfolding disconnect_tip main_block
top_gone = rw (disconnect_tip, top_height, main_block, top_id, top_found, top_forgotten) refl

pub one_undone : disconnect_to 1 4 connected_store ≡ ok (block_five ∷ [], cut_store)
unfolding disconnect_to
one_undone = rw (disconnect_to, top_height, top_gone, cut_height) refl

-- A switch back to the parent.
top_header : find_header tip_id connected_store ≡ ok (some tip_header)
unfolding find_header connected_store lookup stored_header_of tip_row tip_header from_bytes
top_header =
    rw (find_header, connected_store, lookup, same_tip, stored_header_of, tip_row, tip_read) refl

parent_on : is_on_main_chain tip_id connected_store ≡ ok true
unfolding is_on_main_chain same_id main_id connected_store lookup tip_header
parent_on =
    rw (is_on_main_chain, top_header, same_id, main_id, connected_store, lookup, same_tip) refl

nothing_to_connect : climb_down 5 tip_header [] connected_store ≡ ok ([], 4)
unfolding climb_down tip_header
nothing_to_connect = rw (climb_down, tip_header, tip_named, parent_on) refl

nothing_sealed : sealed_chunks cut_store ≡ ok 0
unfolding sealed_chunks cut_store get_or lookup pair_level node_hash
nothing_sealed = refl

five_undone : disconnect_to 5 4 connected_store ≡ ok (block_five ∷ [], cut_store)
unfolding disconnect_to
five_undone = rw (disconnect_to, top_height, top_gone, cut_height) refl

abbrev pub back_result : SubmitResult
back_result = record {
  outcome = new_tip;
  id = tip_id;
  error = none;
  connected = [];
  disconnected = block_five ∷ [];
}

not_ready : seal_ready_chunks rules cut_store ≡ ok cut_store
unfolding seal_ready_chunks seal_ready last_of rules regtest mainnet tip_height max_height cut_store
not_ready = rw (seal_ready_chunks, cut_height, seal_ready, nothing_sealed) refl

pub switched_back : switch_to rules tip_id connected_store ≡ ok (back_result, cut_store)
unfolding switch_to finish_switch connect_all tip_header
switched_back =
    rw
      (
        switch_to, top_header, tip_header, nothing_to_connect, top_height, five_undone,
        finish_switch, connect_all, not_ready,
      )
      refl
