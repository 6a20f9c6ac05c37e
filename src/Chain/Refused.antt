-- ===== src/Chain/Refused.antt =====
-- A run of `_switch_to` that fails, step by step, for tests of node/chain.py: a block with a wrong target
-- on top of the tip.
use tal_cash.Base.{
  [], bad_target, bytes_eq, err, false, none, ok, refl, some, true, validation, ◌∷◌, ◌≡◌,
}
use tal_cash.Base.Dict.{bytes_Key, insert, lookup, number_Key}
use tal_cash.Base.Int.{◌/ℤ◌}
use tal_cash.Block.{block_from_bytes, read_block, read_header, read_transactions}
use tal_cash.BlockFiles.Plain.{plain_zlib}
use tal_cash.Chain.{branch_median, is_on_main_chain, median_of, recent_times, same_id, tip}
use tal_cash.Chain.Cases.{
  differ, files_read, five_bytes, five_id, five_named, five_parent, five_read, five_row,
  five_stored, same_five, same_tip, tip_header, tip_id, tip_named, tip_read, tip_row, waiting,
}
use tal_cash.Chain.Connect.{apply_prepared, context, matured_of, prepare, root_at}
use tal_cash.Chain.Switch.{
  Rules, climb_down, connect_all, connect_failed, disconnect_to, failure_of, finish_switch,
  invalid_result, mark_all, mark_invalid, switch_to,
}
use tal_cash.Difficulty.{insert_sorted, item_at, median_time_past, next_target, sorted}
use tal_cash.Encoding.{
  expect_end, from_bytes, read_all, read_u8, read_uint, read_var8, take_bytes, ◌>>=◌,
}
use tal_cash.Hashing.{node_hash, pair_level}
use tal_cash.Params.{mainnet, regtest, target_for}
use tal_cash.Snapshot.{no_snapshot, snapshot_height}
use tal_cash.State.{BlockContext, apply_block, check_header, check_header_against_parent}
use tal_cash.State.Examples.{block_five, parent_header}
use tal_cash.Store.{
  Store, main_id, max_height, roll_back, status_invalid, stored_account, tip_height,
}
use tal_cash.Store.Blocks.{
  block_bytes, change_row, children, children_of, find_block, find_header, read_place, set_status,
  stored_header_of,
}
use tal_cash.Toy.{toy_crypto}
use tal_cash.Tx.{
  read_body, read_coinbase_body, read_output, read_outputs, read_transaction, read_transfer_body,
  read_versioned,
}

five_found : find_header five_id waiting ≡ ok (some five_stored)
unfolding waiting find_header lookup stored_header_of five_row five_stored from_bytes
five_found =
    rw (find_header, waiting, lookup, differ, same_five, stored_header_of, five_row, five_read) refl

tip_waiting : find_header tip_id waiting ≡ ok (some tip_header)
unfolding waiting find_header lookup stored_header_of tip_row tip_header from_bytes
tip_waiting = rw (find_header, waiting, lookup, same_tip, stored_header_of, tip_row, tip_read) refl

five_off : is_on_main_chain five_id waiting ≡ ok false
unfolding is_on_main_chain same_id main_id waiting lookup five_stored block_five
five_off = rw (is_on_main_chain, five_found) refl

tip_on : is_on_main_chain tip_id waiting ≡ ok true
unfolding is_on_main_chain same_id main_id waiting lookup tip_header
tip_on = rw (is_on_main_chain, tip_waiting, same_id, main_id, waiting, lookup, same_tip) refl

climbed : climb_down 6 five_stored [] waiting ≡ ok (five_id ∷ [], 4)
unfolding climb_down five_stored tip_header
climbed =
    rw
      (
        climb_down, five_stored, five_named, five_off, five_parent, tip_waiting, tip_header,
        tip_named, tip_on,
      )
      refl

waiting_height : tip_height waiting ≡ ok 4
unfolding tip_height max_height waiting
waiting_height = refl

nothing_undone : disconnect_to 4 4 waiting ≡ ok ([], waiting)
unfolding disconnect_to
nothing_undone = rw (disconnect_to, waiting_height) refl

-- The store after the read of the block.
read_store : Store
read_store = record waiting { files = files_read.0 }

pub five_block : block_from_bytes five_bytes ≡ ok block_five
unfolding five_bytes block_from_bytes read_all read_block read_header read_transactions
    read_transaction read_uint take_bytes expect_end ◌>>=◌ from_bytes pair_level node_hash read_u8
    read_versioned read_body read_coinbase_body read_var8 read_transfer_body read_outputs
    read_output
five_block = refl

block_read : find_block five_id waiting ≡ ok (some block_five, read_store)
unfolding find_block block_bytes waiting lookup read_place read_store five_row block_five
block_read =
    rw
      (
        find_block, block_bytes, waiting, lookup, differ, same_five, read_place, five_row,
        files_read.1, five_block, read_store,
      )
      refl

tip_after_read : find_header tip_id read_store ≡ ok (some tip_header)
unfolding read_store find_header
tip_after_read = tip_waiting

tip_of_read : tip read_store ≡ ok tip_header
unfolding tip read_store waiting max_height main_id lookup
tip_of_read = rw tip_after_read refl

no_grandparent : find_header parent_header.prev_id read_store ≡ ok none
unfolding find_header read_store waiting lookup tip_id five_id bytes_eq block_five pair_level
    node_hash
no_grandparent = refl

read_median : branch_median tip_id regtest read_store ≡ ok 1_767_225_690
unfolding branch_median recent_times tip_header regtest mainnet median_of median_time_past sorted
    insert_sorted item_at
read_median = rw (branch_median, tip_after_read, recent_times, tip_header, no_grandparent) refl

target_found : next_target regtest parent_header parent_header ≡ ok regtest.genesis_target
unfolding next_target regtest
target_found = refl

tip_context : BlockContext
unfolding regtest mainnet
tip_context = record {
  parent = parent_header;
  median_time_past = 1_767_225_690;
  expected_target = regtest.genesis_target;
  matured_coinbase = none;
  snapshot_root = no_snapshot;
}

read_context : context regtest parent_header parent_header read_store ≡ ok (tip_context, read_store)
unfolding context matured_of root_at regtest mainnet snapshot_height tip_context ◌/ℤ◌
read_context = rw (context, tip_named, read_median, target_found) refl

wrong_target :
    apply_block block_five tip_context (stored_account read_store) regtest false
    ≡ err (validation bad_target)
unfolding apply_block check_header check_header_against_parent tip_context block_five next_target
    regtest target_for bytes_eq pair_level node_hash
wrong_target = refl

same_parent : bytes_eq block_five.header.prev_id tip_id ≡ true
same_parent = rw five_parent same_tip

five_prepared : prepare regtest parent_header block_five read_store ≡ ok (tip_context, read_store)
unfolding prepare tip_header
five_prepared = rw (prepare, tip_of_read, tip_header, tip_named, same_parent, read_context) refl

five_refused :
    apply_prepared regtest block_five tip_context read_store ≡ err (validation bad_target)
unfolding apply_prepared
five_refused = rw (apply_prepared, wrong_target) refl

unfoldable pub rules : Rules
unfolding regtest
rules = record { params = regtest; genesis = parent_header }

attempt :
    connect_all rules (five_id ∷ []) waiting
    ≡ connect_failed five_id (validation bad_target) read_store
unfolding connect_all failure_of rules
attempt = rw (connect_all, block_read, rules, five_prepared, five_refused) refl

pub marked : Store
marked = set_status five_id status_invalid read_store

no_children : children five_id marked ≡ []
unfolding children children_of marked set_status change_row read_store waiting lookup insert tip_id
    five_id tip_row five_row bytes_eq block_five pair_level node_hash
no_children = refl

five_marked : mark_invalid five_id (roll_back waiting read_store) ≡ ok marked
unfolding mark_invalid mark_all waiting marked read_store roll_back
five_marked = rw (mark_invalid, waiting, mark_all, no_children) refl

pub failed_run :
    switch_to rules five_id waiting ≡ ok (invalid_result five_id (validation bad_target), marked)
unfolding switch_to finish_switch five_stored block_five
failed_run =
    rw
      (
        switch_to, five_found, climbed, waiting_height, nothing_undone, attempt, finish_switch,
        five_marked,
      )
      refl
