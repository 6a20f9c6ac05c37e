-- ===== src/Chain/Examples.antt =====
-- The theorems about node/chain.py and node/store.py at concrete inputs.
use tal_cash.Base.{
  Bytes, List, [], bad_target, bind, false, ok, refl, some, subst, sym, validation, ℕ, ◌+◌, ◌∷◌,
  ◌≡◌,
}
use tal_cash.Base.Dict.{bytes_Key, lookup, number_Key}
use tal_cash.BlockFiles.Cache.{read_recent-write_recent}
use tal_cash.BlockFiles.Coherent.{IsCoherent}
use tal_cash.BlockFiles.Files.{BlockFiles, new_files, read_recent}
use tal_cash.BlockFiles.Plain.{plain_zlib}
use tal_cash.Chain.{finalized_height}
use tal_cash.Chain.Cases.{
  five_bytes, five_files, five_id, five_named, five_recorded, five_serialized, five_written,
  four-IsClear, four_view, no_files-IsCoherent, no_undo, store_five, store_four, store_tip,
  tip_final, tip_header, tip_id, undo_fits, undo_rows, waiting,
}
use tal_cash.Chain.Connect.{forget_block}
use tal_cash.Chain.Failure.{Unswitched, switch_to-failed}
use tal_cash.Chain.Finality.{ForkPoint, check_finality-ForkPoint}
use tal_cash.Chain.Refused.{failed_run, marked, rules}
use tal_cash.Chain.Reorg.{IsRestored, forget_block-record_block}
use tal_cash.Chain.Switch.{climb_down, invalid_result}
use tal_cash.Chain.Switched.{IsSwitched, switch_to-IsSwitched}
use tal_cash.Chain.Undoing.{IsCutAt, disconnect_to-IsCutAt}
use tal_cash.Chain.Undone.{back_result, connected_store, cut_store, one_undone, switched_back}
use tal_cash.Params.{regtest}
use tal_cash.State.{apply_block, get_over}
use tal_cash.State.Examples.{accepted, before, block_five, changes, five_context, short_maturity}
use tal_cash.State.Undo.{previous-IsDict}
use tal_cash.Store.{Store, StoredHeader, put_undo, stored_account, take_undo, write_accounts}
use tal_cash.Store.Blocks.{find_header}
use tal_cash.Store.Laws.{stored_account-write_accounts}
use tal_cash.Store.Undo.{take_undo-put_undo}
use tal_cash.Toy.{toy_crypto}

forget_block-record_block_example :
    (s'' : Store) × (forget_block block_five.header.height block_five store_five ≡ ok s'')
    × IsRestored five_id store_four s''
forget_block-record_block_example =
    forget_block-record_block short_maturity block_five five_context false changes five_id
      store_four store_five five_named
      (subst (λ view. apply_block block_five five_context view short_maturity false ≡ ok changes)
        (sym four_view) accepted)
      undo_fits undo_rows four-IsClear five_recorded

take_undo-put_undo_example :
    bind (put_undo five_id changes.previous store_four) (take_undo five_id)
    ≡ ok (changes.previous, store_four)
take_undo-put_undo_example =
    take_undo-put_undo five_id changes.previous store_four no_undo
      (previous-IsDict block_five five_context before short_maturity false changes [] accepted)
      undo_fits

read_recent-write_recent_example :
    (f'' : BlockFiles) × (read_recent block_five.header.height five_id five_files
      ≡ ok (five_bytes, f''))
    × IsCoherent f''
read_recent-write_recent_example =
    read_recent-write_recent block_five five_id five_bytes new_files five_files no_files-IsCoherent
      five_named five_serialized five_written

check_finality-ForkPoint_example :
    (finalized : ℕ) × (finalized_height regtest store_tip ≡ ok finalized)
    × ForkPoint store_tip tip_header finalized
check_finality-ForkPoint_example =
    check_finality-ForkPoint regtest tip_header store_tip tt tip_final

switch_to-failed_example : Unswitched waiting marked
switch_to-failed_example =
    switch_to-failed rules five_id waiting marked (invalid_result five_id (validation bad_target))
      failed_run refl

stored_account-write_accounts_example :
    (s' : Store) × (write_accounts changes.previous store_four ≡ ok s')
    × ((a : Bytes)
        → stored_account s' a ≡ get_over (lookup a changes.previous) (stored_account store_four a))
stored_account-write_accounts_example =
    stored_account-write_accounts changes.previous store_four
      (previous-IsDict block_five five_context before short_maturity false changes [] accepted)
      undo_rows

disconnect_to-IsCutAt_example : IsCutAt 4 connected_store cut_store
disconnect_to-IsCutAt_example =
    disconnect_to-IsCutAt 1 4 connected_store cut_store (block_five ∷ []) one_undone

switch_to-IsSwitched_example :
    (current : StoredHeader) × (branch : List Bytes) × (fork : ℕ) × (find_header tip_id
        connected_store
      ≡ ok (some current))
    × (climb_down (current.header.height + 1) current [] connected_store ≡ ok (branch, fork))
    × IsSwitched fork [] connected_store cut_store
switch_to-IsSwitched_example =
    switch_to-IsSwitched rules tip_id connected_store cut_store back_result switched_back refl
