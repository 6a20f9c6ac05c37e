-- ===== src/Chain/Connect.antt =====
-- `_context`, `_connect` and `_disconnect_tip` (node/chain.py).
use tal_cash.Base.{
  Bytes, Option, Result, assertion_error, attribute_error, bind, bytes_eq, err, false,
  if◌then◌else◌, ltb, none, not, ok, raise_if, runtime_error, some, ℕ, ◌+◌, ◌-◌, ◌⨟◌,
}
use tal_cash.Block.{Block, BlockHeader, block_id}
use tal_cash.BlockFiles.{Zlib}
use tal_cash.Chain.{branch_median, coinbase_of, main_block, tip}
use tal_cash.Crypto.{Crypto}
use tal_cash.Difficulty.{next_target}
use tal_cash.Params.{NetworkParams}
use tal_cash.Snapshot.{is_snapshot_point, no_snapshot, snapshot_height, state_root}
use tal_cash.State.{BlockContext, StateChanges, apply_block}
use tal_cash.Store.{
  Store, delete_main, delete_snapshot, put_snapshot, put_undo, set_main, snapshot_root,
  status_valid, stored_account, take_undo, tip_height, write_accounts,
}
use tal_cash.Store.Blocks.{set_status}
use tal_cash.Store.Index.{index_block, unindex_block}
use tal_cash.Tx.{Coinbase}

unfoldable pub root_at : NetworkParams → ℕ → Store → Result Bytes
root_at params height s = elim (snapshot_height height params) [
  | none ↦ ok no_snapshot
  | some snap ↦ elim (snapshot_root snap s) [ none ↦ err runtime_error | some root ↦ ok root ]
]

module _ ⦃c : Crypto⦄ where
  -- `if is_snapshot_point(...): put_snapshot(...)`
  unfoldable pub note_snapshot : NetworkParams → ℕ → Store → Result Store
  note_snapshot params height s =
      if is_snapshot_point height params
      then (bind (state_root s.accounts) λ root. put_snapshot height root s)
      else ok s

  -- `_connect` after `apply_block`.
  unfoldable pub record_block : NetworkParams → Block → StateChanges → Store → Result Store
  record_block params b changes s = bind (block_id b.header) λ id.
      bind (write_accounts changes.accounts s) λ s₀. bind (put_undo id changes.previous s₀) λ s₁.
        bind (set_main b.header.height id s₁) λ s₂.
          bind (index_block b s₂)
            λ s₃. note_snapshot params b.header.height (set_status id status_valid s₃)

  -- `_disconnect_tip` once the block is read.
  unfoldable pub forget_block : ℕ → Block → Store → Result Store
  forget_block height b s = bind (block_id b.header) λ id. bind (take_undo id s) λ (previous, s').
      bind (write_accounts previous s')
        λ s''. ok (delete_snapshot height (delete_main height (unindex_block b s'')))

module _ ⦃c : Crypto⦄ ⦃z : Zlib⦄ where
  -- `self.main_block(due).coinbase if due >= 0 else None`
  unfoldable pub matured_of : NetworkParams → ℕ → Store → Result (Option Coinbase × Store)
  matured_of params height s =
      if ltb height params.coinbase_maturity
      then ok (none, s)
      else (bind (main_block (height - params.coinbase_maturity) s) λ (found, s'). elim found [
        | none ↦ err attribute_error
        | some b ↦ bind (coinbase_of b) λ reward. ok (some reward, s')
      ])

  -- `_context`; reading the matured block changes the caches of the files.
  unfoldable pub context :
      NetworkParams → BlockHeader → BlockHeader → Store → Result (BlockContext × Store)
  context params genesis parent s = bind (matured_of params (parent.height + 1) s) λ (matured, s').
      bind (root_at params (parent.height + 1) s') λ root. bind (block_id parent) λ id.
        bind (branch_median id params s') λ median.
          bind (next_target params genesis parent) λ target. ok (
            record {
              parent = parent;
              median_time_past = median;
              expected_target = target;
              matured_coinbase = matured;
              snapshot_root = root;
            },
            s',
          )

  unfoldable pub next_block_context :
      NetworkParams → BlockHeader → Store → Result (BlockContext × Store)
  next_block_context params genesis s = bind (tip s) λ t. context params genesis t.header s

  -- `_connect` up to `apply_block`.
  unfoldable pub prepare :
      NetworkParams → BlockHeader → Block → Store → Result (BlockContext × Store)
  prepare params genesis b s = bind (tip s) λ t. bind (block_id t.header) λ tip_id.
      raise_if (not (bytes_eq b.header.prev_id tip_id)) assertion_error
      ⨟ context params genesis t.header s

  -- `_connect` from `apply_block` on; it reads no file.
  unfoldable pub apply_prepared : NetworkParams → Block → BlockContext → Store → Result Store
  apply_prepared params b ctx s =
      bind (apply_block b ctx (stored_account s) params false)
        λ changes. record_block params b changes s

  unfoldable pub connect : NetworkParams → BlockHeader → Block → Store → Result Store
  connect params genesis b s =
      bind (prepare params genesis b s) λ (ctx, s'). apply_prepared params b ctx s'

  unfoldable pub disconnect_tip : Store → Result (Block × Store)
  disconnect_tip s = bind (tip_height s) λ height. bind (main_block height s) λ (found, s').
      elim found [
        | none ↦ err attribute_error
        | some b ↦ bind (forget_block height b s') λ s''. ok (b, s'')
      ]
