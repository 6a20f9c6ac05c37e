-- ===== src/State.antt =====
-- core/state.py: accounts, and how a block changes them. A state is read through `get_account`;
-- `_Overlay` records what a block writes.
pub mod Accounts
pub mod Tracked
pub mod Ledger
pub mod Supply
pub mod Undo
pub mod Examples
use tal_cash.Base.{
  Bool, Bytes, List, Option, Result, [], assertion_error, bad_coinbase_amount, bad_height,
  bad_nonce, bad_pow, bad_prev_id, bad_snapshot_root, bad_target, balance_overflow, bind, bytes_eq,
  err, if◌then◌else◌, insufficient_funds, leb, ltb, none, not, ok, raise_if, runtime_error, some,
  time_too_new, time_too_old, validation, value_error, ℕ, ◌&&◌, ◌+◌, ◌-◌, ◌==◌, ◌∷◌, ◌⨟◌,
}
use tal_cash.Base.Dict.{Dict, bytes_Key, contains, insert, lookup, number_Key, remove}
use tal_cash.Block.{Block, BlockHeader, block_id, check_block}
use tal_cash.Crypto.{Crypto}
use tal_cash.Params.{NetworkParams, max_amount}
use tal_cash.Pow.{meets_target}
use tal_cash.Tx.{Coinbase, Output, Transaction, Transfer, coinbase, sender, total_spent, transfer}

pub record Account : Type 0 where
  pub balance : ℕ
  pub nonce : ℕ

abbrev pub empty_account : Account
empty_account = record { balance = 0; nonce = 0 }

unfoldable pub account_eq : Account → Account → Bool
account_eq a b = a.balance == b.balance && a.nonce == b.nonce

-- `StateView.get_account`
abbrev pub StateView : Type 0
StateView = Bytes → Account

pub record BlockContext : Type 0 where
  pub parent : BlockHeader
  pub median_time_past : ℕ
  pub expected_target : ℕ
  pub matured_coinbase : Option Coinbase
  pub snapshot_root : Bytes

pub record StateChanges : Type 0 where
  pub accounts : Dict Account
  pub previous : Dict Account
  pub fees : ℕ

-- `_Overlay`
pub record Overlay : Type 0 where
  pub base : StateView
  pub accounts : Dict Account
  pub previous : Dict Account

abbrev pub new_overlay : StateView → Overlay
new_overlay base = record { base = base; accounts = []; previous = [] }

unfoldable pub get_over : Option Account → Account → Account
get_over none below = below
get_over (some account) below = account

-- `_Overlay.get`
unfoldable pub get : Overlay → Bytes → Account
unfolding get_over
get o address = get_over (lookup address o.accounts) (o.base address)

-- `_Overlay.set`
unfoldable pub set : Overlay → Bytes → Account → Overlay
set o address account = record {
  base = o.base;
  accounts = insert address account o.accounts;
  previous =
      if contains address o.previous
      then o.previous
      else insert address (o.base address) o.previous;
}

-- `_Overlay.credit`
unfoldable pub credit : Bytes → ℕ → Overlay → Result Overlay
credit address amount o =
    let account = get o address in
    let balance = account.balance + amount in
    if ltb max_amount balance
    then err (validation balance_overflow)
    else ok (set o address (record { balance = balance; nonce = account.nonce }))

-- `overlay.credit(output.address, output.amount)` for each output
unfoldable pub credit_outputs : List Output → Overlay → Result Overlay
credit_outputs [] o = ok o
credit_outputs (out ∷ outs) o = bind (credit out.address out.amount o) (credit_outputs outs)

-- Step 1 of `apply_block`: the coinbase that is due.
unfoldable pub mature : ℕ → ℕ → Option Coinbase → Overlay → Result Overlay
mature height maturity none o = if leb maturity height then err value_error else ok o
mature height maturity (some matured) o =
    if leb maturity height
    then (if not (matured.height == height - maturity)
        then err value_error
        else credit matured.address matured.amount o)
    else err value_error

module _ ⦃c : Crypto⦄ where
  unfoldable pub check_header_against_parent :
      BlockHeader → BlockHeader → ℕ → ℕ → NetworkParams → Bool → Result (Unit {0})
  check_header_against_parent header parent median_time_past expected_target params check_pow =
      raise_if (not (header.height == parent.height + 1)) (validation bad_height)
      ⨟ bind (block_id parent) λ parent_id.
        raise_if (not (bytes_eq header.prev_id parent_id)) (validation bad_prev_id)
        ⨟ raise_if (leb header.timestamp median_time_past) (validation time_too_old)
        ⨟ raise_if (not (header.target == expected_target)) (validation bad_target)
        ⨟ (if check_pow
            then (bind (meets_target header params.pow)
                λ met. raise_if (not met) (validation bad_pow))
            else ok tt)

  unfoldable pub check_header :
      BlockHeader → BlockContext → NetworkParams → Bool → Result (Unit {0})
  check_header header ctx params check_pow =
      check_header_against_parent header ctx.parent ctx.median_time_past ctx.expected_target params
        check_pow
      ⨟ raise_if (not (bytes_eq header.snapshot_root ctx.snapshot_root))
          (validation bad_snapshot_root)

  unfoldable pub check_not_in_future : BlockHeader → ℕ → NetworkParams → Result (Unit {0})
  check_not_in_future header now params =
      raise_if (ltb (now + params.max_future_drift) header.timestamp) (validation time_too_new)

  -- One round of step 2: a transfer.
  unfoldable pub apply_transfer : Transfer → Overlay → Result Overlay
  apply_transfer tx o =
      let account = get o (sender tx) in
      raise_if (not (tx.nonce == account.nonce)) (validation bad_nonce)
      ⨟ raise_if (ltb account.balance (total_spent tx)) (validation insufficient_funds)
      ⨟ credit_outputs tx.outputs (
          set o (sender tx)
            (record { balance = account.balance - total_spent tx; nonce = account.nonce + 1 }))

  -- Step 2: the transactions after the first, with the fees so far.
  unfoldable pub apply_transfers : List Transaction → ℕ → Overlay → Result (Overlay × ℕ)
  apply_transfers [] fees o = ok (o, fees)
  apply_transfers (coinbase _ ∷ txs) fees o = err assertion_error
  apply_transfers (transfer tx ∷ txs) fees o =
      bind (apply_transfer tx o) (apply_transfers txs (fees + tx.fee))

  -- Steps 1 to 3 of `apply_block`, on the block's transactions.
  unfoldable pub apply_transactions :
      List Transaction → ℕ → Option Coinbase → StateView → NetworkParams → Result StateChanges
  apply_transactions [] height matured state params = err runtime_error
  apply_transactions (transfer _ ∷ txs) height matured state params = err assertion_error
  apply_transactions (coinbase cb ∷ txs) height matured state params =
      bind (mature height params.coinbase_maturity matured (new_overlay state)) λ o.
        bind (apply_transfers txs 0 o) λ (o', fees).
          raise_if (not (cb.amount == params.block_reward + fees)) (validation bad_coinbase_amount)
          ⨟ ok (record { accounts = o'.accounts; previous = o'.previous; fees = fees })

  unfoldable pub apply_block :
      Block → BlockContext → StateView → NetworkParams → Bool → Result StateChanges
  apply_block block ctx state params check_pow =
      check_header block.header ctx params check_pow
      ⨟ check_block block params
      ⨟ apply_transactions block.transactions block.header.height ctx.matured_coinbase state params

-- `MemoryState`
pub record MemoryState : Type 0 where
  pub accounts : Dict Account

unfoldable pub get_account : MemoryState → StateView
unfolding get_over
get_account s address = get_over (lookup address s.accounts) empty_account

-- One round of `MemoryState._write`.
unfoldable pub write_entry : Bytes → Account → MemoryState → MemoryState
write_entry address account s = record {
  accounts =
      if account_eq account empty_account
      then remove address s.accounts
      else insert address account s.accounts;
}

-- `MemoryState._write`
unfoldable pub write : Dict Account → MemoryState → MemoryState
write [] s = s
write ((address, account) ∷ values) s = write values (write_entry address account s)

-- `MemoryState.apply`
unfoldable pub apply : MemoryState → StateChanges → MemoryState
apply s changes = write changes.accounts s

-- `MemoryState.revert`
unfoldable pub revert : MemoryState → StateChanges → MemoryState
revert s changes = write changes.previous s
