-- ===== src/State/Supply.antt =====
-- The sum of the balances that a block writes (core/state.py), against the sum that it found, and the
-- bound on every balance.
use tal_cash.Base.{
  Bool, Bytes, List, Option, Option-cases, [], arith, bind-eq-ok, inl, inr, none, ok, some, subst,
  ℕ, ◌+◌, ◌∷◌, ◌≡◌,
}
use tal_cash.Base.Dict.{
  Dict, bytes_Key, contains, lookup, number_Key, sum_by, sum_by-insert, sum_by-insert_new,
}
use tal_cash.Block.{Block}
use tal_cash.Crypto.{Crypto}
use tal_cash.Params.{NetworkParams}
use tal_cash.State.{
  Account, BlockContext, Overlay, StateChanges, StateView, apply_block, apply_transfer,
  apply_transfers, credit, credit_outputs, get, get_over, mature, new_overlay, set,
}
use tal_cash.State.Accounts.{
  IsBounded, apply_transfer-eq-ok, credit-IsBounded, credit_outputs-IsBounded, debit, debited,
  get-set,
}
use tal_cash.State.Ledger.{Applied-after, after, apply_block-Applied, new_overlay-get}
use tal_cash.State.Tracked.{
  IsTracked, credit_keeps, credit_outputs_keeps, mature_keeps, new_overlay-IsTracked, set-IsTracked,
}
use tal_cash.Tx.{
  Coinbase, Output, Transaction, Transfer, coinbase, sender, sum_amounts, total_spent, transfer,
}

abbrev pub balances : Dict Account → ℕ
balances d = sum_by (λ (x : Account). x.balance) d

-- From `o` to `o'` the recorded balances grew by what came in less what went out, over what the
-- accounts held that `o'` records anew.
record Flows (o o' : Overlay) (incoming outgoing : ℕ) : Type 0 where
  flow :
      balances o'.accounts + balances o.previous + outgoing
      ≡ balances o.accounts + balances o'.previous + incoming

set-Flows :
    (state : StateView) (a : Bytes) (x : Account) (o : Overlay)
    → IsTracked state o
    → Flows o (set o a x) x.balance (get o a).balance
unfolding set get contains get_over
set-Flows state a x o h = elim (Option-cases (lookup a o.accounts)) [
  | inl new ↦ record {
    flow = ground (
      arith,
      h.same_keys a,
      sum_by-insert_new (λ (y : Account). y.balance) a x o.accounts,
      sum_by-insert_new (λ (y : Account). y.balance) a (o.base a) o.previous,
    );
  }
  | inr (old, known) ↦ record {
    flow =
        ground
          (arith, h.same_keys a, sum_by-insert (λ (y : Account). y.balance) a x old o.accounts);
  }
]

credit-Flows :
    (state : StateView) (a : Bytes) (amount : ℕ) (o o' : Overlay)
    → IsTracked state o
    → credit a amount o ≡ ok o'
    → Flows o o' amount 0
unfolding credit
credit-Flows state a amount o o' h e =
    let now : Account = record { balance = (get o a).balance + amount; nonce = (get o a).nonce } in
    ground (arith, (set-Flows state a now o h).flow)

credit_outputs-Flows :
    (state : StateView) (outs : List Output) (o o' : Overlay)
    → IsTracked state o
    → credit_outputs outs o ≡ ok o'
    → Flows o o' (sum_amounts outs) 0
unfolding credit_outputs sum_amounts
credit_outputs-Flows state [] o o' h e = ground arith
credit_outputs-Flows state (out ∷ outs) o o' h e =
    let (m, first, second) = bind-eq-ok (credit out.address out.amount o) _ e in
    let one = credit-Flows state out.address out.amount o m h first in
    let kept =
      credit_keeps (IsTracked state) (set-IsTracked state) out.address out.amount o m h first in
    let rest = credit_outputs-Flows state outs m o' kept second in
    record { flow = omega (arith, one.flow, rest.flow) }

-- The amount of the coinbase that matures.
abbrev pub matured_amount : Option Coinbase → ℕ
matured_amount none = 0
matured_amount (some cb) = cb.amount

mature-Flows :
    (state : StateView) (height maturity : ℕ) (matured : Option Coinbase) (o o' : Overlay)
    → IsTracked state o
    → mature height maturity matured o ≡ ok o'
    → Flows o o' (matured_amount matured) 0
unfolding mature
mature-Flows state height maturity none o o' h e = ground arith
mature-Flows state height maturity (some cb) o o' h e =
    credit-Flows state cb.address cb.amount o o' h (ground arith)

mature-IsBounded :
    (height maturity : ℕ) (matured : Option Coinbase) (o o' : Overlay)
    → IsBounded (get o)
    → mature height maturity matured o ≡ ok o'
    → IsBounded (get o')
unfolding mature
mature-IsBounded height maturity none o o' h e =
    let same : o ≡ o' = ground arith in subst (λ x. IsBounded (get x)) same h
mature-IsBounded height maturity (some cb) o o' h e =
    credit-IsBounded cb.address cb.amount o o' h (ground arith)

module _ ⦃c : Crypto⦄ where
  debit-IsBounded : (tx : Transfer) (o : Overlay) → IsBounded (get o) → IsBounded (get (debit tx o))
  debit-IsBounded tx o h a =
      ground (arith, h a, h (sender tx), get-set o (sender tx) a (debited tx o))

  apply_transfers-IsBounded :
      (txs : List Transaction) (fees fees' : ℕ) (o o' : Overlay)
      → IsBounded (get o)
      → apply_transfers txs fees o ≡ ok (o', fees')
      → IsBounded (get o')
  unfolding apply_transfers
  apply_transfers-IsBounded [] fees fees' o o' h e =
      let same : o ≡ o' = cc in subst (λ x. IsBounded (get x)) same h
  apply_transfers-IsBounded (coinbase _ ∷ txs) fees fees' o o' h e = cc
  apply_transfers-IsBounded (transfer tx ∷ txs) fees fees' o o' h e =
      let (m, first, second) = bind-eq-ok (apply_transfer tx o) _ e in
      let (_, _, credits) = apply_transfer-eq-ok tx o m first in
      apply_transfers-IsBounded txs (fees + tx.fee) fees' m o'
        (credit_outputs-IsBounded tx.outputs (debit tx o) m (debit-IsBounded tx o h) credits) second

  apply_transfer-Flows :
      (state : StateView) (tx : Transfer) (o o' : Overlay)
      → IsTracked state o
      → apply_transfer tx o ≡ ok o'
      → Flows o o' 0 tx.fee × IsTracked state o'
  unfolding total_spent
  apply_transfer-Flows state tx o o' h e =
      let (_, covered, credits) = apply_transfer-eq-ok tx o o' e in
      let less = set-Flows state (sender tx) (debited tx o) o h in
      let kept = set-IsTracked state (sender tx) (debited tx o) o h in
      let more = credit_outputs-Flows state tx.outputs (debit tx o) o' kept credits in
      (
        record { flow = omega (arith, less.flow, more.flow) },
        credit_outputs_keeps (IsTracked state) (set-IsTracked state) tx.outputs (debit tx o) o' kept
            credits,
      )

  apply_transfers-Flows :
      (state : StateView) (txs : List Transaction) (fees fees' : ℕ) (o o' : Overlay)
      → IsTracked state o
      → apply_transfers txs fees o ≡ ok (o', fees')
      → Flows o o' fees fees'
  unfolding apply_transfers
  apply_transfers-Flows state [] fees fees' o o' h e = ground arith
  apply_transfers-Flows state (coinbase _ ∷ txs) fees fees' o o' h e = cc
  apply_transfers-Flows state (transfer tx ∷ txs) fees fees' o o' h e =
      let (m, first, second) = bind-eq-ok (apply_transfer tx o) _ e in
      let (one, kept) = apply_transfer-Flows state tx o m h first in
      let rest = apply_transfers-Flows state txs (fees + tx.fee) fees' m o' kept second in
      record { flow = omega (arith, one.flow, rest.flow) }

  module _ (block : Block) (ctx : BlockContext) (state : StateView) (params : NetworkParams)
      (check_pow : Bool) (changes : StateChanges)
      (accepted : apply_block block ctx state params check_pow ≡ ok changes) where
    -- If apply_block accepts a block, the balances that it writes plus the fees equal the balances
    -- of the same accounts before plus the amount of the matured coinbase.
    pub apply_block_supply :
        balances changes.accounts + changes.fees
        ≡ balances changes.previous + matured_amount ctx.matured_coinbase
    unfolding sum_by
    apply_block_supply =
        let h = apply_block-Applied block ctx state params check_pow changes accepted in
        let start =
          mature-Flows state block.header.height params.coinbase_maturity ctx.matured_coinbase
            (new_overlay state) h.opened (new_overlay-IsTracked state) h.first in
        let kept =
          mature_keeps (IsTracked state) (set-IsTracked state) block.header.height
            params.coinbase_maturity ctx.matured_coinbase (new_overlay state) h.opened
            (new_overlay-IsTracked state) h.first in
        let rest =
          apply_transfers-Flows state h.later 0 changes.fees h.opened h.closed kept h.second in
        rw (h.accounts, h.previous) (omega (arith, start.flow, rest.flow))

    -- If apply_block accepts a block over a state in which no balance is above MAX_AMOUNT, no
    -- balance is above it afterwards.
    pub apply_block-IsBounded : IsBounded state → IsBounded (after state changes)
    apply_block-IsBounded bounded a =
        let h = apply_block-Applied block ctx state params check_pow changes accepted in
        rw (Applied-after h a) (
          apply_transfers-IsBounded h.later 0 changes.fees h.opened h.closed
            (mature-IsBounded block.header.height params.coinbase_maturity ctx.matured_coinbase
              (new_overlay state) h.opened (λ b. rw (new_overlay-get state b) (bounded b)) h.first)
            h.second a)
