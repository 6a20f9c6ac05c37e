-- ===== src/State/Ledger.antt =====
-- What a block that `apply_block` (core/state.py) accepts does to every account.
use tal_cash.Base.{
  Bool, Bytes, List, Option, [], ap, arith, bind-eq-ok, bytes_eq, drop, if◌then◌else◌, none, ok,
  refl, some, ℕ, ◌+◌, ◌∙◌, ◌∷◌, ◌≡◌,
}
use tal_cash.Base.Dict.{bytes_Key, lookup, number_Key}
use tal_cash.Block.{Block, check_block}
use tal_cash.Crypto.{Crypto}
use tal_cash.Params.{NetworkParams}
use tal_cash.State.{
  Account, BlockContext, Overlay, StateChanges, StateView, apply_block, apply_transactions,
  apply_transfers, check_header, get, get_over, mature, new_overlay,
}
use tal_cash.State.Accounts.{
  Moves, Moves-trans, apply_transfers-Moves, credit-Moves, received_by, sent_by, spent_by,
  total_fees,
}
use tal_cash.State.Tracked.{
  IsTracked, apply_transfers_keeps, mature_keeps, new_overlay-IsTracked, set-IsTracked,
}
use tal_cash.Tx.{Coinbase, Transaction, coinbase, transfer}

-- The state after the changes of a block.
abbrev pub after : StateView → StateChanges → StateView
after state changes a = get_over (lookup a changes.accounts) (state a)

-- What the coinbase that matures pays to an address.
abbrev pub matured_to : Bytes → Option Coinbase → ℕ
matured_to a none = 0
matured_to a (some cb) = if bytes_eq cb.address a then cb.amount else 0

mature-Moves :
    (a : Bytes) (height maturity : ℕ) (matured : Option Coinbase) (o o' : Overlay)
    → mature height maturity matured o ≡ ok o'
    → Moves o o' a (matured_to a matured) 0 0
unfolding mature
mature-Moves a height maturity none o o' e = ground arith
mature-Moves a height maturity (some cb) o o' e =
    ground (arith, credit-Moves cb.address a cb.amount o o')

pub new_overlay-get : (state : StateView) (a : Bytes) → get (new_overlay state) a ≡ state a
unfolding get lookup
new_overlay-get state a = refl

module _ ⦃c : Crypto⦄ where
  -- The overlay that the accepted transactions leave, behind the changes.
  pub record Applied (txs : List Transaction) (height : ℕ) (matured : Option Coinbase)
      (state : StateView) (params : NetworkParams) (changes : StateChanges) : Type 0 where
    pub miner : Coinbase
    pub later : List Transaction
    pub opened : Overlay
    pub closed : Overlay
    pub shape : txs ≡ coinbase miner ∷ later
    pub first : mature height params.coinbase_maturity matured (new_overlay state) ≡ ok opened
    pub second : apply_transfers later 0 opened ≡ ok (closed, changes.fees)
    pub claim : miner.amount ≡ params.block_reward + changes.fees
    pub accounts : changes.accounts ≡ closed.accounts
    pub previous : changes.previous ≡ closed.previous

  apply_transactions-Applied :
      (txs : List Transaction) (height : ℕ) (matured : Option Coinbase) (state : StateView)
      (params : NetworkParams) (changes : StateChanges)
      → apply_transactions txs height matured state params ≡ ok changes
      → Applied txs height matured state params changes
  unfolding apply_transactions
  apply_transactions-Applied [] height matured state params changes e = cc
  apply_transactions-Applied (transfer _ ∷ txs) height matured state params changes e = cc
  apply_transactions-Applied (coinbase cb ∷ txs) height matured state params changes e =
      let (o, first, more) =
        bind-eq-ok (mature height params.coinbase_maturity matured (new_overlay state)) _ e in
      let ((o', fees), second, last) = bind-eq-ok (apply_transfers txs 0 o) _ more in
      let same : fees ≡ changes.fees = ground arith in
      record {
        miner = cb;
        later = txs;
        opened = o;
        closed = o';
        shape = refl;
        first = first;
        second = second ∙ ap (λ (k : ℕ). ok (o', k)) same;
        claim = ground arith;
        accounts = ground arith;
        previous = ground arith;
      }

  pub Applied-IsTracked :
      {txs : List Transaction} {height : ℕ} {matured : Option Coinbase} {state : StateView}
      {params : NetworkParams} {changes : StateChanges}
      (h : Applied txs height matured state params changes)
      → IsTracked state h.closed
  Applied-IsTracked {height = height} {matured} {state} {params} {changes} h =
      apply_transfers_keeps (IsTracked state) (set-IsTracked state) h.later 0 changes.fees h.opened
        h.closed
        (mature_keeps (IsTracked state) (set-IsTracked state) height params.coinbase_maturity
          matured (new_overlay state) h.opened (new_overlay-IsTracked state) h.first)
        h.second

  pub Applied-after :
      {txs : List Transaction} {height : ℕ} {matured : Option Coinbase} {state : StateView}
      {params : NetworkParams} {changes : StateChanges}
      (h : Applied txs height matured state params changes) (a : Bytes)
      → after state changes a ≡ get h.closed a
  unfolding get
  Applied-after h a = rw (h.accounts, (Applied-IsTracked h).base) refl

  transactions_accounts :
      (txs : List Transaction) (height : ℕ) (matured : Option Coinbase) (state : StateView)
      (params : NetworkParams) (changes : StateChanges) (a : Bytes)
      → Applied txs height matured state params changes
      → ((after state changes a).balance + spent_by a (drop 1 txs)
          ≡ (state a).balance + (matured_to a matured + received_by a (drop 1 txs)))
        × ((after state changes a).nonce ≡ (state a).nonce + sent_by a (drop 1 txs))
        × (changes.fees ≡ total_fees (drop 1 txs))
  transactions_accounts txs height matured state params changes a h =
      let start =
        mature-Moves a height params.coinbase_maturity matured (new_overlay state) h.opened
          h.first in
      let (rest, fees) =
        apply_transfers-Moves a h.later 0 changes.fees h.opened h.closed h.second in
      let all = Moves-trans _ _ _ _ _ _ start rest in
      let before = new_overlay-get state a in
      rw (h.shape, Applied-after h a)
        (
          omega (arith, all.balance, ap (λ (x : Account). x.balance) before),
          omega (arith, all.nonce, ap (λ (x : Account). x.nonce) before),
          omega (arith, fees),
        )

  -- A block that `apply_block` accepts passed the header and the block rules, and its transactions
  -- went through.
  pub apply_block-eq-ok :
      (block : Block) (ctx : BlockContext) (state : StateView) (params : NetworkParams)
      (check_pow : Bool) (changes : StateChanges)
      → apply_block block ctx state params check_pow ≡ ok changes
      → (check_header block.header ctx params check_pow ≡ ok tt)
        × (check_block block params ≡ ok tt)
        × (apply_transactions block.transactions block.header.height ctx.matured_coinbase state
              params
            ≡ ok changes)
  unfolding apply_block
  apply_block-eq-ok block ctx state params check_pow changes e = ground arith

  pub apply_block-Applied :
      (block : Block) (ctx : BlockContext) (state : StateView) (params : NetworkParams)
      (check_pow : Bool) (changes : StateChanges)
      → apply_block block ctx state params check_pow ≡ ok changes
      → Applied block.transactions block.header.height ctx.matured_coinbase state params changes
  apply_block-Applied block ctx state params check_pow changes e =
      apply_transactions-Applied block.transactions block.header.height ctx.matured_coinbase state
        params changes (apply_block-eq-ok block ctx state params check_pow changes e).2

  -- For a block that apply_block accepts and any address: its balance grows by what the matured
  -- coinbase and the block's transfers pay to it and falls by what its own transfers spend, its
  -- nonce grows by the number of its transfers, and the fees reported are those of the transfers.
  pub apply_block_accounts :
      (block : Block) (ctx : BlockContext) (state : StateView) (params : NetworkParams)
      (check_pow : Bool) (changes : StateChanges) (a : Bytes)
      → apply_block block ctx state params check_pow ≡ ok changes
      → ((after state changes a).balance + spent_by a (drop 1 block.transactions)
          ≡ (state a).balance
            + (matured_to a ctx.matured_coinbase + received_by a (drop 1 block.transactions)))
        × ((after state changes a).nonce ≡ (state a).nonce + sent_by a (drop 1 block.transactions))
        × (changes.fees ≡ total_fees (drop 1 block.transactions))
  apply_block_accounts block ctx state params check_pow changes a e =
      transactions_accounts block.transactions block.header.height ctx.matured_coinbase state params
        changes a (apply_block-Applied block ctx state params check_pow changes e)

  -- The first transaction of a block that apply_block accepts is a coinbase whose amount is exactly
  -- the block reward plus the fees of the later transfers.
  pub apply_block_reward :
      (block : Block) (ctx : BlockContext) (state : StateView) (params : NetworkParams)
      (check_pow : Bool) (changes : StateChanges)
      → apply_block block ctx state params check_pow ≡ ok changes
      → (miner : Coinbase) × (block.transactions ≡ coinbase miner ∷ drop 1 block.transactions)
        × (miner.amount ≡ params.block_reward + total_fees (drop 1 block.transactions))
  apply_block_reward block ctx state params check_pow changes e =
      let h = apply_block-Applied block ctx state params check_pow changes e in
      let (_, _, fees) = apply_block_accounts block ctx state params check_pow changes [] e in
      (h.miner, rw h.shape refl, omega (arith, h.claim, fees))
