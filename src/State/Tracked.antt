-- ===== src/State/Tracked.antt =====
-- `_Overlay` (core/state.py) records, for every account that it writes, the value that the state below
-- it holds. The invariant is kept by `set`, so by every step of `apply_block`.
use tal_cash.Base.{
  Bool-cases, Bytes, List, Option, [], ap, arith, bind-eq-ok, bytes_eq_iff, inl, inr, ltb, none, ok,
  refl, some, subst, ℕ, ◌+◌, ◌∷◌, ◌≡◌,
}
use tal_cash.Base.Dict.{
  IsDict, bytes_Key, contains, contains-insert, insert-IsDict, lookup, lookup-insert, number_Key,
}
use tal_cash.Crypto.{Crypto}
use tal_cash.Params.{max_amount}
use tal_cash.State.{
  Account, Overlay, StateView, apply_transfer, apply_transfers, credit, credit_outputs, get, mature,
  new_overlay, set,
}
use tal_cash.State.Accounts.{apply_transfer-eq-ok, debit, debited}
use tal_cash.Tx.{Coinbase, Output, Transaction, coinbase, sender, transfer}

pub record IsTracked (state : StateView) (o : Overlay) : Type 0 where
  pub base : o.base ≡ state
  pub accounts_dict : IsDict o.accounts
  pub previous_dict : IsDict o.previous
  pub same_keys : (a : Bytes) → contains a o.accounts ≡ contains a o.previous
  pub undo : (a : Bytes) (v : Account) → lookup a o.previous ≡ some v → v ≡ state a

pub new_overlay-IsTracked : (state : StateView) → IsTracked state (new_overlay state)
unfolding contains lookup
new_overlay-IsTracked state = record {
  base = refl;
  accounts_dict = tt;
  previous_dict = tt;
  same_keys = λ a. refl;
  undo = λ a v e. cc;
}

set-same_keys :
    (a b : Bytes) (x : Account) (o : Overlay)
    → contains b o.accounts ≡ contains b o.previous
    → contains b (set o a x).accounts ≡ contains b (set o a x).previous
unfolding set
set-same_keys a b x o same = ground (
  arith,
  bytes_eq_iff a b,
  contains-insert a b x o.accounts,
  contains-insert a b (o.base a) o.previous,
)

set-undo :
    (a b : Bytes) (x v : Account) (state : StateView) (o : Overlay)
    → o.base ≡ state
    → ((w : Account) → lookup b o.previous ≡ some w → w ≡ state b)
    → lookup b (set o a x).previous ≡ some v
    → v ≡ state b
unfolding set
set-undo a b x v state o base undo e = ground (
  arith,
  undo v,
  ap (λ (f : StateView). f a) base,
  bytes_eq_iff a b,
  lookup-insert a b (o.base a) o.previous,
)

pub set-IsTracked :
    (state : StateView) (a : Bytes) (x : Account) (o : Overlay)
    → IsTracked state o
    → IsTracked state (set o a x)
unfolding set
set-IsTracked state a x o h = record {
  base = h.base;
  accounts_dict = insert-IsDict a x o.accounts h.accounts_dict;
  previous_dict =
      ground (arith, insert-IsDict a (o.base a) o.previous h.previous_dict, h.previous_dict);
  same_keys = λ b. set-same_keys a b x o (h.same_keys b);
  undo = λ b v. set-undo a b x v state o h.base (h.undo b);
}

-- What `set` keeps, every step of a block keeps.
module _ (P : Overlay → Type 0)
    (keep : (a : Bytes) (x : Account) (o : Overlay) → P o → P (set o a x)) where
  pub credit_keeps :
      (a : Bytes) (amount : ℕ) (o o' : Overlay) → P o → credit a amount o ≡ ok o' → P o'
  unfolding credit
  credit_keeps a amount o o' h e = elim (Bool-cases (ltb max_amount ((get o a).balance + amount))) [
    | inl over ↦ cc (rw over at e)
    | inr fits ↦
        let same : set o a
              (record { balance = (get o a).balance + amount; nonce = (get o a).nonce })
            ≡ o' =
          cc (rw fits at e) in
        subst P same (keep a _ o h)
  ]

  pub credit_outputs_keeps :
      (outs : List Output) (o o' : Overlay) → P o → credit_outputs outs o ≡ ok o' → P o'
  unfolding credit_outputs
  credit_outputs_keeps [] o o' h e = let same : o ≡ o' = cc in subst P same h
  credit_outputs_keeps (out ∷ outs) o o' h e =
      let (m, first, second) = bind-eq-ok (credit out.address out.amount o) _ e in
      credit_outputs_keeps outs m o' (credit_keeps out.address out.amount o m h first) second

  pub mature_keeps :
      (height maturity : ℕ) (matured : Option Coinbase) (o o' : Overlay)
      → P o
      → mature height maturity matured o ≡ ok o'
      → P o'
  unfolding mature
  mature_keeps height maturity none o o' h e = let same : o ≡ o' = ground arith in subst P same h
  mature_keeps height maturity (some cb) o o' h e =
      credit_keeps cb.address cb.amount o o' h (ground arith)

  module _ ⦃c : Crypto⦄ where
    pub apply_transfers_keeps :
        (txs : List Transaction) (fees fees' : ℕ) (o o' : Overlay)
        → P o
        → apply_transfers txs fees o ≡ ok (o', fees')
        → P o'
    unfolding apply_transfers
    apply_transfers_keeps [] fees fees' o o' h e = let same : o ≡ o' = cc in subst P same h
    apply_transfers_keeps (coinbase _ ∷ txs) fees fees' o o' h e = cc
    apply_transfers_keeps (transfer tx ∷ txs) fees fees' o o' h e =
        let (m, first, second) = bind-eq-ok (apply_transfer tx o) _ e in
        let (_, _, credits) = apply_transfer-eq-ok tx o m first in
        apply_transfers_keeps txs (fees + tx.fee) fees' m o'
          (credit_outputs_keeps tx.outputs (debit tx o) m (keep (sender tx) (debited tx o) o h)
            credits)
          second
