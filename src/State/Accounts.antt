-- ===== src/State/Accounts.antt =====
-- What each step of `apply_block` (core/state.py) does to one account, seen through `_Overlay.get`.
use tal_cash.Base.{
  Bytes, List, [], arith, bind-eq-ok, bytes_eq, bytes_eq_iff, if◌then◌else◌, ok, subst, ℕ, ◌+◌, ◌-◌,
  ◌∷◌, ◌≡◌, ◌≤◌,
}
use tal_cash.Base.Dict.{bytes_Key, lookup-insert, number_Key}
use tal_cash.Crypto.{Crypto}
use tal_cash.Params.{max_amount}
use tal_cash.State.{
  Account, Overlay, StateView, apply_transfer, apply_transfers, credit, credit_outputs, get, set,
}
use tal_cash.Tx.{Output, Transaction, Transfer, coinbase, sender, total_spent, transfer}

-- The amounts that outputs pay to an address.
unfoldable pub paid_to : Bytes → List Output → ℕ
paid_to a [] = 0
paid_to a (o ∷ os) = (if bytes_eq o.address a then o.amount else 0) + paid_to a os

-- Within the largest balance that the protocol allows.
abbrev pub IsBounded : StateView → Type 0
IsBounded state = (a : Bytes) → (state a).balance ≤ max_amount

pub get-set :
    (o : Overlay) (a b : Bytes) (x : Account)
    → get (set o a x) b ≡ (if bytes_eq a b then x else get o b)
unfolding get set
get-set o a b x = rw (lookup-insert a b x o.accounts) (ground arith)

-- How `get` moves in a step: the balance by what comes in and goes out, the nonce by its transfers.
pub record Moves (o o' : Overlay) (a : Bytes) (incoming outgoing sent : ℕ) : Type 0 where
  pub balance : (get o' a).balance + outgoing ≡ (get o a).balance + incoming
  pub nonce : (get o' a).nonce ≡ (get o a).nonce + sent

pub Moves-trans :
    {o o' o'' : Overlay} {a : Bytes} (i j p q s t : ℕ)
    → Moves o o' a i p s
    → Moves o' o'' a j q t
    → Moves o o'' a (i + j) (p + q) (s + t)
Moves-trans i j p q s t m n = omega arith

pub credit-Moves :
    (x a : Bytes) (amount : ℕ) (o o' : Overlay)
    → credit x amount o ≡ ok o'
    → Moves o o' a (if bytes_eq x a then amount else 0) 0 0
unfolding credit
credit-Moves x a amount o o' e = grind (
  arith,
  bytes_eq_iff x a,
  get-set o x a (record { balance = (get o x).balance + amount; nonce = (get o x).nonce }),
)

pub credit_outputs-Moves :
    (a : Bytes) (outs : List Output) (o o' : Overlay)
    → credit_outputs outs o ≡ ok o'
    → Moves o o' a (paid_to a outs) 0 0
unfolding credit_outputs paid_to
credit_outputs-Moves a [] o o' e = ground arith
credit_outputs-Moves a (out ∷ outs) o o' e =
    let (m, first, second) = bind-eq-ok (credit out.address out.amount o) _ e in
    Moves-trans _ _ 0 0 0 0 (credit-Moves out.address a out.amount o m first)
      (credit_outputs-Moves a outs m o' second)

pub credit-IsBounded :
    (x : Bytes) (amount : ℕ) (o o' : Overlay)
    → IsBounded (get o)
    → credit x amount o ≡ ok o'
    → IsBounded (get o')
unfolding credit
credit-IsBounded x amount o o' h e a = ground (
  arith,
  h a,
  get-set o x a (record { balance = (get o x).balance + amount; nonce = (get o x).nonce }),
)

pub credit_outputs-IsBounded :
    (outs : List Output) (o o' : Overlay)
    → IsBounded (get o)
    → credit_outputs outs o ≡ ok o'
    → IsBounded (get o')
unfolding credit_outputs
credit_outputs-IsBounded [] o o' h e =
    let same : o ≡ o' = cc in subst (λ x. IsBounded (get x)) same h
credit_outputs-IsBounded (out ∷ outs) o o' h e =
    let (m, first, second) = bind-eq-ok (credit out.address out.amount o) _ e in
    credit_outputs-IsBounded outs m o' (credit-IsBounded out.address out.amount o m h first) second

module _ ⦃c : Crypto⦄ where
  -- What the transfers of a block take from an address, how many it sent, and what they pay to it.
  unfoldable pub spent_by : Bytes → List Transaction → ℕ
  spent_by a [] = 0
  spent_by a (coinbase _ ∷ txs) = spent_by a txs
  spent_by a (transfer tx ∷ txs) =
      (if bytes_eq (sender tx) a then total_spent tx else 0) + spent_by a txs

  unfoldable pub sent_by : Bytes → List Transaction → ℕ
  sent_by a [] = 0
  sent_by a (coinbase _ ∷ txs) = sent_by a txs
  sent_by a (transfer tx ∷ txs) = (if bytes_eq (sender tx) a then 1 else 0) + sent_by a txs

  unfoldable pub received_by : Bytes → List Transaction → ℕ
  received_by a [] = 0
  received_by a (coinbase _ ∷ txs) = received_by a txs
  received_by a (transfer tx ∷ txs) = paid_to a tx.outputs + received_by a txs

  unfoldable pub total_fees : List Transaction → ℕ
  total_fees [] = 0
  total_fees (coinbase _ ∷ txs) = total_fees txs
  total_fees (transfer tx ∷ txs) = tx.fee + total_fees txs

  -- The sender's account after the debit of a transfer, and the overlay with it.
  abbrev pub debited : Transfer → Overlay → Account
  debited tx o = record {
    balance = (get o (sender tx)).balance - total_spent tx;
    nonce = (get o (sender tx)).nonce + 1;
  }

  abbrev pub debit : Transfer → Overlay → Overlay
  debit tx o = set o (sender tx) (debited tx o)

  -- A transfer that goes through has the sender's nonce, is covered, and is debited, then credited.
  pub apply_transfer-eq-ok :
      (tx : Transfer) (o o' : Overlay)
      → apply_transfer tx o ≡ ok o'
      → (tx.nonce ≡ (get o (sender tx)).nonce)
        × (total_spent tx ≤ (get o (sender tx)).balance)
        × (credit_outputs tx.outputs (debit tx o) ≡ ok o')
  unfolding apply_transfer
  apply_transfer-eq-ok tx o o' e = ground arith

  pub apply_transfer-Moves :
      (a : Bytes) (tx : Transfer) (o o' : Overlay)
      → apply_transfer tx o ≡ ok o'
      → Moves o o' a
          (paid_to a tx.outputs)
          (if bytes_eq (sender tx) a then total_spent tx else 0)
          (if bytes_eq (sender tx) a then 1 else 0)
  apply_transfer-Moves a tx o o' e =
      let (_, covered, rest) = apply_transfer-eq-ok tx o o' e in
      let later = credit_outputs-Moves a tx.outputs (debit tx o) o' rest in
      ground (
        arith,
        later.balance,
        later.nonce,
        get-set o (sender tx) a (debited tx o),
        bytes_eq_iff (sender tx) a,
      )

  pub apply_transfers-Moves :
      (a : Bytes) (txs : List Transaction) (fees fees' : ℕ) (o o' : Overlay)
      → apply_transfers txs fees o ≡ ok (o', fees')
      → Moves o o' a (received_by a txs) (spent_by a txs) (sent_by a txs)
        × (fees' ≡ fees + total_fees txs)
  unfolding apply_transfers received_by spent_by sent_by total_fees
  apply_transfers-Moves a [] fees fees' o o' e = ground arith
  apply_transfers-Moves a (coinbase _ ∷ txs) fees fees' o o' e = cc
  apply_transfers-Moves a (transfer tx ∷ txs) fees fees' o o' e =
      let (m, first, second) = bind-eq-ok (apply_transfer tx o) _ e in
      let (later, total) = apply_transfers-Moves a txs (fees + tx.fee) fees' m o' second in
      (Moves-trans _ _ _ _ _ _ (apply_transfer-Moves a tx o m first) later, omega arith)
