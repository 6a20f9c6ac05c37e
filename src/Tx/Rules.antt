-- ===== src/Tx/Rules.antt =====
-- `check_transaction` and `Transfer.sign` (core/tx.py) against the rules that they state.
use tal_cash.Base.{
  All, Bool-cases, Bytes, List, [], ap, arith, bind-eq-ok, bytes_eq, bytes_eq_iff, inl, inr, length,
  ok, refl, subst, true, ◌+◌, ◌==◌, ◌↔◌, ◌∷◌, ◌≡◌, ◌≤◌,
}
use tal_cash.Crypto.{Crypto, Ed25519Laws, is_known_payload, verify}
use tal_cash.Params.{NetworkParams, max_amount}
use tal_cash.Tx.{
  Coinbase, Output, Transfer, check_coinbase, check_outputs, check_transaction, check_transfer,
  coinbase, has_valid_signature, max_memo_size, max_outputs, sign_transfer, signing_message,
  sum_amounts, total_spent, transfer, unsigned_bytes, write_unsigned,
}

-- An output that pays a known kind of address at least one unit.
abbrev pub IsPayable : Output → Type 0
IsPayable o = (is_known_payload o.address ≡ true) × (1 ≤ o.amount) × (o.amount ≤ max_amount)

module _ ⦃c : Crypto⦄ where
  pub record IsValidTransfer (t : Transfer) (params : NetworkParams) : Type 0 where
    pub network : t.network_id ≡ params.network_id
    pub memo : length t.memo ≤ max_memo_size
    pub some_output : 1 ≤ length t.outputs
    pub few_outputs : length t.outputs ≤ max_outputs
    pub outputs : All IsPayable t.outputs
    pub fee : t.fee ≤ max_amount
    pub spent : sum_amounts t.outputs + t.fee ≤ max_amount
    pub signature : has_valid_signature t ≡ ok true

  check_outputs_sound : (os : List Output) → check_outputs os ≡ ok tt → All IsPayable os
  unfolding check_outputs
  check_outputs_sound [] h = tt
  check_outputs_sound (o ∷ os) h = ground (arith, check_outputs_sound os)

  check_outputs_complete : (os : List Output) → All IsPayable os → check_outputs os ≡ ok tt
  unfolding check_outputs
  check_outputs_complete [] h = refl
  check_outputs_complete (o ∷ os) h = ground (arith, check_outputs_complete os)

  -- check_transaction accepts a transfer exactly when it is for this network, its memo is at most
  -- 255 bytes, it has 1 to 255 outputs, each paying a known address 1 to MAX_AMOUNT units, fee and
  -- total are at most MAX_AMOUNT, and its signature verifies.
  pub check_transaction-transfer_iff :
      (t : Transfer) (params : NetworkParams)
      → (check_transaction (transfer t) params ≡ ok tt) ↔ IsValidTransfer t params
  unfolding check_transaction check_transfer total_spent
  check_transaction-transfer_iff t params = (
    λ h. ground (arith, check_outputs_sound t.outputs),
    λ v. ground (arith, check_outputs_complete t.outputs v.outputs),
  )

  -- When a coinbase is accepted.
  pub check_transaction-coinbase_iff :
      (t : Coinbase) (params : NetworkParams)
      → (check_transaction (coinbase t) params ≡ ok tt) ↔ (
          (t.network_id ≡ params.network_id)
          × (length t.memo ≤ max_memo_size)
          × (is_known_payload t.address ≡ true)
          × (t.amount ≤ max_amount))
  unfolding check_transaction check_coinbase
  check_transaction-coinbase_iff t params = (λ h. ground arith, λ v. ground arith)

  -- What the signature covers does not depend on the signature.
  pub unsigned_bytes-signature :
      (t : Transfer) (signature : Bytes)
      → unsigned_bytes (record t { signature = signature }) ≡ unsigned_bytes t
  unfolding unsigned_bytes write_unsigned
  unsigned_bytes-signature t signature = refl

  signed_verifies :
      (private_key message : Bytes) (t : Transfer)
      → Ed25519Laws
      → length private_key ≡ 32
      → bytes_eq (c.public_key private_key) t.sender_public_key ≡ true
      → signing_message t ≡ ok message
      → has_valid_signature (record t { signature = c.sign private_key message }) ≡ ok true
  unfolding has_valid_signature signing_message unsigned_bytes write_unsigned verify
  signed_verifies private_key message t laws seed own e =
      rw
        (
          e,
          ← (bytes_eq_iff (c.public_key private_key) t.sender_public_key).0 own,
          laws.key_size private_key seed,
          laws.signature_size private_key message seed,
        )
        (ap ok (laws.verifies private_key message seed))

  -- If Ed25519 verifies its own signatures for seeds of 32 bytes, a transfer that sign returns has
  -- a valid signature and differs from the given transfer in the signature only.
  pub has_valid_signature-sign_transfer :
      (private_key : Bytes) (t signed : Transfer)
      → Ed25519Laws
      → sign_transfer private_key t ≡ ok signed
      → (has_valid_signature signed ≡ ok true)
        × (signed ≡ record t { signature = signed.signature })
  unfolding sign_transfer
  has_valid_signature-sign_transfer private_key t signed laws e =
      elim (Bool-cases (length private_key == 32)) [
        | inr other ↦ cc (rw other at e)
        | inl seed ↦ elim (Bool-cases (bytes_eq (c.public_key private_key) t.sender_public_key)) [
          | inr other ↦ cc (rw (seed, other) at e)
          | inl own ↦
              let (m, em, es) = bind-eq-ok (signing_message t) _ (rw (seed, own) at e) in
              let p : record t { signature = c.sign private_key m } ≡ signed = cc es in
              (
                subst (λ x. has_valid_signature x ≡ ok true) p
                    (signed_verifies private_key m t laws (ground arith) own em),
                subst (λ (x : Transfer). x ≡ record t { signature = x.signature }) p refl,
              )
        ]
      ]
