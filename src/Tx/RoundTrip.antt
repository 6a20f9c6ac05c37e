-- ===== src/Tx/RoundTrip.antt =====
-- Reading and writing transactions (core/tx.py) are inverse to one another, both ways.
use tal_cash.Base.{
  ==_iff, All, Bool-cases, Bytes, IsBytes, List, [], ap, append-nil, append_assoc, arith, bind,
  decode_error, inl, inr, length, ok, refl, subst, suc, sym, zero, ℕ, ◌++◌, ◌<◌, ◌==◌, ◌∙◌, ◌∷◌,
  ◌≡◌,
}
use tal_cash.Crypto.{payload_size, public_key_size, signature_size}
use tal_cash.Encoding.{read_fixed, read_u64, read_u8}
use tal_cash.Encoding.Reads.{
  Reads, Reads-bind, Reads-pure, Reads-read_all, Reads-read_u8, Reads-read_uint, Reads-read_var8,
  Reads-take_bytes,
}
use tal_cash.Encoding.Sound.{
  Sound, Sound-bind, Sound-err, Sound-pure, Sound-read_all, Sound-read_u8, Sound-read_uint,
  Sound-read_var8, Sound-take_bytes,
}
use tal_cash.Tx.{
  Coinbase, Output, Transaction, Transfer, coinbase, read_body, read_coinbase_body, read_output,
  read_outputs, read_transaction, read_transfer_body, read_versioned, serialize, size,
  transaction_from_bytes, transfer, tx_version, type_coinbase, type_transfer,
}
use tal_cash.Tx.Layout.{
  Fits, FitsCoinbase, FitsOutput, FitsTransfer, coinbase_layout, layout, outputs_layout,
  serialize-layout, transfer_layout, u64,
}

Reads-read_outputs :
    (os : List Output) → All FitsOutput os → Reads (read_outputs (length os)) (outputs_layout os) os
unfolding read_outputs read_output
Reads-read_outputs [] h = Reads-pure []
Reads-read_outputs (o ∷ os) (h, hs) =
    subst (λ bs. Reads (read_outputs (length (o ∷ os))) bs (o ∷ os))
      (simp (append_assoc, append-nil))
      (Reads-bind _
        (Reads-bind _ (Reads-take_bytes o.address payload_size h.address)
          (Reads-bind _ (Reads-read_uint 8 o.amount h.amount) (Reads-pure o)))
        (Reads-bind _ (Reads-read_outputs os hs) (Reads-pure (o ∷ os))))

Reads-transfer :
    (t : Transfer) → FitsTransfer t → Reads read_transaction (transfer_layout t) (transfer t)
unfolding read_transaction read_versioned read_body read_transfer_body
Reads-transfer t h = Reads-bind _ (Reads-read_u8 _ (omega arith)) (
    Reads-bind _ (Reads-read_u8 _ h.network_id) (
      Reads-bind _ (Reads-read_u8 _ (omega arith)) (
        Reads-bind _ (Reads-take_bytes _ _ h.key) (
          Reads-bind _ (Reads-read_uint 8 _ h.nonce) (
            Reads-bind _ (Reads-read_uint 8 _ h.fee) (
              Reads-bind _ (Reads-read_u8 _ h.count) (
                Reads-bind _ (Reads-read_outputs _ h.outputs) (
                  Reads-bind _ (Reads-read_var8 _ h.memo) (
                    Reads-bind _ (Reads-take_bytes _ _ h.signature)
                      (Reads-pure (transfer t)))))))))))

Reads-coinbase :
    (t : Coinbase) → FitsCoinbase t → Reads read_transaction (coinbase_layout t) (coinbase t)
unfolding read_transaction read_versioned read_body read_coinbase_body
Reads-coinbase t h = Reads-bind _ (Reads-read_u8 _ (omega arith)) (
    Reads-bind _ (Reads-read_u8 _ h.network_id) (
      Reads-bind _ (Reads-read_u8 _ (omega arith)) (
        Reads-bind _ (Reads-read_uint 8 _ h.height) (
          Reads-bind _ (Reads-take_bytes _ _ h.address) (
            Reads-bind _ (Reads-read_uint 8 _ h.amount)
              (Reads-bind _ (Reads-read_var8 _ h.memo) (Reads-pure (coinbase t))))))))

pub Reads-read_transaction : (tx : Transaction) → Fits tx → Reads read_transaction (layout tx) tx
Reads-read_transaction (transfer t) h = Reads-transfer t h
Reads-read_transaction (coinbase t) h = Reads-coinbase t h

-- A transaction whose fields fit their widths serializes, and transaction_from_bytes reads the
-- bytes back as the same transaction.
pub transaction_from_bytes-serialize :
    (tx : Transaction) → Fits tx → bind (serialize tx) transaction_from_bytes ≡ ok tx
unfolding transaction_from_bytes
transaction_from_bytes-serialize tx h =
    rw (serialize-layout tx h) (Reads-read_all (Reads-read_transaction tx h))

-- The bytes are the layout of the transaction, and its fields fit.
abbrev pub IsPrint : Transaction → Bytes → Type 0
IsPrint tx used = (used ≡ layout tx) × Fits tx

Sound-read_output : Sound read_output (λ o used. (used ≡ o.address ++ u64 o.amount) × FitsOutput o)
unfolding read_output
Sound-read_output =
    Sound-bind (read_fixed payload_size) _ (Sound-take_bytes payload_size) λ a u (p, size, valid).
      Sound-bind read_u64 _ (Sound-read_uint 8) λ v w (q, small).
        Sound-pure (record { address = a; amount = v })
          (
            rw (p, q, append-nil (u64 v)) refl,
            record { address = size; amount = small; address_bytes = valid },
          )

Sound-read_outputs :
    (n : ℕ)
    → Sound
        (read_outputs n)
        (λ os used. (used ≡ outputs_layout os) × (length os ≡ n) × All FitsOutput os)
unfolding read_outputs
Sound-read_outputs zero = Sound-pure [] (refl, refl, tt)
Sound-read_outputs (suc n) = Sound-bind read_output _ Sound-read_output λ o u (p, fits).
    Sound-bind (read_outputs n) _ (Sound-read_outputs n) λ os w (q, len, all).
      Sound-pure (o ∷ os) (rw (p, q) (simp (append-nil, append_assoc)), ap suc len, (fits, all))

-- The bytes before the fields that a branch reads.
abbrev head_bytes : ℕ → ℕ → Bytes
head_bytes network_id tx_type = tx_version ∷ network_id ∷ tx_type ∷ []

Sound-read_transfer_body :
    (network_id : ℕ)
    → network_id < 256
    → Sound
        (read_transfer_body network_id)
        (λ tx used. IsPrint tx (head_bytes network_id type_transfer ++ used))
unfolding read_transfer_body
Sound-read_transfer_body network_id small =
    Sound-bind _ _ (Sound-take_bytes public_key_size) λ key u₁ (p₁, key_size, key_bytes).
      Sound-bind _ _ (Sound-read_uint 8) λ nonce u₂ (p₂, nonce_fits).
        Sound-bind _ _ (Sound-read_uint 8) λ fee u₃ (p₃, fee_fits).
          Sound-bind _ _ Sound-read_u8 λ count u₄ (p₄, count_fits).
            Sound-bind _ _ (Sound-read_outputs count) λ outputs u₅ (p₅, len, outputs_fit).
              Sound-bind _ _ Sound-read_var8 λ memo u₆ (p₆, memo_fits, memo_bytes).
                Sound-bind _ _ (Sound-take_bytes signature_size)
                  λ signature u₇ (p₇, size, signature_bytes). Sound-pure _ (
                    rw (p₁, p₂, p₃, p₄, p₅, p₆, p₇, len) refl,
                    record {
                      network_id = small;
                      key = key_size;
                      nonce = nonce_fits;
                      fee = fee_fits;
                      count = rw len count_fits;
                      outputs = outputs_fit;
                      memo = memo_fits;
                      signature = size;
                      key_bytes = key_bytes;
                      memo_bytes = memo_bytes;
                      signature_bytes = signature_bytes;
                    },
                  )

Sound-read_coinbase_body :
    (network_id : ℕ)
    → network_id < 256
    → Sound
        (read_coinbase_body network_id)
        (λ tx used. IsPrint tx (head_bytes network_id type_coinbase ++ used))
unfolding read_coinbase_body
Sound-read_coinbase_body network_id small =
    Sound-bind _ _ (Sound-read_uint 8) λ height u₁ (p₁, height_fits).
      Sound-bind _ _ (Sound-take_bytes payload_size) λ address u₂ (p₂, size, address_bytes).
        Sound-bind _ _ (Sound-read_uint 8) λ amount u₃ (p₃, amount_fits).
          Sound-bind _ _ Sound-read_var8 λ memo u₄ (p₄, memo_fits, memo_bytes). Sound-pure _ (
            rw (p₁, p₂, p₃, p₄) refl,
            record {
              network_id = small;
              height = height_fits;
              address = size;
              amount = amount_fits;
              memo = memo_fits;
              address_bytes = address_bytes;
              memo_bytes = memo_bytes;
            },
          )

Sound-read_body :
    (network_id tx_type : ℕ)
    → network_id < 256
    → Sound
        (read_body network_id tx_type)
        (λ tx used. IsPrint tx (head_bytes network_id tx_type ++ used))
unfolding read_body
Sound-read_body network_id tx_type small = elim (Bool-cases (tx_type == type_transfer)) [
  | inl e ↦ rw (e, (==_iff tx_type type_transfer).0 e) (Sound-read_transfer_body network_id small)
  | inr e ↦ elim (Bool-cases (tx_type == type_coinbase)) [
    | inl f ↦
        rw (e, f, (==_iff tx_type type_coinbase).0 f) (Sound-read_coinbase_body network_id small)
    | inr f ↦ rw (e, f) (Sound-err decode_error)
  ]
]

pub Sound-read_transaction : Sound read_transaction IsPrint
unfolding read_transaction read_versioned
Sound-read_transaction = Sound-bind read_u8 _ Sound-read_u8 λ version u₀ (p₀, _).
    elim (Bool-cases (version == tx_version)) [
      | inl e ↦
          rw (e, p₀, (==_iff version tx_version).0 e)
            (Sound-bind read_u8 _ Sound-read_u8 λ network_id u₁ (p₁, small).
              Sound-bind read_u8 _ Sound-read_u8
                λ tx_type u₂ (p₂, _). rw (p₁, p₂) (Sound-read_body network_id tx_type small))
      | inr e ↦ rw e (Sound-err decode_error)
    ]

-- If transaction_from_bytes accepts a list of bytes, the transaction serializes to those bytes and
-- its fields fit their widths.
pub serialize-transaction_from_bytes :
    (octets : Bytes) (tx : Transaction)
    → IsBytes octets
    → transaction_from_bytes octets ≡ ok tx
    → (serialize tx ≡ ok octets) × Fits tx
unfolding transaction_from_bytes
serialize-transaction_from_bytes octets tx valid e =
    let (same, fits) = Sound-read_all octets tx Sound-read_transaction valid e in
    (serialize-layout tx fits ∙ ap ok (sym same), fits)
