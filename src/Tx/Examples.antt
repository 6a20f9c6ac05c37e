-- ===== src/Tx/Examples.antt =====
-- Tests of core/tx.py and the theorems about it at concrete inputs.
use tal_cash.Base.{
  Bytes, IsBytes, [], arith, bind, bytes_eq, decode_error, err, ok, refl, true, ◌↔◌, ◌∷◌, ◌≡◌,
}
use tal_cash.Crypto.{zero_bytes}
use tal_cash.Encoding.{read_all, read_u8, take_bytes, to_bytes, ◌>>=◌}
use tal_cash.Params.{regtest}
use tal_cash.Toy.{is_bytes, is_bytes-IsBytes, toy-Ed25519Laws, toy_crypto}
use tal_cash.Tx.{
  Coinbase, Transfer, check_transaction, coinbase, has_valid_signature, read_transaction,
  read_versioned, serialize, sign_transfer, signing_message, transaction_from_bytes, transfer,
}
use tal_cash.Tx.Layout.{
  Fits, FitsCoinbase, FitsTransfer, layout, serialize-layout, unsigned_bytes_layout,
}
use tal_cash.Tx.RoundTrip.{serialize-transaction_from_bytes, transaction_from_bytes-serialize}
use tal_cash.Tx.Rules.{
  IsValidTransfer, check_transaction-transfer_iff, has_valid_signature-sign_transfer,
}

abbrev address : Bytes
address = zero_bytes 21

abbrev payment : Transfer
payment = record {
  network_id = 3;
  sender_public_key = zero_bytes 32;
  nonce = 7;
  fee = 500;
  outputs =
      record { address = address; amount = 1_000_000 }
      ∷ record { address = address; amount = 25 }
      ∷ [];
  memo = 104 ∷ 105 ∷ [];
  signature = zero_bytes 64;
}

abbrev reward : Coinbase
reward = record { network_id = 3; height = 12; address = address; amount = 10_000_500; memo = [] }

payment-Fits : FitsTransfer payment
payment-Fits = omega arith

reward-Fits : FitsCoinbase reward
reward-Fits = omega arith

transaction_from_bytes-serialize_example :
    bind (serialize (transfer payment)) transaction_from_bytes ≡ ok (transfer payment)
transaction_from_bytes-serialize_example =
    transaction_from_bytes-serialize (transfer payment) payment-Fits

transaction_from_bytes-layout :
    transaction_from_bytes (layout (coinbase reward)) ≡ ok (coinbase reward)
transaction_from_bytes-layout =
    rw (serialize-layout (coinbase reward) reward-Fits) at
      (transaction_from_bytes-serialize (coinbase reward) reward-Fits)

layout-IsBytes : IsBytes (layout (coinbase reward))
unfolding to_bytes is_bytes
layout-IsBytes = is_bytes-IsBytes (layout (coinbase reward)) refl

serialize-transaction_from_bytes_example :
    (serialize (coinbase reward) ≡ ok (layout (coinbase reward))) × Fits (coinbase reward)
serialize-transaction_from_bytes_example =
    serialize-transaction_from_bytes (layout (coinbase reward)) (coinbase reward) layout-IsBytes
      transaction_from_bytes-layout

-- A version that is not 1 is refused.
bad_version_refused : transaction_from_bytes (2 ∷ 3 ∷ 0 ∷ []) ≡ err decode_error
unfolding transaction_from_bytes read_all read_transaction read_versioned read_u8 take_bytes ◌>>=◌
bad_version_refused = refl

check_transaction-transfer_iff_example :
    (check_transaction (transfer payment) regtest ≡ ok tt) ↔ IsValidTransfer payment regtest
check_transaction-transfer_iff_example = check_transaction-transfer_iff payment regtest

payment_signed : sign_transfer (zero_bytes 32) payment ≡ ok payment
unfolding sign_transfer signing_message bytes_eq
payment_signed = rw (unsigned_bytes_layout payment payment-Fits) refl

has_valid_signature-sign_transfer_example :
    (has_valid_signature payment ≡ ok true)
    × (payment ≡ record payment { signature = zero_bytes 64 })
has_valid_signature-sign_transfer_example =
    has_valid_signature-sign_transfer (zero_bytes 32) payment payment toy-Ed25519Laws payment_signed
