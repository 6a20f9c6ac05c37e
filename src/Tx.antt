-- ===== src/Tx.antt =====
-- core/tx.py: transfers and coinbases, their bytes, and the rules that need no chain state.
pub mod Layout
pub mod RoundTrip
pub mod Rules
mod Examples
use tal_cash.Base.{
  Bool, Bytes, List, Result, [], amount_overflow, bad_address, bad_amount, bad_fee,
  bad_output_count, bad_signature, bind, bytes_eq, decode_error, if◌then◌else◌, leb, length, ltb,
  memo_too_large, not, ok, raise_if, suc, validation, value_error, wrong_network, zero, ℕ, ◌&&◌,
  ◌++◌, ◌+◌, ◌==◌, ◌∷◌, ◌⨟◌,
}
use tal_cash.Crypto.{
  Crypto, is_known_payload, payload_from_public_key, payload_size, private_key_size,
  public_key_size, sha256, signature_size, verify,
}
use tal_cash.Encoding.{
  Reading, Writing, pure, raise, read_all, read_fixed, read_u64, read_u8, read_var8, write_fixed,
  write_u64, write_u8, write_var8, written, ◌>>=◌, ◌⨾◌,
}
use tal_cash.Params.{NetworkParams, max_amount}

abbrev pub tx_version : ℕ
tx_version = 1

abbrev pub type_coinbase : ℕ
type_coinbase = 0

abbrev pub type_transfer : ℕ
type_transfer = 1

abbrev pub max_outputs : ℕ
max_outputs = 255

abbrev pub max_memo_size : ℕ
max_memo_size = 255

-- b"TalCash/tx/1\x00"
abbrev pub signature_domain : Bytes
signature_domain = 84 ∷ 97 ∷ 108 ∷ 67 ∷ 97 ∷ 115 ∷ 104 ∷ 47 ∷ 116 ∷ 120 ∷ 47 ∷ 49 ∷ 0 ∷ []

pub record Output : Type 0 where
  pub address : Bytes
  pub amount : ℕ

pub record Transfer : Type 0 where
  pub network_id : ℕ
  pub sender_public_key : Bytes
  pub nonce : ℕ
  pub fee : ℕ
  pub outputs : List Output
  pub memo : Bytes
  pub signature : Bytes

pub record Coinbase : Type 0 where
  pub network_id : ℕ
  pub height : ℕ
  pub address : Bytes
  pub amount : ℕ
  pub memo : Bytes

-- `Transaction = Transfer | Coinbase`
pub data Transaction : Type 0 where
  transfer : Transfer → Transaction
  coinbase : Coinbase → Transaction

-- The loop over the outputs in `_write_unsigned`.
unfoldable pub write_outputs : List Output → Writing
write_outputs [] w = ok w
write_outputs (o ∷ os) w =
    (write_fixed o.address payload_size ⨾ write_u64 o.amount ⨾ write_outputs os) w

unfoldable pub write_unsigned : Transfer → Writing
write_unsigned t =
    write_u8 tx_version
    ⨾ write_u8 t.network_id
    ⨾ write_u8 type_transfer
    ⨾ write_fixed t.sender_public_key public_key_size
    ⨾ write_u64 t.nonce
    ⨾ write_u64 t.fee
    ⨾ write_u8 (length t.outputs)
    ⨾ write_outputs t.outputs
    ⨾ write_var8 t.memo

unfoldable pub unsigned_bytes : Transfer → Result Bytes
unsigned_bytes t = written (write_unsigned t)

unfoldable pub serialize_transfer : Transfer → Result Bytes
serialize_transfer t = written (write_unsigned t ⨾ write_fixed t.signature signature_size)

unfoldable pub serialize_coinbase : Coinbase → Result Bytes
serialize_coinbase t = written (
    write_u8 tx_version
    ⨾ write_u8 t.network_id
    ⨾ write_u8 type_coinbase
    ⨾ write_u64 t.height
    ⨾ write_fixed t.address payload_size
    ⨾ write_u64 t.amount
    ⨾ write_var8 t.memo)

unfoldable pub serialize : Transaction → Result Bytes
serialize (transfer t) = serialize_transfer t
serialize (coinbase t) = serialize_coinbase t

-- `size`
unfoldable pub size : Transaction → Result ℕ
size tx = bind (serialize tx) λ octets. ok (length octets)

unfoldable pub sum_amounts : List Output → ℕ
sum_amounts [] = 0
sum_amounts (o ∷ os) = o.amount + sum_amounts os

unfoldable pub total_spent : Transfer → ℕ
total_spent t = sum_amounts t.outputs + t.fee

unfoldable pub signing_message : Transfer → Result Bytes
signing_message t = bind (unsigned_bytes t) λ octets. ok (signature_domain ++ octets)

unfoldable pub read_output : Reading Output
read_output = do
  address ← read_fixed payload_size
  amount ← read_u64
  pure (record { address = address; amount = amount })

unfoldable pub read_outputs : ℕ → Reading (List Output)
read_outputs zero = pure []
read_outputs (suc n) = do o ← read_output; os ← read_outputs n; pure (o ∷ os)

-- The two branches of `read_transaction`, after the type byte.
unfoldable pub read_transfer_body : ℕ → Reading Transaction
read_transfer_body network_id = do
  sender_public_key ← read_fixed public_key_size
  nonce ← read_u64
  fee ← read_u64
  count ← read_u8
  outputs ← read_outputs count
  memo ← read_var8
  signature ← read_fixed signature_size
  pure (
      transfer (record {
        network_id = network_id;
        sender_public_key = sender_public_key;
        nonce = nonce;
        fee = fee;
        outputs = outputs;
        memo = memo;
        signature = signature;
      }))

unfoldable pub read_coinbase_body : ℕ → Reading Transaction
read_coinbase_body network_id = do
  height ← read_u64
  address ← read_fixed payload_size
  amount ← read_u64
  memo ← read_var8
  pure (
      coinbase (record {
        network_id = network_id;
        height = height;
        address = address;
        amount = amount;
        memo = memo;
      }))

unfoldable pub read_body : ℕ → ℕ → Reading Transaction
read_body network_id tx_type =
    if tx_type == type_transfer
    then read_transfer_body network_id
    else if tx_type == type_coinbase
    then read_coinbase_body network_id
    else raise decode_error

unfoldable pub read_versioned : ℕ → Reading Transaction
read_versioned version =
    if not (version == tx_version)
    then raise decode_error
    else (do network_id ← read_u8; tx_type ← read_u8; read_body network_id tx_type)

unfoldable pub read_transaction : Reading Transaction
read_transaction = do version ← read_u8; read_versioned version

unfoldable pub transaction_from_bytes : Bytes → Result Transaction
transaction_from_bytes = read_all read_transaction

module _ ⦃c : Crypto⦄ where
  unfoldable pub txid : Transaction → Result Bytes
  txid tx = bind (serialize tx) λ octets. ok (sha256 octets)

  unfoldable pub sender : Transfer → Bytes
  sender t = payload_from_public_key t.sender_public_key

  -- `Transfer.sign`; `SigningKey` raises a `ValueError` for a seed that is not 32 bytes.
  unfoldable pub sign_transfer : Bytes → Transfer → Result Transfer
  sign_transfer private_key t =
      raise_if (not (length private_key == private_key_size)) value_error
      ⨟ raise_if (not (bytes_eq (c.public_key private_key) t.sender_public_key)) value_error
      ⨟ bind (signing_message t) λ message. ok (record t { signature = c.sign private_key message })

  unfoldable pub has_valid_signature : Transfer → Result Bool
  has_valid_signature t =
      bind (signing_message t) λ message. ok (verify t.sender_public_key message t.signature)

  -- The loop over the outputs in `check_transaction`.
  unfoldable pub check_outputs : List Output → Result (Unit {0})
  check_outputs [] = ok tt
  check_outputs (o ∷ os) =
      raise_if (not (is_known_payload o.address)) (validation bad_address)
      ⨟ raise_if (not (leb 1 o.amount && leb o.amount max_amount)) (validation bad_amount)
      ⨟ check_outputs os

  unfoldable pub check_coinbase : Coinbase → NetworkParams → Result (Unit {0})
  check_coinbase t params =
      raise_if (not (t.network_id == params.network_id)) (validation wrong_network)
      ⨟ raise_if (ltb max_memo_size (length t.memo)) (validation memo_too_large)
      ⨟ raise_if (not (is_known_payload t.address)) (validation bad_address)
      ⨟ raise_if (not (leb t.amount max_amount)) (validation bad_amount)

  unfoldable pub check_transfer : Transfer → NetworkParams → Result (Unit {0})
  check_transfer t params =
      raise_if (not (t.network_id == params.network_id)) (validation wrong_network)
      ⨟ raise_if (ltb max_memo_size (length t.memo)) (validation memo_too_large)
      ⨟ raise_if (not (leb 1 (length t.outputs) && leb (length t.outputs) max_outputs))
          (validation bad_output_count)
      ⨟ check_outputs t.outputs
      ⨟ raise_if (not (leb t.fee max_amount)) (validation bad_fee)
      ⨟ raise_if (ltb max_amount (total_spent t)) (validation amount_overflow)
      ⨟ bind (has_valid_signature t) λ valid. raise_if (not valid) (validation bad_signature)

  unfoldable pub check_transaction : Transaction → NetworkParams → Result (Unit {0})
  check_transaction (coinbase t) = check_coinbase t
  check_transaction (transfer t) = check_transfer t
