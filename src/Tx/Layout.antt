-- ===== src/Tx/Layout.antt =====
-- The byte layout of the docstring of core/tx.py, as a value of its own, and that `serialize` writes
-- it for every transaction whose fields fit.
use tal_cash.Base.{
  All, Bytes, IsBytes, List, [], append-nil, append_assoc, arith, length, ok, refl, subst, sym, ℕ,
  ◌++◌, ◌<◌, ◌^◌, ◌∷◌, ◌≡◌,
}
use tal_cash.Crypto.{payload_size, public_key_size, signature_size}
use tal_cash.Encoding.{get_value, join, to_bytes}
use tal_cash.Encoding.Writes.{
  Writes, Writes-last, Writes-write_fixed, Writes-write_u8, Writes-write_uint, Writes-write_var8,
  Writes-⨾, written-Writes,
}
use tal_cash.Tx.{
  Coinbase, Output, Transaction, Transfer, coinbase, serialize, serialize_coinbase,
  serialize_transfer, transfer, tx_version, type_coinbase, type_transfer, unsigned_bytes,
  write_outputs, write_unsigned,
}

pub record FitsOutput (o : Output) : Type 0 where
  pub address : length o.address ≡ payload_size
  pub amount : o.amount < 2 ^ 64
  pub address_bytes : IsBytes o.address

pub record FitsTransfer (t : Transfer) : Type 0 where
  pub network_id : t.network_id < 256
  pub key : length t.sender_public_key ≡ public_key_size
  pub nonce : t.nonce < 2 ^ 64
  pub fee : t.fee < 2 ^ 64
  pub count : length t.outputs < 256
  pub outputs : All FitsOutput t.outputs
  pub memo : length t.memo < 256
  pub signature : length t.signature ≡ signature_size
  pub key_bytes : IsBytes t.sender_public_key
  pub memo_bytes : IsBytes t.memo
  pub signature_bytes : IsBytes t.signature

pub record FitsCoinbase (t : Coinbase) : Type 0 where
  pub network_id : t.network_id < 256
  pub height : t.height < 2 ^ 64
  pub address : length t.address ≡ payload_size
  pub amount : t.amount < 2 ^ 64
  pub memo : length t.memo < 256
  pub address_bytes : IsBytes t.address
  pub memo_bytes : IsBytes t.memo

-- Every field fits its width in the layout.
abbrev pub Fits : Transaction → Type 0
Fits (transfer t) = FitsTransfer t
Fits (coinbase t) = FitsCoinbase t

abbrev pub u8 : ℕ → Bytes
u8 v = v ∷ []

abbrev pub u64 : ℕ → Bytes
u64 = to_bytes 8

abbrev pub var8 : Bytes → Bytes
var8 bs = length bs ∷ bs

abbrev pub outputs_layout : List Output → Bytes
outputs_layout [] = []
outputs_layout (o ∷ os) = o.address ++ (u64 o.amount ++ outputs_layout os)

-- All but the signature.
abbrev pub unsigned_layout : Transfer → Bytes
unsigned_layout t = join (
    u8 tx_version
    ∷ u8 t.network_id
    ∷ u8 type_transfer
    ∷ t.sender_public_key
    ∷ u64 t.nonce
    ∷ u64 t.fee
    ∷ u8 (length t.outputs)
    ∷ outputs_layout t.outputs
    ∷ var8 t.memo
    ∷ [])

abbrev pub transfer_layout : Transfer → Bytes
transfer_layout t = join (
    u8 tx_version
    ∷ u8 t.network_id
    ∷ u8 type_transfer
    ∷ t.sender_public_key
    ∷ u64 t.nonce
    ∷ u64 t.fee
    ∷ u8 (length t.outputs)
    ∷ outputs_layout t.outputs
    ∷ var8 t.memo
    ∷ t.signature
    ∷ [])

abbrev pub coinbase_layout : Coinbase → Bytes
coinbase_layout t = join (
    u8 tx_version
    ∷ u8 t.network_id
    ∷ u8 type_coinbase
    ∷ u64 t.height
    ∷ t.address
    ∷ u64 t.amount
    ∷ var8 t.memo
    ∷ [])

abbrev pub layout : Transaction → Bytes
layout (transfer t) = transfer_layout t
layout (coinbase t) = coinbase_layout t

Writes-write_outputs :
    (os : List Output) → All FitsOutput os → Writes (write_outputs os) (outputs_layout os)
unfolding write_outputs
Writes-write_outputs [] h = record {
  after = λ w. w;
  run = λ w. refl;
  value = λ w. sym (append-nil (get_value w));
}
Writes-write_outputs (o ∷ os) (h, hs) =
    let rest = Writes-write_outputs os hs in
    let all =
      Writes-⨾ (Writes-write_fixed o.address payload_size h.address)
        (Writes-⨾ (Writes-write_uint 8 o.amount h.amount) rest) in
    record { after = all.after; run = all.run; value = all.value }

Writes-write_unsigned :
    (t : Transfer) → FitsTransfer t → Writes (write_unsigned t) (unsigned_layout t)
unfolding write_unsigned
Writes-write_unsigned t h = Writes-⨾ (Writes-write_u8 _ (omega arith)) (
    Writes-⨾ (Writes-write_u8 _ h.network_id) (
      Writes-⨾ (Writes-write_u8 _ (omega arith)) (
        Writes-⨾ (Writes-write_fixed _ _ h.key) (
          Writes-⨾ (Writes-write_uint 8 _ h.nonce) (
            Writes-⨾ (Writes-write_uint 8 _ h.fee) (
              Writes-⨾ (Writes-write_u8 _ h.count) (
                Writes-⨾ (Writes-write_outputs _ h.outputs)
                  (Writes-last (Writes-write_var8 _ h.memo)))))))))

unsigned_layout-signature :
    (t : Transfer) → unsigned_layout t ++ (t.signature ++ []) ≡ transfer_layout t
unsigned_layout-signature t = simp (append_assoc)

pub serialize_transfer_layout :
    (t : Transfer) → FitsTransfer t → serialize_transfer t ≡ ok (transfer_layout t)
unfolding serialize_transfer
serialize_transfer_layout t h = written-Writes (
    subst (Writes _) (unsigned_layout-signature t)
      (Writes-⨾ (Writes-write_unsigned t h) (Writes-last (Writes-write_fixed _ _ h.signature))))

pub unsigned_bytes_layout :
    (t : Transfer) → FitsTransfer t → unsigned_bytes t ≡ ok (unsigned_layout t)
unfolding unsigned_bytes
unsigned_bytes_layout t h = written-Writes (Writes-write_unsigned t h)

pub serialize_coinbase_layout :
    (t : Coinbase) → FitsCoinbase t → serialize_coinbase t ≡ ok (coinbase_layout t)
unfolding serialize_coinbase
serialize_coinbase_layout t h = written-Writes (
    Writes-⨾ (Writes-write_u8 _ (omega arith)) (
      Writes-⨾ (Writes-write_u8 _ h.network_id) (
        Writes-⨾ (Writes-write_u8 _ (omega arith)) (
          Writes-⨾ (Writes-write_uint 8 _ h.height) (
            Writes-⨾ (Writes-write_fixed _ _ h.address) (
              Writes-⨾ (Writes-write_uint 8 _ h.amount)
                (Writes-last (Writes-write_var8 _ h.memo))))))))

pub serialize-layout : (tx : Transaction) → Fits tx → serialize tx ≡ ok (layout tx)
unfolding serialize
serialize-layout (transfer t) h = serialize_transfer_layout t h
serialize-layout (coinbase t) h = serialize_coinbase_layout t h
