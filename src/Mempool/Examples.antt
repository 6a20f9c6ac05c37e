-- ===== src/Mempool/Examples.antt =====
-- Tests of node/mempool.py and the theorems about it at concrete inputs.
use tal_cash.Base.{
  Bytes, [], arith, bytes_eq, err, fee_too_low, mempool_full, ok, refl, validation, ℕ, ◌∷◌, ◌≡◌,
  ◌≤◌, ◌⊎◌,
}
use tal_cash.Base.Dict.{
  bytes_Key, contains, delete, get_or, insert, item, lookup, number_Key, remove, values,
}
use tal_cash.Block.{member}
use tal_cash.Crypto.{is_known_payload, payload_from_public_key, verify, zero_bytes}
use tal_cash.Encoding.{
  append_part, from_bytes, get_value, to_bytes, uint_bytes, write_fixed, write_uint, write_var8,
  written,
}
use tal_cash.Mempool.{Mempool, fee_rate, fraction_eq, fraction_lt, max_key, new_mempool, pending_of}
use tal_cash.Mempool.Add.{
  add, check_nonce, check_policy, insert_checked, insert_transfer, note_receivers, place, put_entry,
  remove_replaced, spent_besides,
}
use tal_cash.Mempool.Evict.{
  candidate_le, candidate_of, evict, forget_receivers, heapify, heappush, is_empty, last_entries,
  last_entry, last_nonce, push_evictable, push_last, put_back, receivers, remove_entry, trim_fuel,
  trim_to_size,
}
use tal_cash.Mempool.Keeping.{IsPool}
use tal_cash.Mempool.Removal.{IsWired}
use tal_cash.Mempool.Sound.{
  IsSettled, IsSound, add-IsSound, add-unchanged, insert_transfer-IsSettled, new_mempool-IsSound,
}
use tal_cash.Mempool.Trim.{trim_to_size-returns}
use tal_cash.Params.{mainnet, regtest}
use tal_cash.Snapshot.{bytes_le}
use tal_cash.State.{Account}
use tal_cash.Toy.{toy_crypto, toy_sha256}
use tal_cash.Tx.{
  Transfer, check_outputs, check_transaction, check_transfer, has_valid_signature, sender,
  serialize, serialize_transfer, signing_message, sum_amounts, total_spent, transfer, txid,
  unsigned_bytes, write_outputs, write_unsigned,
}

abbrev rich : Account
rich = record { balance = 1_000_000; nonce = 4 }

abbrev empty_pool : Mempool
empty_pool = new_mempool regtest (λ _. rich) 1 400 64 100

abbrev recipient : Bytes
recipient = zero_bytes 21

abbrev payment : ℕ → ℕ → Transfer
payment nonce fee = record {
  network_id = 3;
  sender_public_key = zero_bytes 32;
  nonce = nonce;
  fee = fee;
  outputs = record { address = recipient; amount = 10 } ∷ [];
  memo = [];
  signature = zero_bytes 64;
}

empty-IsSound : IsSound empty_pool
empty-IsSound = new_mempool-IsSound regtest (λ _. rich) 1 400 64 100

add-IsSound_example : IsSound (add (transfer (payment 4 200)) 5 empty_pool).pool
add-IsSound_example = add-IsSound (transfer (payment 4 200)) 5 empty_pool empty-IsSound

allowed : check_policy (payment 4 200) 146 empty_pool ≡ ok tt
unfolding check_policy check_nonce spent_besides new_mempool pending_of get_or lookup total_spent
    sender payload_from_public_key toy_sha256 to_bytes from_bytes sum_amounts
allowed = refl

insert_transfer-IsSettled_example :
    IsSettled
      (record { tx = payment 4 200; txid = zero_bytes 32; size = 146; added = 5 })
      empty_pool
      (insert_transfer (payment 4 200) (zero_bytes 32) 146 5 empty_pool)
unfolding contains lookup new_mempool
insert_transfer-IsSettled_example =
    insert_transfer-IsSettled (payment 4 200) (zero_bytes 32) 146 5 empty_pool tt empty-IsSound refl
      allowed

poor_fee : (add (transfer (payment 4 3)) 5 empty_pool).result ≡ err (validation fee_too_low)
unfolding add insert_checked txid serialize serialize_transfer written write_unsigned write_uint
    uint_bytes write_fixed write_outputs write_var8 append_part get_value contains lookup
    new_mempool check_transaction check_transfer check_outputs is_known_payload has_valid_signature
    signing_message unsigned_bytes verify regtest mainnet insert_transfer check_policy sum_amounts
    toy_sha256 to_bytes from_bytes total_spent
poor_fee = refl

add-unchanged_example :
    (validation fee_too_low ≡ validation mempool_full)
    ⊎ ((add (transfer (payment 4 3)) 5 empty_pool).pool ≡ empty_pool)
add-unchanged_example =
    add-unchanged (transfer (payment 4 3)) 5 empty_pool (validation fee_too_low) empty-IsSound
      poor_fee

abbrev pool_1 : Mempool
pool_1 = (add (transfer (payment 4 200)) 5 empty_pool).pool

pool_1-IsSound : IsSound pool_1
pool_1-IsSound = add-IsSound (transfer (payment 4 200)) 5 empty_pool empty-IsSound

trim_to_size-returns_example :
    (m' : Mempool) × (trim_to_size (trim_fuel pool_1) pool_1 ≡ ok m')
    × IsPool m'
    × IsWired m'
    × (m'.bytes ≤ m'.max_bytes)
unfolding trim_fuel
trim_to_size-returns_example =
    trim_to_size-returns (trim_fuel pool_1) pool_1 pool_1-IsSound.pool pool_1-IsSound.wired
      (omega arith)

-- Two transfers of one sender.
abbrev pool_2 : Mempool
pool_2 =
    (insert_transfer (payment 5 300) (zero_bytes 32) 146 6
      (insert_transfer (payment 4 200) (zero_bytes 31) 146 5 empty_pool).pool).pool

pool_2-bytes : pool_2.bytes ≡ 292
unfolding insert_transfer check_policy new_mempool check_nonce lookup pending_of get_or total_spent
    sum_amounts spent_besides place remove_replaced put_entry contains delete insert item remove
    values bytes_eq member payload_from_public_key to_bytes from_bytes toy_sha256 sender
    note_receivers receivers candidate_le candidate_of evict forget_receivers heapify heappush
    is_empty last_entries last_entry last_nonce push_evictable push_last put_back remove_entry
    trim_fuel trim_to_size fee_rate fraction_eq fraction_lt max_key bytes_le
pool_2-bytes = refl
