-- ===== src/Mempool.antt =====
-- node/mempool.py: the transfers that wait for a block. The clock is an argument of the operations that
-- read it, in whole ticks; `state` is the state at the tip, which the caller replaces when it changes.
pub mod Evict
pub mod Add
pub mod Update
pub mod Select
pub mod Pool
pub mod Queue
pub mod Indexed
pub mod Keeping
pub mod Adding
pub mod Heap
pub mod Receivers
pub mod LastEntry
pub mod Removal
pub mod Trim
pub mod Placing
pub mod Sound
mod Examples
use tal_cash.Base.{
  Bool, Bytes, List, Option, [], if◌then◌else◌, leb, length, ltb, max, min, none, some, ℕ, ◌*◌, ◌+◌,
  ◌==◌, ◌∷◌,
}
use tal_cash.Base.Dict.{Dict, Table, bytes_Key, get_or, insert, number_Key, values}
use tal_cash.Params.{NetworkParams}
use tal_cash.State.{StateView}
use tal_cash.Tx.{Transfer}

-- `Fraction(numerator, denominator)` with a positive denominator.
pub record Fraction : Type 0 where
  pub numerator : ℕ
  pub denominator : ℕ

unfoldable pub fraction_lt : Fraction → Fraction → Bool
fraction_lt a b = ltb (a.numerator * b.denominator) (b.numerator * a.denominator)

unfoldable pub fraction_eq : Fraction → Fraction → Bool
fraction_eq a b = a.numerator * b.denominator == b.numerator * a.denominator

-- `txid` is `tx.txid`, which is cached.
pub record MempoolEntry : Type 0 where
  pub tx : Transfer
  pub txid : Bytes
  pub size : ℕ
  pub added : ℕ

unfoldable pub fee_rate : MempoolEntry → Fraction
fee_rate e = record { numerator = e.tx.fee; denominator = e.size }

-- One sender's transfers, by nonce.
abbrev pub Pending : Type 0
Pending = Table ℕ MempoolEntry

-- A tuple `(fee_rate, -added, txid)` of the heap.
pub record Candidate : Type 0 where
  pub rate : Fraction
  pub added : ℕ
  pub id : Bytes

pub record Mempool : Type 0 where
  pub params : NetworkParams
  pub state : StateView
  pub min_fee_per_byte : ℕ
  pub max_bytes : ℕ
  pub max_per_sender : ℕ
  pub expiry : ℕ
  pub by_id : Dict MempoolEntry
  pub by_sender : Dict Pending
  pub by_receiver : Dict (Dict MempoolEntry)
  pub evictable : List Candidate
  pub bytes : ℕ

-- `Mempool(params, state, ...)`
unfoldable pub new_mempool : NetworkParams → StateView → ℕ → ℕ → ℕ → ℕ → Mempool
new_mempool params state min_fee_per_byte max_bytes max_per_sender expiry = record {
  params = params;
  state = state;
  min_fee_per_byte = min_fee_per_byte;
  max_bytes = max_bytes;
  max_per_sender = max_per_sender;
  expiry = expiry;
  by_id = [];
  by_sender = [];
  by_receiver = [];
  evictable = [];
  bytes = 0;
}

-- `self._by_sender.get(address, {})`
unfoldable pub pending_of : Mempool → Bytes → Pending
pending_of m address = get_or [] address m.by_sender

-- `sorted(pending)`, with the values.
unfoldable pub insert_by_nonce : ℕ → MempoolEntry → Pending → Pending
insert_by_nonce n e [] = (n, e) ∷ []
insert_by_nonce n e ((k, f) ∷ p) =
    if leb n k then (n, e) ∷ (k, f) ∷ p else (k, f) ∷ insert_by_nonce n e p

unfoldable pub sort_by_nonce : Pending → Pending
sort_by_nonce [] = []
sort_by_nonce ((n, e) ∷ p) = insert_by_nonce n e (sort_by_nonce p)

unfoldable pub pending_for : Mempool → Bytes → List MempoolEntry
pending_for m address = values (sort_by_nonce (pending_of m address))

unfoldable pub incoming_for : Mempool → Bytes → List MempoolEntry
incoming_for m address = values (get_or [] address m.by_receiver)

-- `d.update(...)` by transaction id
unfoldable pub index_entries : List MempoolEntry → Dict MempoolEntry → Dict MempoolEntry
index_entries [] d = d
index_entries (e ∷ es) d = index_entries es (insert e.txid e d)

-- Newest first; entries of one time keep their order.
unfoldable pub insert_newest : MempoolEntry → List MempoolEntry → List MempoolEntry
insert_newest e [] = e ∷ []
insert_newest e (f ∷ fs) = if leb f.added e.added then e ∷ f ∷ fs else f ∷ insert_newest e fs

unfoldable pub sort_newest : List MempoolEntry → List MempoolEntry
sort_newest [] = []
sort_newest (e ∷ es) = insert_newest e (sort_newest es)

unfoldable pub involving : Mempool → Bytes → List MempoolEntry
involving m address =
    sort_newest
      (values (index_entries (incoming_for m address) (index_entries (pending_for m address) [])))

unfoldable pub next_nonce : Mempool → Bytes → ℕ
next_nonce m address = (m.state address).nonce + length (pending_of m address)

-- `max(pending)` and `min(pending)`; `none` stands for the `ValueError` of no keys.
unfoldable pub max_key : Pending → Option ℕ
max_key [] = none
max_key ((n, e) ∷ p) = elim (max_key p) [ none ↦ some n | some k ↦ some (max n k) ]

unfoldable pub min_key : Pending → Option ℕ
min_key [] = none
min_key ((n, e) ∷ p) = elim (min_key p) [ none ↦ some n | some k ↦ some (min n k) ]
