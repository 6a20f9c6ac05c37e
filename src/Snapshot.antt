-- ===== src/Snapshot.antt =====
-- core/snapshot.py: which snapshot a header commits to, and the fingerprint of all balances.
pub mod Schedule
pub mod Order
mod Examples
use tal_cash.Hashing
use tal_cash.Base.{
  Bool, Bytes, List, Option, Result, [], bind, bytes_eq, false, if◌then◌else◌, leb, length, ltb,
  none, not, ok, overflow_error, raise_if, some, true, value_error, ℕ, ◌%◌, ◌&&◌, ◌*◌, ◌++◌, ◌+◌,
  ◌-◌, ◌==◌, ◌^◌, ◌||◌, ◌∷◌, ◌⨟◌,
}
use tal_cash.Base.Int.{ltb_ℤ, pos, pos_part, sub_ℕ, ◌/ℤ◌}
use tal_cash.Crypto.{Crypto, payload_size, sha256, zero_bytes}
use tal_cash.Encoding.{to_bytes}
use tal_cash.Hashing.{merkle_root}
use tal_cash.Params.{NetworkParams}
use tal_cash.State.{Account, account_eq, empty_account}

abbrev pub no_snapshot : Bytes
no_snapshot = zero_bytes 32

-- `address + balance.to_bytes(8, "big") + nonce.to_bytes(8, "big")`; `to_bytes` raises
-- `OverflowError`, which is no `ValueError`, on a number that does not fit.
unfoldable pub account_leaf : Bytes → Account → Result Bytes
account_leaf address account =
    raise_if (not (length address == payload_size)) value_error
    ⨟ raise_if (leb (2 ^ 64) account.balance || leb (2 ^ 64) account.nonce) overflow_error
    ⨟ ok (address ++ to_bytes 8 account.balance ++ to_bytes 8 account.nonce)

-- The order of `bytes`.
unfoldable pub bytes_le : Bytes → Bytes → Bool
bytes_le [] ys = true
bytes_le (x ∷ xs) [] = false
bytes_le (x ∷ xs) (y ∷ ys) = ltb x y || (x == y && bytes_le xs ys)

abbrev pub Entry : Type 0
Entry = Bytes × Account

unfoldable pub insert_entry : Entry → List Entry → List Entry
insert_entry e [] = e ∷ []
insert_entry e (f ∷ fs) = if bytes_le e.0 f.0 then e ∷ f ∷ fs else f ∷ insert_entry e fs

-- `sorted(..., key=lambda item: item[0])`, a stable sort
unfoldable pub sort_entries : List Entry → List Entry
sort_entries [] = []
sort_entries (e ∷ es) = insert_entry e (sort_entries es)

unfoldable pub non_empty : List Entry → List Entry
non_empty [] = []
non_empty (e ∷ es) =
    let rest = non_empty es in if account_eq e.1 empty_account then rest else e ∷ rest

-- The loop over neighbours.
unfoldable pub has_twice : List Entry → Bool
has_twice [] = false
has_twice (e ∷ []) = false
has_twice (e ∷ f ∷ es) = bytes_eq e.0 f.0 || has_twice (f ∷ es)

unfoldable pub account_leaves : List Entry → Result (List Bytes)
account_leaves [] = ok []
account_leaves ((address, account) ∷ es) =
    bind (account_leaf address account)
      λ leaf. bind (account_leaves es) λ leaves. ok (leaf ∷ leaves)

module _ ⦃c : Crypto⦄ where
  unfoldable pub empty_state_root : Bytes
  empty_state_root = sha256 []

  unfoldable pub root_of : List Entry → Result Bytes
  root_of [] = ok empty_state_root
  root_of (e ∷ es) = bind (account_leaves (e ∷ es)) Hashing.merkle_root

  unfoldable pub state_root : List Entry → Result Bytes
  state_root accounts =
      let ordered = sort_entries (non_empty accounts) in
      raise_if (has_twice ordered) value_error ⨟ root_of ordered

unfoldable pub is_snapshot_point : ℕ → NetworkParams → Bool
is_snapshot_point height params = (height + 1) % params.chunk_size == 0

-- `height - snapshot_delay` may be negative; the quotient is then below 1 as well.
unfoldable pub snapshot_height : ℕ → NetworkParams → Option ℕ
snapshot_height height params =
    let finished_chunks = sub_ℕ height params.snapshot_delay /ℤ params.chunk_size in
    if ltb_ℤ finished_chunks (pos 1)
    then none
    else some (pos_part finished_chunks * params.chunk_size - 1)
