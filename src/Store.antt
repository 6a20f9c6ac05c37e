-- ===== src/Store.antt =====
-- node/store.py: the tables of one node's database and its block files. A table with a primary key is a
-- dict, and an `INSERT` of a key that is there raises `IntegrityError`; the address index, whose key is
-- three columns, is a list of rows.
pub mod Blocks
pub mod Index
pub mod Undo
pub mod Laws
use tal_cash.Base.{
  Bool, Bytes, List, Option, Result, [], bind, bytes_eq, drop, err, false, if◌then◌else◌,
  integrity_error, leb, length, max, none, ok, overflow_error, raise_if, runtime_error, some, suc,
  take, type_error, zero, ℕ, ◌++◌, ◌^◌, ◌||◌, ◌∷◌, ◌⨟◌,
}
use tal_cash.Base.Dict.{
  Dict, Key, Table, bytes_Key, contains, get_or, insert, lookup, number_Key, remove,
}
use tal_cash.Block.{BlockHeader}
use tal_cash.BlockFiles.{ChunkLocation}
use tal_cash.BlockFiles.Files.{BlockFiles, new_files}
use tal_cash.Encoding.{from_bytes, int_to_bytes}
use tal_cash.State.{Account, StateView, account_eq, empty_account}

pub data Status : Type 0 where
  status_stored status_valid status_invalid : Status

-- `chain_work.to_bytes(_WORK_BYTES, "big")`
abbrev pub work_bytes : ℕ
work_bytes = 48

-- A row of `headers`; `place` is where the block is in a chunk file, if it is in one.
pub record HeaderRow : Type 0 where
  pub prev_id : Bytes
  pub height : ℕ
  pub header : Bytes
  pub chain_work : Bytes
  pub status : Status
  pub place : Option ChunkLocation

pub record StoredHeader : Type 0 where
  pub header : BlockHeader
  pub chain_work : ℕ
  pub status : Status

pub record TxLocation : Type 0 where
  pub block_id : Bytes
  pub height : ℕ
  pub position : ℕ

pub record AddressRow : Type 0 where
  pub address : Bytes
  pub height : ℕ
  pub position : ℕ
  pub id : Bytes

pub record Store : Type 0 where
  pub meta : Dict Bytes
  pub headers : Dict HeaderRow
  pub main_chain : Table ℕ Bytes
  pub accounts : Dict Account
  pub undo : Dict Bytes
  pub snapshots : Table ℕ Bytes
  pub tx_index : Dict TxLocation
  pub address_index : List AddressRow
  pub files : BlockFiles

unfoldable pub new_store : Store
new_store = record {
  meta = [];
  headers = [];
  main_chain = [];
  accounts = [];
  undo = [];
  snapshots = [];
  tx_index = [];
  address_index = [];
  files = new_files;
}

-- `ROLLBACK` in `transaction`: the tables are those of the store at `BEGIN`. The files and the caches of
-- what was read of them are no part of the database and stay as they are.
unfoldable pub roll_back : Store → Store → Store
roll_back before s = record before { files = s.files }

-- `INSERT INTO` a table with a primary key.
unfoldable pub insert_row {ℓ} :
    {K : Type 0} ⦃k : Key K⦄ {V : Type ℓ} → K → V → Table K V → Result (Table K V)
insert_row k v d = if contains k d then err integrity_error else ok (insert k v d)

-- The active chain.
unfoldable pub max_height : Table ℕ Bytes → Option ℕ
max_height [] = none
max_height ((h, id) ∷ d) = elim (max_height d) [ none ↦ some h | some k ↦ some (max h k) ]

-- `SELECT MAX(height)`; without a row the caller gets `None`, which no comparison takes.
unfoldable pub tip_height : Store → Result ℕ
tip_height s = elim (max_height s.main_chain) [ none ↦ err type_error | some h ↦ ok h ]

unfoldable pub main_id : ℕ → Store → Option Bytes
main_id height s = lookup height s.main_chain

-- `UNIQUE` on `block_id`.
unfoldable pub on_main : Bytes → Table ℕ Bytes → Bool
on_main id [] = false
on_main id ((h, other) ∷ d) = let rest = on_main id d in bytes_eq other id || rest

unfoldable pub set_main : ℕ → Bytes → Store → Result Store
set_main height id s =
    raise_if (on_main id s.main_chain) integrity_error
    ⨟ bind (insert_row height id s.main_chain) λ d. ok (record s { main_chain = d })

unfoldable pub delete_main : ℕ → Store → Store
delete_main height s = record s { main_chain = remove height s.main_chain }

-- Accounts.
unfoldable pub stored_account : Store → StateView
stored_account s address = get_or empty_account address s.accounts

-- An `INTEGER` column takes numbers below this; sqlite3 raises `OverflowError` for others.
abbrev pub integer_limit : ℕ
integer_limit = 2 ^ 63

unfoldable pub write_account : Bytes → Account → Dict Account → Result (Dict Account)
write_account address account d =
    if account_eq account empty_account
    then ok (remove address d)
    else (raise_if (leb integer_limit account.balance || leb integer_limit account.nonce)
          overflow_error
        ⨟ ok (insert address account d))

-- The loop of `write_accounts`.
unfoldable pub write_rows : Dict Account → Dict Account → Result (Dict Account)
write_rows [] d = ok d
write_rows ((a, v) ∷ accounts) d = bind (write_account a v d) (write_rows accounts)

unfoldable pub write_accounts : Dict Account → Store → Result Store
write_accounts accounts s =
    bind (write_rows accounts s.accounts) λ d. ok (record s { accounts = d })

-- Undo data: 37 bytes for each account.
unfoldable pub undo_bytes : Dict Account → Result Bytes
undo_bytes [] = ok []
undo_bytes ((address, v) ∷ previous) = bind (int_to_bytes 8 v.balance) λ balance.
    bind (int_to_bytes 8 v.nonce)
      λ nonce. bind (undo_bytes previous) λ rest. ok (address ++ (balance ++ (nonce ++ rest)))

unfoldable pub put_undo : Bytes → Dict Account → Store → Result Store
put_undo id previous s =
    bind (undo_bytes previous)
      λ octets. bind (insert_row id octets s.undo) λ d. ok (record s { undo = d })

-- The loop of `take_undo` over what is left, with the dict so far; each round takes 37 bytes.
unfoldable pub read_undo : ℕ → Bytes → Dict Account → Dict Account
read_undo fuel [] previous = previous
read_undo zero (b ∷ octets) previous = previous
read_undo (suc fuel) (b ∷ octets) previous =
    let entry = take 37 (b ∷ octets) in
    let account : Account = record {
      balance = from_bytes (take 8 (drop 21 entry));
      nonce = from_bytes (drop 29 entry);
    } in
    read_undo fuel (drop 37 (b ∷ octets)) (insert (take 21 entry) account previous)

unfoldable pub take_undo : Bytes → Store → Result (Dict Account × Store)
take_undo id s = elim (lookup id s.undo) [
  | none ↦ err runtime_error
  | some octets ↦ ok (read_undo (length octets) octets [], record s { undo = remove id s.undo })
]

-- Snapshots.
unfoldable pub snapshot_root : ℕ → Store → Option Bytes
snapshot_root height s = lookup height s.snapshots

unfoldable pub put_snapshot : ℕ → Bytes → Store → Result Store
put_snapshot height root s =
    bind (insert_row height root s.snapshots) λ d. ok (record s { snapshots = d })

unfoldable pub delete_snapshot : ℕ → Store → Store
delete_snapshot height s = record s { snapshots = remove height s.snapshots }
