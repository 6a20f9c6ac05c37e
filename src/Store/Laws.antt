-- ===== src/Store/Laws.antt =====
-- What the operations of node/store.py do to the tables that undoing a block restores.
use tal_cash.Base.{
  All, Bool-cases, Bytes, List, [], ap, arith, bind-eq-ok, bytes_eq_iff, inl, inr, length, none, ok,
  refl, some, subst, sym, ℕ, ◌++◌, ◌+◌, ◌<◌, ◌∙◌, ◌∷◌, ◌≡◌,
}
use tal_cash.Base.Dict.{
  Dict, IsDict, Key, Table, bytes_Key, contains, contains-none, get_or, insert, insert_new, lookup,
  lookup-insert, number_Key, remove, remove-insert_new, values,
}
use tal_cash.Block.{Block, block_id}
use tal_cash.Crypto.{Crypto}
use tal_cash.State.{Account, MemoryState, get_account, get_over, write, write_entry}
use tal_cash.State.Undo.{get_account-write}
use tal_cash.Store.{
  AddressRow, Store, TxLocation, insert_row, integer_limit, on_main, put_snapshot, put_undo,
  read_undo, set_main, stored_account, undo_bytes, write_account, write_accounts, write_rows,
}
use tal_cash.Store.Index.{
  addresses_of, has_row, index_addresses, index_block, index_transactions, rows_without,
  without_height,
}
use tal_cash.Store.Undo.{IsUndoEntry, read_undo-undo_bytes}
use tal_cash.Tx.{Transaction, txid}

pub insert_row-eq-ok {ℓ} :
    {K : Type 0} {V : Type ℓ} ⦃k : Key K⦄ (key : K) (v : V) (d d' : Table K V)
    → insert_row key v d ≡ ok d'
    → (lookup key d ≡ none) × (d' ≡ insert key v d)
unfolding insert_row
insert_row-eq-ok key v d d' h = elim (Bool-cases (contains key d)) [
  | inl there ↦ cc (rw (insert_row, there) at h)
  | inr free ↦ (contains-none key d free, ground (arith, rw (insert_row, free) at h))
]

-- `put_undo` only writes its row, and the row reads back.
pub record PutUndo (id : Bytes) (previous : Dict Account) (s s' : Store) : Type 0 where
  pub octets : Bytes
  pub others : s' ≡ record s { undo = s'.undo }
  pub found : lookup id s'.undo ≡ some octets
  pub reads : read_undo (length octets) octets [] ≡ previous
  pub gone : remove id s'.undo ≡ s.undo

pub put_undo-PutUndo :
    (id : Bytes) (previous : Dict Account) (s s' : Store)
    → IsDict previous
    → All IsUndoEntry previous
    → put_undo id previous s ≡ ok s'
    → PutUndo id previous s s'
unfolding put_undo insert_row
put_undo-PutUndo id previous s s' dict fits h =
    let (octets, packed, reads) = read_undo-undo_bytes [] previous fits dict in
    let (octets', e₁, h₁) = bind-eq-ok (undo_bytes previous) _ h in
    let (d, e₂, h₂) = bind-eq-ok (insert_row id octets' s.undo) _ h₁ in
    let same : octets' ≡ octets = ground (arith, sym e₁ ∙ packed) in
    let (free, is_d) = insert_row-eq-ok id octets' s.undo d e₂ in
    record {
      octets = octets;
      others = cc;
      found =
          ground (arith, h₂, is_d, same, lookup-insert id id octets' s.undo, bytes_eq_iff id id);
      reads = reads (length octets) (omega arith);
      gone = cc (h₂, is_d, remove-insert_new id octets' s.undo free);
    }

-- `set_main` writes a height that had no block.
pub set_main-eq-ok :
    (height : ℕ) (id : Bytes) (s s' : Store)
    → set_main height id s ≡ ok s'
    → (s' ≡ record s { main_chain = s'.main_chain })
      × (lookup height s'.main_chain ≡ some id)
      × (remove height s'.main_chain ≡ s.main_chain)
unfolding set_main
set_main-eq-ok height id s s' h = elim (Bool-cases (on_main id s.main_chain)) [
  | inl known ↦ cc (rw (set_main, known) at h)
  | inr new ↦
      let (d, e₁, h₁) =
        bind-eq-ok (insert_row height id s.main_chain) _ (rw (set_main, new) at h) in
      let (free, is_d) = insert_row-eq-ok height id s.main_chain d e₁ in
      (
        cc,
        ground (arith, h₁, is_d, lookup-insert height height id s.main_chain),
        cc (h₁, is_d, remove-insert_new height id s.main_chain free),
      )
]

pub put_snapshot-eq-ok :
    (height : ℕ) (root : Bytes) (s s' : Store)
    → put_snapshot height root s ≡ ok s'
    → (s' ≡ record s { snapshots = s'.snapshots }) × (remove height s'.snapshots ≡ s.snapshots)
unfolding put_snapshot
put_snapshot-eq-ok height root s s' h =
    let (d, e₁, h₁) = bind-eq-ok (insert_row height root s.snapshots) _ h in
    let (free, is_d) = insert_row-eq-ok height root s.snapshots d e₁ in
    (cc, cc (h₁, is_d, remove-insert_new height root s.snapshots free))

-- The indexes: rows of one height go again.
without_height-insert :
    (height : ℕ) (id : Bytes) (t : TxLocation) (d : Dict TxLocation)
    → t.height ≡ height
    → without_height height (d ++ (id, t) ∷ []) ≡ without_height height d
unfolding without_height
without_height-insert height id t [] h = ground arith
without_height-insert height id t ((k, u) ∷ d) h =
    ground (arith, without_height-insert height id t d h)

rows_without-append :
    (height : ℕ) (r : AddressRow) (rows : List AddressRow)
    → r.height ≡ height
    → rows_without height (rows ++ r ∷ []) ≡ rows_without height rows
unfolding rows_without
rows_without-append height r [] h = ground arith
rows_without-append height r (q ∷ rows) h = ground (arith, rows_without-append height r rows h)

rows_without-index_addresses :
    (others : List Bytes) (height position : ℕ) (id : Bytes) (rows rows' : List AddressRow)
    → index_addresses others height position id rows ≡ ok rows'
    → rows_without height rows' ≡ rows_without height rows
unfolding index_addresses
rows_without-index_addresses [] height position id rows rows' h =
    ap (rows_without height) (ground arith)
rows_without-index_addresses (a ∷ others) height position id rows rows' h =
    elim (Bool-cases (has_row a height position rows)) [
      | inl known ↦ cc (rw (index_addresses, known) at h)
      | inr new ↦
          let r : AddressRow = record {
            address = a;
            height = height;
            position = position;
            id = id;
          } in
          rows_without-index_addresses others height position id (rows ++ r ∷ []) rows'
            (rw (index_addresses, new) at h)
          ∙ rows_without-append height r rows refl
    ]

module _ ⦃c : Crypto⦄ where
  -- What `index_block` leaves alone.
  pub record Indexed (height : ℕ) (s s' : Store) : Type 0 where
    pub others : s' ≡ record s { tx_index = s'.tx_index; address_index = s'.address_index }
    pub txs : without_height height s'.tx_index ≡ without_height height s.tx_index
    pub rows : rows_without height s'.address_index ≡ rows_without height s.address_index

  index_transactions-Indexed :
      (txs : List Transaction) (position : ℕ) (block : Bytes) (height : ℕ) (s s' : Store)
      → index_transactions txs position block height s ≡ ok s'
      → Indexed height s s'
  unfolding index_transactions
  index_transactions-Indexed [] position block height s s' h =
      let same : s ≡ s' = ground arith in
      subst (Indexed height s) same (record { others = refl; txs = refl; rows = refl })
  index_transactions-Indexed (tx ∷ txs) position block height s s' h =
      let (id, e₁, h₁) = bind-eq-ok (txid tx) _ h in
      let place : TxLocation = record { block_id = block; height = height; position = position } in
      let (d, e₂, h₂) = bind-eq-ok (insert_row id place s.tx_index) _ h₁ in
      let (rows, e₃, h₃) =
        bind-eq-ok (index_addresses (addresses_of tx) height position id s.address_index) _ h₂ in
      let (free, is_d) = insert_row-eq-ok id place s.tx_index d e₂ in
      let s₁ : Store = record s { tx_index = d; address_index = rows } in
      let rest = index_transactions-Indexed txs (position + 1) block height s₁ s' h₃ in
      record {
        others = rest.others;
        txs =
            rest.txs
            ∙ ap (without_height height) (is_d ∙ insert_new id place s.tx_index free)
            ∙ without_height-insert height id place s.tx_index refl;
        rows =
            rest.rows
            ∙ rows_without-index_addresses (addresses_of tx) height position id s.address_index rows
                e₃;
      }

  pub index_block-Indexed :
      (b : Block) (s s' : Store) → index_block b s ≡ ok s' → Indexed b.header.height s s'
  unfolding index_block
  index_block-Indexed b s s' h =
      let (id, e₁, h₁) = bind-eq-ok (block_id b.header) _ h in
      index_transactions-Indexed b.transactions 0 id b.header.height s s' h₁

-- What a row of `accounts` can hold.
abbrev pub IsAccountRow : Bytes × Account → Type 0
IsAccountRow (address, v) = (v.balance < integer_limit) × (v.nonce < integer_limit)

-- The accounts are kept as `MemoryState` keeps them.
write_account-eq-ok :
    (a : Bytes) (v : Account) (s : MemoryState) (d : Dict Account)
    → write_account a v s.accounts ≡ ok d
    → d ≡ (write_entry a v s).accounts
unfolding write_account write_entry
write_account-eq-ok a v s d h = ground arith

pub write_rows-eq-ok :
    (values : Dict Account) (s : MemoryState) (d : Dict Account)
    → write_rows values s.accounts ≡ ok d
    → d ≡ (write values s).accounts
unfolding write_rows write
write_rows-eq-ok [] s d h = ground arith
write_rows-eq-ok ((a, v) ∷ values) s d h =
    let (d₁, e₁, h₁) = bind-eq-ok (write_account a v s.accounts) _ h in
    let same = write_account-eq-ok a v s d₁ e₁ in
    write_rows-eq-ok values (write_entry a v s) d (subst (λ x. write_rows values x ≡ ok d) same h₁)

write_account-fits :
    (a : Bytes) (v : Account) (s : MemoryState)
    → IsAccountRow (a, v)
    → write_account a v s.accounts ≡ ok (write_entry a v s).accounts
unfolding write_account write_entry
write_account-fits a v s fits = ground arith

pub write_rows-fits :
    (values : Dict Account) (s : MemoryState)
    → All IsAccountRow values
    → write_rows values s.accounts ≡ ok (write values s).accounts
unfolding write_rows write
write_rows-fits [] s fits = refl
write_rows-fits ((a, v) ∷ values) s fits =
    rw (write_account-fits a v s fits.0) (write_rows-fits values (write_entry a v s) fits.1)

pub stored_account-get_account :
    (s : Store) (a : Bytes) → stored_account s a ≡ get_account (record { accounts = s.accounts }) a
unfolding stored_account get_or get_account get_over
stored_account-get_account s a = ground arith

-- If the given accounts have different addresses and numbers below 2^63, the limit of an INTEGER
-- column, then write_accounts succeeds, and afterwards the account that the store gives for any
-- address is the one written for it, and where none was written the one from before: the table of
-- accounts, without rows for empty accounts, implements the update of a function from addresses to
-- accounts.
pub stored_account-write_accounts :
    (values : Dict Account) (s : Store)
    → IsDict values
    → All IsAccountRow values
    → (s' : Store) × (write_accounts values s ≡ ok s')
      × ((a : Bytes) → stored_account s' a ≡ get_over (lookup a values) (stored_account s a))
unfolding write_accounts
stored_account-write_accounts values s dict fits =
    let memory : MemoryState = record { accounts = s.accounts } in
    let after = write values memory in
    (
      record s { accounts = after.accounts },
      rw (write_rows-fits values memory fits) refl,
      λ a.
          stored_account-get_account (record s { accounts = after.accounts }) a
          ∙ get_account-write values memory a dict
          ∙ ap (get_over (lookup a values)) (sym (stored_account-get_account s a)),
    )
