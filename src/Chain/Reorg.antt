-- ===== src/Chain/Reorg.antt =====
-- Undoing the last block (node/chain.py): `_disconnect_tip` after `_connect`.
use tal_cash.Base.{
  All, Bool, Bool-cases, Bytes, Option-cases, [], ap, arith, bind-eq-ok, inl, inr, length, none, ok,
  refl, some, subst, sym, ℕ, ◌∙◌, ◌≡◌,
}
use tal_cash.Base.Dict.{Dict, IsDict, bytes_Key, lookup, number_Key, remove, remove_missing}
use tal_cash.Block.{Block, block_id}
use tal_cash.Chain.Connect.{forget_block, note_snapshot, record_block}
use tal_cash.Crypto.{Crypto}
use tal_cash.Params.{NetworkParams}
use tal_cash.Snapshot.{is_snapshot_point, state_root}
use tal_cash.State.{
  Account, BlockContext, MemoryState, StateChanges, apply, apply_block, get_account, revert, write,
}
use tal_cash.State.Undo.{get_account-revert, previous-IsDict}
use tal_cash.Store.{
  Status, Store, delete_main, delete_snapshot, put_undo, read_undo, set_main, status_valid,
  stored_account, take_undo, write_accounts, write_rows,
}
use tal_cash.Store.Blocks.{change_row, set_status}
use tal_cash.Store.Index.{index_block, rows_without, unindex_block, without_height}
use tal_cash.Store.Laws.{
  IsAccountRow, index_block-Indexed, put_snapshot-eq-ok, put_undo-PutUndo, set_main-eq-ok,
  stored_account-get_account, write_rows-eq-ok, write_rows-fits,
}
use tal_cash.Store.Undo.{IsUndoEntry}

pub set_status-others :
    (id : Bytes) (status : Status) (s : Store)
    → set_status id status s ≡ record s { headers = (set_status id status s).headers }
unfolding set_status change_row
set_status-others id status s = elim (Option-cases (lookup id s.headers)) [
  | inl missing ↦ rw (set_status, change_row, missing) refl
  | inr (row, found) ↦ rw (set_status, change_row, found) refl
]

-- Nothing is stored yet for a height.
pub record IsClear (height : ℕ) (s : Store) : Type 0 where
  pub snapshots : lookup height s.snapshots ≡ none
  pub txs : without_height height s.tx_index ≡ s.tx_index
  pub rows : rows_without height s.address_index ≡ s.address_index

-- The store before a block came and after it went; the block's row keeps its new status.
pub record IsRestored (id : Bytes) (s s' : Store) : Type 0 where
  pub accounts : (a : Bytes) → stored_account s' a ≡ stored_account s a
  pub main_chain : s'.main_chain ≡ s.main_chain
  pub undo : s'.undo ≡ s.undo
  pub snapshots : s'.snapshots ≡ s.snapshots
  pub tx_index : s'.tx_index ≡ s.tx_index
  pub address_index : s'.address_index ≡ s.address_index
  pub headers : s'.headers ≡ (set_status id status_valid s).headers
  pub files : s'.files ≡ s.files

module _ ⦃c : Crypto⦄ where
  record Noted (height : ℕ) (s s' : Store) : Type 0 where
    others : s' ≡ record s { snapshots = s'.snapshots }
    gone : remove height s'.snapshots ≡ s.snapshots

  note_snapshot-Noted :
      (params : NetworkParams) (height : ℕ) (s s' : Store)
      → lookup height s.snapshots ≡ none
      → note_snapshot params height s ≡ ok s'
      → Noted height s s'
  unfolding note_snapshot
  note_snapshot-Noted params height s s' free h =
      elim (Bool-cases (is_snapshot_point height params)) [
        | inl point ↦
            let (root, e₁, h₁) =
              bind-eq-ok (state_root s.accounts) _ (rw (note_snapshot, point) at h) in
            let (others, gone) = put_snapshot-eq-ok height root s s' h₁ in
            record { others = others; gone = gone }
        | inr other ↦
            let same : s ≡ s' = ground (arith, rw (note_snapshot, other) at h) in
            subst (Noted height s) same
              (record { others = refl; gone = remove_missing height s.snapshots free })
      ]

  -- All that `_connect` writes.
  record Recorded (id : Bytes) (height : ℕ) (changes : StateChanges) (s s' : Store) : Type 0 where
    octets : Bytes
    accounts : s'.accounts ≡ (write changes.accounts (record { accounts = s.accounts })).accounts
    found : lookup id s'.undo ≡ some octets
    reads : read_undo (length octets) octets [] ≡ changes.previous
    undo : remove id s'.undo ≡ s.undo
    main_chain : remove height s'.main_chain ≡ s.main_chain
    snapshots : remove height s'.snapshots ≡ s.snapshots
    txs : without_height height s'.tx_index ≡ s.tx_index
    rows : rows_without height s'.address_index ≡ s.address_index
    headers : s'.headers ≡ (set_status id status_valid s).headers
    files : s'.files ≡ s.files

  set_status-headers :
      (id : Bytes) (status : Status) (s s' : Store)
      → s'.headers ≡ s.headers
      → (set_status id status s').headers ≡ (set_status id status s).headers
  unfolding set_status change_row
  set_status-headers id status s s' same = ground (arith, same)

  record_block-Recorded :
      (params : NetworkParams) (b : Block) (changes : StateChanges) (id : Bytes) (s s' : Store)
      → block_id b.header ≡ ok id
      → IsDict changes.previous
      → All IsUndoEntry changes.previous
      → IsClear b.header.height s
      → record_block params b changes s ≡ ok s'
      → Recorded id b.header.height changes s s'
  unfolding record_block write_accounts remove
  record_block-Recorded params b changes id s s' named dict fits clear h =
      let height = b.header.height in
      let (id', e₀, h₀) = bind-eq-ok (block_id b.header) _ h in
      let same : id' ≡ id = ground (arith, sym e₀ ∙ named) in
      let (s₀, f, g) = bind-eq-ok (write_accounts changes.accounts s) _ h₀ in
      let (d, f₁, f₂) = bind-eq-ok (write_rows changes.accounts s.accounts) _ f in
      let stored = write_rows-eq-ok changes.accounts (record { accounts = s.accounts }) d f₁ in
      let w : s₀ ≡ record s { accounts = d } = cc f₂ in
      let (s₁, e₁, h₁) = bind-eq-ok (put_undo id' changes.previous s₀) _ g in
      let (s₂, e₂, h₂) = bind-eq-ok (set_main height id' s₁) _ h₁ in
      let (s₃, e₃, h₃) = bind-eq-ok (index_block b s₂) _ h₂ in
      let u = put_undo-PutUndo id' changes.previous s₀ s₁ dict fits e₁ in
      let (m, at, left) = set_main-eq-ok height id' s₁ s₂ e₂ in
      let x = index_block-Indexed b s₂ s₃ e₃ in
      let s₄ = set_status id' status_valid s₃ in
      let t = set_status-others id' status_valid s₃ in
      let n =
        note_snapshot-Noted params height s₄ s' (cc (clear.snapshots, t, x.others, m, u.others, w))
          h₃ in
      record {
        octets = u.octets;
        accounts = cc (n.others, t, x.others, m, u.others, w, stored);
        found = cc (n.others, t, x.others, m, u.found, same);
        reads = u.reads;
        undo = cc (n.others, t, x.others, m, u.gone, same, w);
        main_chain = cc (n.others, t, x.others, left, u.others, w);
        snapshots = n.gone ∙ cc (t, x.others, m, u.others, w);
        txs =
            ap (λ (y : Store). without_height height y.tx_index) n.others
            ∙ ap (λ (y : Store). without_height height y.tx_index) t
            ∙ x.txs
            ∙ ap (λ (y : Store). without_height height y.tx_index) m
            ∙ ap (λ (y : Store). without_height height y.tx_index) u.others
            ∙ ap (λ (y : Store). without_height height y.tx_index) w
            ∙ clear.txs;
        rows =
            ap (λ (y : Store). rows_without height y.address_index) n.others
            ∙ ap (λ (y : Store). rows_without height y.address_index) t
            ∙ x.rows
            ∙ ap (λ (y : Store). rows_without height y.address_index) m
            ∙ ap (λ (y : Store). rows_without height y.address_index) u.others
            ∙ ap (λ (y : Store). rows_without height y.address_index) w
            ∙ clear.rows;
        headers =
            ap (λ (y : Store). y.headers) n.others
            ∙ ap (λ i. (set_status i status_valid s₃).headers) same
            ∙ set_status-headers id status_valid s s₃ (cc (x.others, m, u.others, w));
        files = cc (n.others, t, x.others, m, u.others, w);
      }

  -- Undoing writes the accounts back.
  accounts_back :
      (b : Block) (ctx : BlockContext) (params : NetworkParams) (check_pow : Bool)
      (changes : StateChanges) (s : Store) (a : Bytes)
      → apply_block b ctx (stored_account s) params check_pow ≡ ok changes
      → get_account
          (write changes.previous (write changes.accounts (record { accounts = s.accounts })))
          a
        ≡ stored_account s a
  unfolding apply revert
  accounts_back b ctx params check_pow changes s a accepted =
      let memory : MemoryState = record { accounts = s.accounts } in
      let views : stored_account s ≡ get_account memory =
        λ i a'. stored_account-get_account s a' i in
      get_account-revert b ctx memory params check_pow changes a
        (subst (λ view. apply_block b ctx view params check_pow ≡ ok changes) views accepted)
      ∙ sym (stored_account-get_account s a)

  -- If apply_block accepts a block over the accounts of a store, each undo entry has a 21-byte
  -- address and numbers below 2^63, nothing is stored yet for the block's height in the snapshots
  -- and indexes, and recording the block succeeds, then undoing it succeeds, and accounts, active
  -- chain, undo data, snapshots, both indexes and files are what they were; the header's row keeps
  -- the status valid.
  pub forget_block-record_block :
      (params : NetworkParams) (b : Block) (ctx : BlockContext) (check_pow : Bool)
      (changes : StateChanges) (id : Bytes) (s s' : Store)
      → block_id b.header ≡ ok id
      → apply_block b ctx (stored_account s) params check_pow ≡ ok changes
      → All IsUndoEntry changes.previous
      → All IsAccountRow changes.previous
      → IsClear b.header.height s
      → record_block params b changes s ≡ ok s'
      → (s'' : Store) × (forget_block b.header.height b s' ≡ ok s'') × IsRestored id s s''
  unfolding forget_block take_undo unindex_block delete_main delete_snapshot write_accounts
      stored_account
  forget_block-record_block params b ctx check_pow changes id s s' named accepted fits rows clear
        h =
      let height = b.header.height in
      let memory : MemoryState = record { accounts = s.accounts } in
      let views : stored_account s ≡ get_account memory =
        λ i a'. stored_account-get_account s a' i in
      let dict =
        previous-IsDict b ctx memory params check_pow changes []
          (subst (λ view. apply_block b ctx view params check_pow ≡ ok changes) views accepted) in
      let r = record_block-Recorded params b changes id s s' named dict fits clear h in
      let back = write changes.previous (record { accounts = s'.accounts }) in
      (
        record s' {
          accounts = back.accounts;
          undo = remove id s'.undo;
          main_chain = remove height s'.main_chain;
          snapshots = remove height s'.snapshots;
          tx_index = without_height height s'.tx_index;
          address_index = rows_without height s'.address_index;
        },
        rw
            (
              forget_block,
              named,
              take_undo,
              r.found,
              r.reads,
              write_rows-fits changes.previous (record { accounts = s'.accounts }) rows,
            )
            refl,
        record {
          accounts = λ a.
              stored_account-get_account (record s { accounts = back.accounts }) a
              ∙ ap
                  (λ (d : Dict Account).
                    get_account (write changes.previous (record { accounts = d })) a)
                  r.accounts
              ∙ accounts_back b ctx params check_pow changes s a accepted;
          main_chain = r.main_chain;
          undo = r.undo;
          snapshots = r.snapshots;
          tx_index = r.txs;
          address_index = r.rows;
          headers = r.headers;
          files = r.files;
        },
      )
