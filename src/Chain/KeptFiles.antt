-- ===== src/Chain/KeptFiles.antt =====
-- Connecting and undoing blocks (node/chain.py) leaves the block files as they are.
use tal_cash.Base.{
  Bool-cases, Bytes, Error, List, Option-cases, ap, arith, assertion_error, attribute_error,
  bind-eq-ok, chunk_error, chunk_too_large, decode_error, false, index_error, inl, inr,
  integrity_error, key_error, leb, ok, out_of_fuel, overflow_error, refl, runtime_error,
  stop_iteration, subst, suc, sym, type_error, validation, value_error, zero, zero_division_error,
  zlib_error, ℕ, ◌∙◌, ◌≡◌, ◌⊎◌,
}
use tal_cash.Base.Dict.{Dict, bytes_Key, number_Key, values}
use tal_cash.Block.{Block, block_id}
use tal_cash.BlockFiles.{Zlib}
use tal_cash.Chain.{main_block}
use tal_cash.Chain.Connect.{
  apply_prepared, disconnect_tip, forget_block, note_snapshot, record_block,
}
use tal_cash.Chain.Reading.{SameFiles, main_block-OnlyReads}
use tal_cash.Chain.Reorg.{set_status-others}
use tal_cash.Chain.Switch.{connect_failed, disconnect_to, failure_of, raised}
use tal_cash.Crypto.{Crypto}
use tal_cash.Params.{NetworkParams}
use tal_cash.Snapshot.{is_snapshot_point, state_root}
use tal_cash.State.{Account, BlockContext, StateChanges, apply_block}
use tal_cash.Store.{
  Store, delete_main, delete_snapshot, insert_row, put_undo, set_main, status_valid, stored_account,
  take_undo, tip_height, undo_bytes, write_accounts, write_rows,
}
use tal_cash.Store.Blocks.{set_status}
use tal_cash.Store.Index.{index_block, unindex_block}
use tal_cash.Store.Laws.{index_block-Indexed, put_snapshot-eq-ok, set_main-eq-ok}

module _ ⦃c : Crypto⦄ ⦃z : Zlib⦄ where
  note_snapshot-SameFiles :
      (params : NetworkParams) (height : ℕ) (s s' : Store)
      → note_snapshot params height s ≡ ok s'
      → SameFiles s s'
  unfolding note_snapshot
  note_snapshot-SameFiles params height s s' h =
      elim (Bool-cases (is_snapshot_point height params)) [
        | inl point ↦
            let (root, e₁, h₁) =
              bind-eq-ok (state_root s.accounts) _ (rw (note_snapshot, point) at h) in
            ap (λ (x : Store). x.files.memory) (put_snapshot-eq-ok height root s s' h₁).0
        | inr other ↦ ground (arith, rw (note_snapshot, other) at h)
      ]

  write_accounts-SameFiles :
      (values : Dict Account) (s s' : Store) → write_accounts values s ≡ ok s' → SameFiles s s'
  unfolding write_accounts
  write_accounts-SameFiles values s s' h =
      let (d, e₁, h₁) = bind-eq-ok (write_rows values s.accounts) _ h in ground arith

  put_undo-SameFiles :
      (id : Bytes) (previous : Dict Account) (s s' : Store)
      → put_undo id previous s ≡ ok s'
      → SameFiles s s'
  unfolding put_undo
  put_undo-SameFiles id previous s s' h =
      let (octets, e₁, h₁) = bind-eq-ok (undo_bytes previous) _ h in
      let (d, e₂, h₂) = bind-eq-ok (insert_row id octets s.undo) _ h₁ in ground arith

  record_block-SameFiles :
      (params : NetworkParams) (b : Block) (changes : StateChanges) (s s' : Store)
      → record_block params b changes s ≡ ok s'
      → SameFiles s s'
  unfolding record_block
  record_block-SameFiles params b changes s s' h =
      let memory = λ (x : Store). x.files.memory in
      let (id, e₀, h₀) = bind-eq-ok (block_id b.header) _ h in
      let (s₀, e₁, h₁) = bind-eq-ok (write_accounts changes.accounts s) _ h₀ in
      let (s₁, e₂, h₂) = bind-eq-ok (put_undo id changes.previous s₀) _ h₁ in
      let (s₂, e₃, h₃) = bind-eq-ok (set_main b.header.height id s₁) _ h₂ in
      let (s₃, e₄, h₄) = bind-eq-ok (index_block b s₂) _ h₃ in
      let s₄ = set_status id status_valid s₃ in
      note_snapshot-SameFiles params b.header.height s₄ s' h₄
      ∙ ap memory (set_status-others id status_valid s₃)
      ∙ ap memory (index_block-Indexed b s₂ s₃ e₄).others
      ∙ ap memory (set_main-eq-ok b.header.height id s₁ s₂ e₃).0
      ∙ put_undo-SameFiles id changes.previous s₀ s₁ e₂
      ∙ write_accounts-SameFiles changes.accounts s s₀ e₁

  pub apply_prepared-SameFiles :
      (params : NetworkParams) (b : Block) (ctx : BlockContext) (s s' : Store)
      → apply_prepared params b ctx s ≡ ok s'
      → SameFiles s s'
  unfolding apply_prepared
  apply_prepared-SameFiles params b ctx s s' h =
      let (changes, e₁, h₁) = bind-eq-ok (apply_block b ctx (stored_account s) params false) _ h in
      record_block-SameFiles params b changes s s' h₁

  take_undo-SameFiles :
      (id : Bytes) (s s' : Store) (previous : Dict Account)
      → take_undo id s ≡ ok (previous, s')
      → SameFiles s s'
  unfolding take_undo
  take_undo-SameFiles id s s' previous h = ground arith

  forget_block-SameFiles :
      (height : ℕ) (b : Block) (s s' : Store) → forget_block height b s ≡ ok s' → SameFiles s s'
  unfolding forget_block unindex_block delete_main delete_snapshot
  forget_block-SameFiles height b s s' h =
      let (id, e₀, h₀) = bind-eq-ok (block_id b.header) _ h in
      let ((previous, s₁), e₁, h₁) = bind-eq-ok (take_undo id s) _ h₀ in
      let (s₂, e₂, h₂) = bind-eq-ok (write_accounts previous s₁) _ h₁ in
      let last = delete_snapshot height (delete_main height (unindex_block b s₂)) in
      let same : last ≡ s' = ground arith in
      ap (λ (x : Store). x.files.memory) (sym same)
      ∙ write_accounts-SameFiles previous s₁ s₂ e₂
      ∙ take_undo-SameFiles id s s₁ previous e₁

  pub disconnect_tip-SameFiles :
      (s s' : Store) (b : Block) → disconnect_tip s ≡ ok (b, s') → SameFiles s s'
  unfolding disconnect_tip
  disconnect_tip-SameFiles s s' b h =
      let (height, e₀, h₀) = bind-eq-ok (tip_height s) _ h in
      let ((found, s₁), e₁, h₁) = bind-eq-ok (main_block height s) _ h₀ in
      elim (Option-cases found) [
        | inl missing ↦ cc (rw missing at h₁)
        | inr (b', there) ↦
            let (s₂, e₂, h₂) = bind-eq-ok (forget_block height b' s₁) _ (rw there at h₁) in
            let same : s₂ ≡ s' = ground arith in
            subst (SameFiles s) same (
              forget_block-SameFiles height b' s₁ s₂ e₂
              ∙ (main_block-OnlyReads height s s₁ found e₁).files)
      ]

  pub disconnect_to-SameFiles :
      (fuel fork : ℕ) (s s' : Store) (blocks : List Block)
      → disconnect_to fuel fork s ≡ ok (blocks, s')
      → SameFiles s s'
  unfolding disconnect_to
  disconnect_to-SameFiles zero fork s s' blocks h =
      let (height, e₀, h₀) = bind-eq-ok (tip_height s) _ h in ground arith
  disconnect_to-SameFiles (suc fuel) fork s s' blocks h =
      let (height, e₀, h₀) = bind-eq-ok (tip_height s) _ h in
      elim (Bool-cases (leb height fork)) [
        | inl low ↦ ground (arith, rw low at h₀)
        | inr high ↦
            let ((b, s₁), e₁, h₁) = bind-eq-ok (disconnect_tip s) _ (rw high at h₀) in
            let ((rest, s₂), e₂, h₂) = bind-eq-ok (disconnect_to fuel fork s₁) _ h₁ in
            let same : s₂ ≡ s' = ground arith in
            subst (SameFiles s) same
              (disconnect_to-SameFiles fuel fork s₁ s₂ rest e₂ ∙ disconnect_tip-SameFiles s s₁ b e₁)
      ]

pub failure_of-cases :
    (id : Bytes) (e : Error) (s : Store)
    → (failure_of id e s ≡ connect_failed id e s) ⊎ (failure_of id e s ≡ raised e)
unfolding failure_of
failure_of-cases id (validation code) s = inl refl
failure_of-cases id decode_error s = inr refl
failure_of-cases id value_error s = inr refl
failure_of-cases id overflow_error s = inr refl
failure_of-cases id runtime_error s = inr refl
failure_of-cases id assertion_error s = inr refl
failure_of-cases id key_error s = inr refl
failure_of-cases id index_error s = inr refl
failure_of-cases id out_of_fuel s = inr refl
failure_of-cases id chunk_error s = inr refl
failure_of-cases id chunk_too_large s = inr refl
failure_of-cases id zlib_error s = inr refl
failure_of-cases id integrity_error s = inr refl
failure_of-cases id stop_iteration s = inr refl
failure_of-cases id type_error s = inr refl
failure_of-cases id attribute_error s = inr refl
failure_of-cases id zero_division_error s = inr refl
