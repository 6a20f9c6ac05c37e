-- ===== src/Chain/Switching.antt =====
-- A switch that succeeds (node/chain.py): the active chain after it.
use tal_cash.Base.{
  All, Bool-cases, Bytes, Error, List, Option-cases, Result-cases, [], ap, arith, bind-eq-ok, false,
  inl, inr, none, ok, refl, some, sym, ℕ, ◌==◌, ◌∙◌, ◌∷◌, ◌≡◌, ◌⊎◌,
}
use tal_cash.Base.Dict.{bytes_Key, insert, lookup, lookup-insert, number_Key}
use tal_cash.Block.{Block, block_id}
use tal_cash.BlockFiles.{Zlib}
use tal_cash.Chain.Connect.{apply_prepared, note_snapshot, prepare, record_block}
use tal_cash.Chain.KeptFiles.{failure_of-cases}
use tal_cash.Chain.Reading.{find_block-OnlyReads, prepare-OnlyReads}
use tal_cash.Chain.Reorg.{set_status-others}
use tal_cash.Chain.Switch.{
  Connected, Rules, all_connected, and_before, connect_all, connect_failed, failure_of, raised,
}
use tal_cash.Crypto.{Crypto}
use tal_cash.Params.{NetworkParams}
use tal_cash.Snapshot.{is_snapshot_point, state_root}
use tal_cash.State.{StateChanges, apply_block}
use tal_cash.Store.{
  Store, insert_row, main_id, on_main, put_undo, set_main, status_valid, stored_account, undo_bytes,
  write_accounts, write_rows,
}
use tal_cash.Store.Blocks.{find_block, set_status}
use tal_cash.Store.Index.{index_block}
use tal_cash.Store.Laws.{index_block-Indexed, insert_row-eq-ok, put_snapshot-eq-ok}

module _ ⦃c : Crypto⦄ where
  -- One of the blocks has this height and id.
  abbrev pub IsAmong : ℕ → Bytes → List Block → Type 0
  IsAmong height id [] = ⊥
  IsAmong height id (b ∷ blocks) =
      ((b.header.height ≡ height) × (block_id b.header ≡ ok id)) ⊎ IsAmong height id blocks

  -- The active chain grows by these blocks and keeps all that it had.
  pub record Extends (blocks : List Block) (s s' : Store) : Type 0 where
    pub kept : (height : ℕ) (id : Bytes) → main_id height s ≡ some id → main_id height s' ≡ some id
    pub only :
        (height : ℕ) (id : Bytes)
        → main_id height s' ≡ some id
        → (main_id height s ≡ some id) ⊎ IsAmong height id blocks
    pub added :
        All
          (λ b. (id : Bytes) × (block_id b.header ≡ ok id) × (main_id b.header.height s' ≡ some id))
          blocks

  Extends-same : (s s' : Store) → s'.main_chain ≡ s.main_chain → Extends [] s s'
  unfolding main_id
  Extends-same s s' same = record {
    kept = λ h id at. ap (lookup h) same ∙ at;
    only = λ h id at. inl (ap (lookup h) (sym same) ∙ at);
    added = tt;
  }

  Extends-onto :
      (blocks : List Block) (s s' t : Store)
      → s'.main_chain ≡ s.main_chain
      → Extends blocks s' t
      → Extends blocks s t
  unfolding main_id
  Extends-onto blocks s s' t same e = record {
    kept = λ h id at. e.kept h id (ap (lookup h) same ∙ at);
    only = λ h id at. elim (e.only h id at) [
      | inl old ↦ inl (ap (lookup h) (sym same) ∙ old)
      | inr new ↦ inr new
    ];
    added = e.added;
  }

  Extends-more :
      (b : Block) (id : Bytes) (blocks : List Block) (s s' t : Store)
      → block_id b.header ≡ ok id
      → main_id b.header.height s ≡ none
      → s'.main_chain ≡ insert b.header.height id s.main_chain
      → Extends blocks s' t
      → Extends (b ∷ blocks) s t
  unfolding main_id
  Extends-more b id blocks s s' t named free new e =
      let height = b.header.height in
      let found = λ (h : ℕ). ap (lookup h) new ∙ lookup-insert height h id s.main_chain in
      record {
        kept = λ h i at. e.kept h i (found h ∙ ground (arith));
        only = λ h i at. elim (e.only h i at) [
          | inl old ↦ elim (Bool-cases (height == h)) [
            | inl here ↦
                let same : id ≡ i = ground (arith, found h) in
                inr (inl (ground arith, named ∙ ap ok same))
            | inr other ↦ inl (ground (arith, found h))
          ]
          | inr later ↦ inr (inr later)
        ];
        added = ((id, named, e.kept height id (found height ∙ ground arith)), e.added);
      }

  note_snapshot-main_chain :
      (params : NetworkParams) (height : ℕ) (s s' : Store)
      → note_snapshot params height s ≡ ok s'
      → s'.main_chain ≡ s.main_chain
  unfolding note_snapshot
  note_snapshot-main_chain params height s s' h =
      elim (Bool-cases (is_snapshot_point height params)) [
        | inl point ↦
            let (root, e₁, h₁) =
              bind-eq-ok (state_root s.accounts) _ (rw (note_snapshot, point) at h) in
            ap (λ (x : Store). x.main_chain) (put_snapshot-eq-ok height root s s' h₁).0
        | inr other ↦ ground (arith, rw (note_snapshot, other) at h)
      ]

  set_main-insert :
      (height : ℕ) (id : Bytes) (s s' : Store)
      → set_main height id s ≡ ok s'
      → (main_id height s ≡ none) × (s'.main_chain ≡ insert height id s.main_chain)
  unfolding set_main main_id
  set_main-insert height id s s' h = elim (Bool-cases (on_main id s.main_chain)) [
    | inl known ↦ cc (rw (set_main, known) at h)
    | inr new ↦
        let (d, e₁, h₁) =
          bind-eq-ok (insert_row height id s.main_chain) _ (rw (set_main, new) at h) in
        let (free, is_d) = insert_row-eq-ok height id s.main_chain d e₁ in (free, cc (h₁, is_d))
  ]

  -- Recording a block puts it on the active chain, where no block was.
  record NewMain (b : Block) (s s' : Store) : Type 0 where
    id : Bytes
    named : block_id b.header ≡ ok id
    free : main_id b.header.height s ≡ none
    new : s'.main_chain ≡ insert b.header.height id s.main_chain

  record_block-NewMain :
      (params : NetworkParams) (b : Block) (changes : StateChanges) (s s' : Store)
      → record_block params b changes s ≡ ok s'
      → NewMain b s s'
  unfolding record_block write_accounts put_undo main_id
  record_block-NewMain params b changes s s' h =
      let main = λ (x : Store). x.main_chain in
      let height = b.header.height in
      let (id, e₀, h₀) = bind-eq-ok (block_id b.header) _ h in
      let (s₀, e₁, h₁) = bind-eq-ok (write_accounts changes.accounts s) _ h₀ in
      let (d, f₁, g₁) = bind-eq-ok (write_rows changes.accounts s.accounts) _ e₁ in
      let (s₁, e₂, h₂) = bind-eq-ok (put_undo id changes.previous s₀) _ h₁ in
      let (octets, f₂, g₂) = bind-eq-ok (undo_bytes changes.previous) _ e₂ in
      let (u, f₃, g₃) = bind-eq-ok (insert_row id octets s₀.undo) _ g₂ in
      let (s₂, e₃, h₃) = bind-eq-ok (set_main height id s₁) _ h₂ in
      let (s₃, e₄, h₄) = bind-eq-ok (index_block b s₂) _ h₃ in
      let written : s₀.main_chain ≡ s.main_chain = ground arith in
      let undo : s₁.main_chain ≡ s₀.main_chain = ground arith in
      let (free, new) = set_main-insert height id s₁ s₂ e₃ in
      record {
        id = id;
        named = e₀;
        free = ap (lookup height) (sym (undo ∙ written)) ∙ free;
        new =
            note_snapshot-main_chain params height (set_status id status_valid s₃) s' h₄
            ∙ ap main (set_status-others id status_valid s₃)
            ∙ ap main (index_block-Indexed b s₂ s₃ e₄).others
            ∙ new
            ∙ ap (λ x. insert height id x) (undo ∙ written);
      }

module _ ⦃c : Crypto⦄ ⦃z : Zlib⦄ where
  -- What an attempt that succeeds has connected.
  abbrev pub ConnectsOnto : Store → Connected → Type 0
  ConnectsOnto s (all_connected blocks t) = Extends blocks s t
  ConnectsOnto s (connect_failed id e t) = Unit {0}
  ConnectsOnto s (raised e) = Unit {0}

  failure_of-ConnectsOnto :
      (id : Bytes) (e : Error) (s t : Store) → ConnectsOnto s (failure_of id e t)
  failure_of-ConnectsOnto id e s t = elim (failure_of-cases id e t) [
    | inl stays ↦ rw stays tt
    | inr raises ↦ rw raises tt
  ]

  and_before-ConnectsOnto :
      (b : Block) (s s' : Store) (attempt : Connected)
      → NewMain b s s'
      → ConnectsOnto s' attempt
      → ConnectsOnto s (and_before b attempt)
  unfolding and_before
  and_before-ConnectsOnto b s s' (all_connected blocks t) n e =
      Extends-more b n.id blocks s s' t n.named n.free n.new e
  and_before-ConnectsOnto b s s' (connect_failed id e t) n k = tt
  and_before-ConnectsOnto b s s' (raised e) n k = tt

  pub connect_all-ConnectsOnto :
      (rules : Rules) (branch : List Bytes) (s : Store)
      → ConnectsOnto s (connect_all rules branch s)
  unfolding connect_all apply_prepared main_id
  connect_all-ConnectsOnto rules [] s = Extends-same s s refl
  connect_all-ConnectsOnto rules (id ∷ branch) s = elim (Result-cases (find_block id s)) [
    | inr (e, failed) ↦ rw (connect_all, failed) tt
    | inl ((found, s'), read) ↦ elim (Option-cases found) [
      | inl missing ↦ rw (connect_all, read, missing) tt
      | inr (b, there) ↦
          let main = λ (x : Store). x.main_chain in
          let same = ap main (find_block-OnlyReads id s s' found read).others in
          elim (Result-cases (prepare rules.params rules.genesis b s')) [
            | inr (e, refused) ↦
                rw (connect_all, read, there, refused) (failure_of-ConnectsOnto id e s s')
            | inl ((ctx, s₁), ready) ↦
                let same₁ : s₁.main_chain ≡ s.main_chain =
                  ap main (prepare-OnlyReads rules.params rules.genesis b s' s₁ ctx ready).others
                  ∙ same in
                elim (Result-cases (apply_prepared rules.params b ctx s₁)) [
                  | inr (e, refused) ↦
                      rw (connect_all, read, there, ready, refused)
                        (failure_of-ConnectsOnto id e s s₁)
                  | inl (s₂, done) ↦
                      let (changes, e₁, h₁) =
                        bind-eq-ok (apply_block b ctx (stored_account s₁) rules.params false) _
                          done in
                      let n = record_block-NewMain rules.params b changes s₁ s₂ h₁ in
                      rw (connect_all, read, there, ready, done)
                        (and_before-ConnectsOnto b s s₂ (connect_all rules branch s₂)
                          (record {
                            id = n.id;
                            named = n.named;
                            free = ap (lookup b.header.height) (sym same₁) ∙ n.free;
                            new = n.new ∙ ap (λ d. insert b.header.height n.id d) same₁;
                          })
                          (connect_all-ConnectsOnto rules branch s₂))
                ]
          ]
    ]
  ]
