-- ===== src/Chain/Undoing.antt =====
-- The loop of `_switch_to` (node/chain.py) that undoes blocks.
use tal_cash.Base.{
  Bool-cases, Bytes, List, Option-cases, [], ap, arith, bind-eq-ok, inl, inr, leb, none, ok, refl,
  some, subst, suc, sym, zero, ℕ, ◌==◌, ◌∙◌, ◌∷◌, ◌≡◌, ◌≤◌,
}
use tal_cash.Base.Dict.{Table, bytes_Key, lookup, lookup-remove, number_Key, remove}
use tal_cash.Block.{Block, block_id}
use tal_cash.BlockFiles.{Zlib}
use tal_cash.Chain.{main_block}
use tal_cash.Chain.Connect.{disconnect_tip, forget_block}
use tal_cash.Chain.KeptFiles.{disconnect_tip-SameFiles}
use tal_cash.Chain.Reading.{SameFiles, main_block-OnlyReads}
use tal_cash.Chain.Switch.{disconnect_to}
use tal_cash.Crypto.{Crypto}
use tal_cash.Store.{
  Store, delete_main, delete_snapshot, main_id, max_height, take_undo, tip_height, write_accounts,
  write_rows,
}
use tal_cash.Store.Index.{unindex_block}

-- The active chain up to a height, and no block above it.
pub record IsCutAt (fork : ℕ) (s s' : Store) : Type 0 where
  pub tip : (height : ℕ) × (tip_height s' ≡ ok height) × (height ≤ fork)
  pub low : (height : ℕ) (id : Bytes) → main_id height s' ≡ some id → height ≤ fork
  pub kept : (height : ℕ) → height ≤ fork → main_id height s' ≡ main_id height s
  pub files : SameFiles s s'

no_max :
    (d : Table ℕ Bytes) (height : ℕ) (id : Bytes)
    → lookup height d ≡ some id
    → max_height d ≡ none
    → ⊥
unfolding lookup max_height
no_max [] height id found empty = cc
no_max ((h, other) ∷ d) height id found empty = elim (Option-cases (max_height d)) [
  | inl missing ↦ cc (rw (max_height, missing) at empty)
  | inr (top, there) ↦ cc (rw (max_height, there) at empty)
]

max_height-bound :
    (d : Table ℕ Bytes) (height top : ℕ) (id : Bytes)
    → lookup height d ≡ some id
    → max_height d ≡ some top
    → height ≤ top
unfolding lookup max_height
max_height-bound [] height top id found at_top = cc
max_height-bound ((h, other) ∷ d) height top id found at_top = elim (Option-cases (max_height d)) [
  | inl empty ↦ elim (Bool-cases (h == height)) [
    | inl here ↦ ground (arith, rw (max_height, empty) at at_top)
    | inr there ↦ elim (Option-cases (lookup height d)) [
      | inl missing ↦ cc (rw (lookup, there, missing) at found)
      | inr (other', found') ↦ absurd (no_max d height other' found' empty)
    ]
  ]
  | inr (rest, below) ↦ elim (Bool-cases (h == height)) [
    | inl here ↦ ground (arith, rw (max_height, below) at at_top)
    | inr there ↦
        let bound = max_height-bound d height rest id (rw (lookup, there) at found) below in
        ground (arith, rw (max_height, below) at at_top)
  ]
]

cut_at :
    (fork height : ℕ) (s s' : Store)
    → tip_height s ≡ ok height
    → height ≤ fork
    → s ≡ s'
    → IsCutAt fork s s'
unfolding tip_height main_id
cut_at fork height s s' at_top below same = subst (IsCutAt fork s) same (record {
  tip = (height, at_top, below);
  low = λ h id found. elim (Option-cases (max_height s.main_chain)) [
    | inl empty ↦ cc (rw (tip_height, empty) at at_top)
    | inr (top, has) ↦
        let bound = max_height-bound s.main_chain h top id found has in
        ground (arith, rw (tip_height, has) at at_top)
  ];
  kept = λ h _. refl;
  files = refl;
})

module _ ⦃c : Crypto⦄ ⦃z : Zlib⦄ where
  forget_block-main_chain :
      (height : ℕ) (b : Block) (s s' : Store)
      → forget_block height b s ≡ ok s'
      → s'.main_chain ≡ remove height s.main_chain
  unfolding forget_block unindex_block delete_main delete_snapshot take_undo write_accounts
  forget_block-main_chain height b s s' h =
      let (id, e₀, h₀) = bind-eq-ok (block_id b.header) _ h in
      let ((previous, s₁), e₁, h₁) = bind-eq-ok (take_undo id s) _ h₀ in
      let (s₂, e₂, h₂) = bind-eq-ok (write_accounts previous s₁) _ h₁ in
      let (d, e₃, h₃) = bind-eq-ok (write_rows previous s₁.accounts) _ e₂ in
      let main = λ (x : Store). x.main_chain in
      let taken : s₁.main_chain ≡ s.main_chain = ground arith in
      let written : s₂.main_chain ≡ s₁.main_chain = ground arith in
      let last : main s' ≡ remove height s₂.main_chain = ground arith in
      last ∙ ap (λ d'. remove height d') (written ∙ taken)

  disconnect_tip-main_chain :
      (height : ℕ) (s s' : Store) (b : Block)
      → tip_height s ≡ ok height
      → disconnect_tip s ≡ ok (b, s')
      → s'.main_chain ≡ remove height s.main_chain
  unfolding disconnect_tip
  disconnect_tip-main_chain height s s' b at_top h =
      let ((found, s₁), e₁, h₁) =
        bind-eq-ok (main_block height s) _ (rw (disconnect_tip, at_top) at h) in
      elim (Option-cases found) [
        | inl missing ↦ cc (rw missing at h₁)
        | inr (b', there) ↦
            let (s₂, e₂, h₂) = bind-eq-ok (forget_block height b' s₁) _ (rw there at h₁) in
            let same : s₂ ≡ s' = ground arith in
            ap (λ (x : Store). x.main_chain) (sym same)
            ∙ forget_block-main_chain height b' s₁ s₂ e₂
            ∙ ap (λ d. remove height d)
                (ap (λ (x : Store). x.main_chain)
                  (main_block-OnlyReads height s s₁ found e₁).others)
      ]

  -- If disconnect_to returns, the height of the tip is at most the fork, no block of the active
  -- chain is above the fork, every height up to the fork has the block it had, and the block files
  -- are the same.
  pub disconnect_to-IsCutAt :
      (fuel fork : ℕ) (s s' : Store) (blocks : List Block)
      → disconnect_to fuel fork s ≡ ok (blocks, s')
      → IsCutAt fork s s'
  unfolding disconnect_to main_id
  disconnect_to-IsCutAt zero fork s s' blocks h =
      let (height, e₀, h₀) = bind-eq-ok (tip_height s) _ h in
      cut_at fork height s s' e₀ (ground arith) (ground arith)
  disconnect_to-IsCutAt (suc fuel) fork s s' blocks h =
      let (height, e₀, h₀) = bind-eq-ok (tip_height s) _ h in
      elim (Bool-cases (leb height fork)) [
        | inl low ↦ cut_at fork height s s' e₀ (ground arith) (ground (arith, rw low at h₀))
        | inr high ↦
            let ((b, s₁), e₁, h₁) = bind-eq-ok (disconnect_tip s) _ (rw high at h₀) in
            let ((rest, s₂), e₂, h₂) = bind-eq-ok (disconnect_to fuel fork s₁) _ h₁ in
            let same : s₂ ≡ s' = ground arith in
            let below = disconnect_to-IsCutAt fuel fork s₁ s₂ rest e₂ in
            let left = disconnect_tip-main_chain height s s₁ b e₀ e₁ in
            subst (IsCutAt fork s) same (record {
              tip = below.tip;
              low = below.low;
              kept = λ k fits.
                  below.kept k fits
                  ∙ ap (lookup k) left
                  ∙ ground (arith, lookup-remove height k s.main_chain);
              files = below.files ∙ disconnect_tip-SameFiles s s₁ b e₁;
            })
      ]
