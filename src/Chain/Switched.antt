-- ===== src/Chain/Switched.antt =====
-- The active chain after a switch that succeeds (node/chain.py): sealing leaves it alone, and it is the
-- old one up to the fork with the branch on top.
use tal_cash.Base.{
  All, Bool-cases, Bytes, List, Option, Option-cases, [], ap, arith, bind-eq-ok, inl, inr, ltb, map,
  none, ok, refl, some, subst, suc, sym, zero, ℕ, ◌*◌, ◌+◌, ◌-◌, ◌∙◌, ◌∷◌, ◌≡◌, ◌≤◌, ◌⊎◌,
}
use tal_cash.Base.Dict.{bytes_Key, lookup, number_Key}
use tal_cash.Block.{Block, block_id}
use tal_cash.BlockFiles.{ChunkLocation, Zlib}
use tal_cash.BlockFiles.Files.{write_chunk}
use tal_cash.Chain.Reading.{block_bytes-OnlyReads}
use tal_cash.Chain.Switch.{
  Connected, Rules, SubmitResult, all_connected, climb_down, connect_all, connect_failed,
  disconnect_to, finish_switch, last_of, mark_invalid, new_tip, raised, seal_ready,
  seal_ready_chunks, switch_to,
}
use tal_cash.Chain.Switching.{ConnectsOnto, Extends, IsAmong, connect_all-ConnectsOnto}
use tal_cash.Chain.Undoing.{IsCutAt, disconnect_to-IsCutAt}
use tal_cash.Crypto.{Crypto}
use tal_cash.Store.{Store, StoredHeader, main_id, roll_back, tip_height}
use tal_cash.Store.Blocks.{
  block_bytes, blocks_of, change_row, find_header, main_ids, point_at_chunk, seal_chunk,
  sealed_chunks, set_location, set_locations, set_meta,
}

ok-injective {ℓ} : {A : Type ℓ} {a b : A} → ok a ≡ ok b → a ≡ b
ok-injective h = cc

set_location-main_chain :
    (id : Bytes) (l : ChunkLocation) (s : Store) → (set_location id l s).main_chain ≡ s.main_chain
unfolding set_location change_row
set_location-main_chain id l s = ground arith

set_locations-main_chain :
    (ids : List Bytes) (locations : List ChunkLocation) (s : Store)
    → (set_locations ids locations s).main_chain ≡ s.main_chain
unfolding set_locations
set_locations-main_chain [] locations s = refl
set_locations-main_chain (id ∷ ids) [] s = refl
set_locations-main_chain (id ∷ ids) (l ∷ locations) s =
    set_locations-main_chain ids locations (set_location id l s) ∙ set_location-main_chain id l s

point_at_chunk-main_chain :
    (index first last : ℕ) (ids : List Bytes) (locations : List ChunkLocation) (s : Store)
    → (point_at_chunk index first last ids locations s).main_chain ≡ s.main_chain
unfolding point_at_chunk set_meta
point_at_chunk-main_chain index first last ids locations s =
    set_locations-main_chain ids locations s

module _ ⦃z : Zlib⦄ where
  blocks_of-main_chain :
      (ids : List (Option Bytes)) (s s' : Store) (blocks : List (Bytes × Bytes))
      → blocks_of ids s ≡ ok (blocks, s')
      → s'.main_chain ≡ s.main_chain
  unfolding blocks_of
  blocks_of-main_chain [] s s' blocks h = ground arith
  blocks_of-main_chain (none ∷ ids) s s' blocks h = cc
  blocks_of-main_chain (some id ∷ ids) s s' blocks h =
      let main = λ (x : Store). x.main_chain in
      let ((found, s₁), e₁, h₁) = bind-eq-ok (block_bytes id s) _ h in
      elim (Option-cases found) [
        | inl missing ↦ cc (rw missing at h₁)
        | inr (octets, there) ↦
            let ((rest, s₂), e₂, h₂) = bind-eq-ok (blocks_of ids s₁) _ (rw there at h₁) in
            let same : s₂ ≡ s' = ground arith in
            ap main (sym same)
            ∙ blocks_of-main_chain ids s₁ s₂ rest e₂
            ∙ ap main (block_bytes-OnlyReads id s s₁ found e₁).others
      ]

module _ ⦃c : Crypto⦄ ⦃z : Zlib⦄ where
  seal_chunk-main_chain :
      (network_id index first last : ℕ) (s s' : Store)
      → seal_chunk network_id index first last s ≡ ok s'
      → s'.main_chain ≡ s.main_chain
  unfolding seal_chunk
  seal_chunk-main_chain network_id index first last s s' h =
      let ((blocks, s₁), e₁, h₁) =
        bind-eq-ok (blocks_of (main_ids first (last + 1 - first) s) s) _ h in
      let ((locations, files), e₂, h₂) =
        bind-eq-ok (write_chunk network_id index first (map (λ b. b.1) blocks) s₁.files) _ h₁ in
      let ids = map (λ (b : Bytes × Bytes). b.0) blocks in
      let pointed = point_at_chunk index first last ids locations (record s₁ { files = files }) in
      ap (λ (x : Store). x.main_chain) (sym (ok-injective {a = pointed} {b = s'} h₂))
      ∙ point_at_chunk-main_chain index first last ids locations (record s₁ { files = files })
      ∙ blocks_of-main_chain (main_ids first (last + 1 - first) s) s s₁ blocks e₁

  seal_ready-main_chain :
      (fuel : ℕ) (rules : Rules) (s s' : Store)
      → seal_ready fuel rules s ≡ ok s'
      → s'.main_chain ≡ s.main_chain
  unfolding seal_ready
  seal_ready-main_chain zero rules s s' h = cc
  seal_ready-main_chain (suc fuel) rules s s' h =
      let size = rules.params.chunk_size in
      let (index, e₁, h₁) = bind-eq-ok (sealed_chunks s) _ h in
      let (height, e₂, h₂) = bind-eq-ok (tip_height s) _ h₁ in
      elim (Bool-cases (ltb height (last_of size index + rules.params.finality_depth))) [
        | inl early ↦ ground (arith, rw early at h₂)
        | inr ready ↦
            let (s₁, e₃, h₃) =
              bind-eq-ok
                (seal_chunk rules.params.network_id index (index * size) (last_of size index) s) _
                (rw ready at h₂) in
            seal_ready-main_chain fuel rules s₁ s' h₃
            ∙ seal_chunk-main_chain rules.params.network_id index (index * size)
                (last_of size index) s s₁ e₃
      ]

  -- The active chain after a switch: the old one up to the fork, and the blocks connected.
  pub record IsSwitched (fork : ℕ) (blocks : List Block) (s s' : Store) : Type 0 where
    pub kept :
        (height : ℕ) (id : Bytes)
        → height ≤ fork
        → main_id height s ≡ some id
        → main_id height s' ≡ some id
    pub only :
        (height : ℕ) (id : Bytes)
        → main_id height s' ≡ some id
        → ((height ≤ fork) × (main_id height s ≡ some id)) ⊎ IsAmong height id blocks
    pub added :
        All
          (λ b. (id : Bytes) × (block_id b.header ≡ ok id) × (main_id b.header.height s' ≡ some id))
          blocks

  cut-extended :
      (fork : ℕ) (blocks : List Block) (s s₁ s' : Store)
      → IsCutAt fork s s₁
      → Extends blocks s₁ s'
      → IsSwitched fork blocks s s'
  cut-extended fork blocks s s₁ s' cut e = record {
    kept = λ h id below at. e.kept h id (cut.kept h below ∙ at);
    only = λ h id at. elim (e.only h id at) [
      | inl old ↦ let below = cut.low h id old in inl (below, sym (cut.kept h below) ∙ old)
      | inr new ↦ inr new
    ];
    added = e.added;
  }

  Extends-upto :
      (blocks : List Block) (s s₁ s' : Store)
      → s'.main_chain ≡ s₁.main_chain
      → Extends blocks s s₁
      → Extends blocks s s'
  unfolding main_id
  Extends-upto blocks s s₁ s' same e = record {
    kept = λ h id at. ap (lookup h) same ∙ e.kept h id at;
    only = λ h id at. e.only h id (ap (lookup h) (sym same) ∙ at);
    added =
        subst
          (λ d.
            All
              (λ b.
                (id : Bytes) × (block_id b.header ≡ ok id) × (lookup b.header.height d ≡ some id))
              blocks)
          (sym same) e.added;
  }

  finish_switch-Extends :
      (rules : Rules) (id : Bytes) (disconnected : List Block) (attempt : Connected)
      (before s s' : Store) (r : SubmitResult)
      → ConnectsOnto s attempt
      → finish_switch rules id disconnected attempt before ≡ ok (r, s')
      → r.outcome ≡ new_tip
      → Extends r.connected s s'
  unfolding finish_switch seal_ready_chunks
  finish_switch-Extends rules id disconnected (raised e) before s s' r onto h won = cc
  finish_switch-Extends rules id disconnected (connect_failed bad e t) before s s' r onto h won =
      let (s₁, e₁, h₁) = bind-eq-ok (mark_invalid bad (roll_back before t)) _ h in cc
  finish_switch-Extends rules id disconnected (all_connected blocks t) before s s' r onto h won =
      let (s₁, e₁, h₁) = bind-eq-ok (seal_ready_chunks rules t) _ h in
      let (height, e₂, h₂) = bind-eq-ok (tip_height t) _ e₁ in
      let same : s₁ ≡ s' = ground arith in
      let listed : blocks ≡ r.connected = ground arith in
      subst (λ bs. Extends bs s s') listed
        (subst (Extends blocks s) same
          (Extends-upto blocks s t s₁ (seal_ready-main_chain (height + 2) rules t s₁ h₂) onto))

  -- If switch_to returns a result with the outcome new_tip, then with the fork height that
  -- climb_down finds, the active chain after it keeps every block that was at or below the fork,
  -- has each block that was connected at its height under its id, and has no other block.
  pub switch_to-IsSwitched :
      (rules : Rules) (id : Bytes) (s s' : Store) (r : SubmitResult)
      → switch_to rules id s ≡ ok (r, s')
      → r.outcome ≡ new_tip
      → (current : StoredHeader) × (branch : List Bytes) × (fork : ℕ) × (find_header id s
          ≡ ok (some current))
        × (climb_down (current.header.height + 1) current [] s ≡ ok (branch, fork))
        × IsSwitched fork r.connected s s'
  unfolding switch_to
  switch_to-IsSwitched rules id s s' r h won =
      let (found, e₁, h₁) = bind-eq-ok (find_header id s) _ h in
      elim (Option-cases found) [
        | inl missing ↦ cc (rw missing at h₁)
        | inr (current, there) ↦
            let ((branch, fork), e₂, h₂) =
              bind-eq-ok (climb_down (current.header.height + 1) current [] s) _ (rw there at h₁) in
            let (height, e₃, h₃) = bind-eq-ok (tip_height s) _ h₂ in
            let ((undone, s₁), e₄, h₄) = bind-eq-ok (disconnect_to height fork s) _ h₃ in
            (
              current,
              branch,
              fork,
              e₁ ∙ ap ok there,
              e₂,
              cut-extended fork r.connected s s₁ s'
                  (disconnect_to-IsCutAt height fork s s₁ undone e₄)
                  (finish_switch-Extends rules id undone (connect_all rules branch s₁) s s₁ s' r
                    (connect_all-ConnectsOnto rules branch s₁) h₄ won),
            )
      ]
