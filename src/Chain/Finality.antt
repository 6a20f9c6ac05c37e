-- ===== src/Chain/Finality.antt =====
-- The finality rule of node/chain.py: a branch leaves the active chain at a final height or above.
use tal_cash.Base.{
  Bool-cases, Bytes, Option-cases, ap, arith, bind-eq-ok, inl, inr, leb, ok, some, suc, true, zero,
  ℕ, ◌+◌, ◌∙◌, ◌≡◌, ◌≤◌,
}
use tal_cash.Block.{block_id}
use tal_cash.Chain.{finalized_height, is_on_main_chain}
use tal_cash.Chain.Headers.{check_finality, meets_chain}
use tal_cash.Crypto.{Crypto}
use tal_cash.Params.{NetworkParams}
use tal_cash.Store.{Store, StoredHeader}
use tal_cash.Store.Blocks.{find_header}

-- Down from a stored header to an ancestor.
pub data Descends (s : Store) : StoredHeader → StoredHeader → Type 0 where
  here : {h : StoredHeader} → Descends s h h
  below :
      {h parent ancestor : StoredHeader}
      → find_header h.header.prev_id s ≡ ok (some parent)
      → Descends s parent ancestor
      → Descends s h ancestor

module _ ⦃c : Crypto⦄ where
  -- The ancestor of a header where its branch meets the active chain.
  pub record ForkPoint (s : Store) (h : StoredHeader) (lowest : ℕ) : Type 0 where
    pub fork : StoredHeader
    pub id : Bytes
    pub descends : Descends s h fork
    pub named : block_id fork.header ≡ ok id
    pub on_chain : is_on_main_chain id s ≡ ok true
    pub high_enough : lowest ≤ fork.header.height

  meets_chain-ForkPoint :
      (fuel finalized : ℕ) (h : StoredHeader) (s : Store) (u : Unit {0})
      → meets_chain fuel finalized h s ≡ ok u
      → ForkPoint s h finalized
  unfolding meets_chain
  meets_chain-ForkPoint zero finalized h s u e = absurd (ground arith)
  meets_chain-ForkPoint (suc fuel) finalized h s u e =
      let (id, e₁, h₁) = bind-eq-ok (block_id h.header) _ e in
      let (joined, e₂, h₂) = bind-eq-ok (is_on_main_chain id s) _ h₁ in
      elim (Bool-cases joined) [
        | inl met ↦ record {
          fork = h;
          id = id;
          descends = here;
          named = e₁;
          on_chain = e₂ ∙ ap ok met;
          high_enough = ground (arith, rw met at h₂);
        }
        | inr apart ↦ elim (Bool-cases (leb h.header.height finalized)) [
          | inl low ↦ absurd (ground (arith, rw (apart, low) at h₂))
          | inr high ↦
              let (found, e₃, h₃) =
                bind-eq-ok (find_header h.header.prev_id s) _ (rw (apart, high) at h₂) in
              elim (Option-cases found) [
                | inl missing ↦ absurd (ground (arith, rw missing at h₃))
                | inr (parent, there) ↦
                    let p = meets_chain-ForkPoint fuel finalized parent s u (rw there at h₃) in
                    record {
                      fork = p.fork;
                      id = p.id;
                      descends = below (e₃ ∙ ap ok there) p.descends;
                      named = p.named;
                      on_chain = p.on_chain;
                      high_enough = p.high_enough;
                    }
              ]
        ]
      ]

  -- If check_finality accepts a stored header, then the header descends, by the parents that the
  -- store gives, from a header whose block is on the active chain and whose height is at least the
  -- finalized height.
  pub check_finality-ForkPoint :
      (params : NetworkParams) (parent : StoredHeader) (s : Store) (u : Unit {0})
      → check_finality params parent s ≡ ok u
      → (finalized : ℕ) × (finalized_height params s ≡ ok finalized) × ForkPoint s parent finalized
  unfolding check_finality
  check_finality-ForkPoint params parent s u e =
      let (finalized, e₁, h₁) = bind-eq-ok (finalized_height params s) _ e in
      (finalized, e₁, meets_chain-ForkPoint (parent.header.height + 1) finalized parent s u h₁)
