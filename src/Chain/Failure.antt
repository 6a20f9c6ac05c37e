-- ===== src/Chain/Failure.antt =====
-- A switch that fails (node/chain.py): what the attempt leaves, and what the marking of the bad blocks
-- changes.
use tal_cash.Base.{
  Bytes, Error, List, Option, Option-cases, Result-cases, [], ap, arith, bind-eq-ok, bytes_eq_iff,
  inl, inr, length, none, ok, refl, reverse, some, subst, suc, zero, ℕ, ◌++◌, ◌+◌, ◌∙◌, ◌∷◌, ◌≡◌,
}
use tal_cash.Base.Dict.{bytes_Key, lookup, lookup-insert, number_Key}
use tal_cash.Block.{Block}
use tal_cash.BlockFiles.{Zlib}
use tal_cash.Chain.Connect.{apply_prepared, prepare}
use tal_cash.Chain.KeptFiles.{apply_prepared-SameFiles, disconnect_to-SameFiles, failure_of-cases}
use tal_cash.Chain.Reading.{SameFiles, find_block-OnlyReads, prepare-OnlyReads}
use tal_cash.Chain.Switch.{
  Connected, Rules, SubmitResult, all_connected, and_before, climb_down, connect_all,
  connect_failed, disconnect_to, failure_of, finish_switch, invalid, mark_all, mark_invalid, raised,
  seal_ready_chunks, switch_to,
}
use tal_cash.Crypto.{Crypto}
use tal_cash.Store.{HeaderRow, Status, Store, roll_back, status_invalid, status_stored, tip_height}
use tal_cash.Store.Blocks.{change_row, children, find_block, find_header, set_status}

-- A row of the headers but for its status.
abbrev pub without_status : Option HeaderRow → Option HeaderRow
without_status none = none
without_status (some row) = some (record row { status = status_stored })

-- The same rows of the headers, but for their statuses.
abbrev pub SameRows : Store → Store → Type 0
SameRows s s' =
    (id : Bytes) → without_status (lookup id s'.headers) ≡ without_status (lookup id s.headers)

-- What marking blocks changes.
record Marked (s s' : Store) : Type 0 where
  others : s' ≡ record s { headers = s'.headers }
  rows : SameRows s s'

set_status-Marked : (id : Bytes) (status : Status) (s : Store) → Marked s (set_status id status s)
unfolding set_status change_row
set_status-Marked id status s = elim (Option-cases (lookup id s.headers)) [
  | inl missing ↦
      rw (set_status, change_row, missing) (record { others = refl; rows = λ other. refl })
  | inr (row, found) ↦
      rw (set_status, change_row, found)
        (record {
          others = refl;
          rows = λ other. ground (
            arith,
            lookup-insert id other (record row { status = status }) s.headers,
            bytes_eq_iff id other,
            found,
          );
        })
]

mark_all-Marked :
    ⦃c : Crypto⦄ (fuel : ℕ) (pending : List Bytes) (s s' : Store)
    → mark_all fuel pending s ≡ ok s'
    → Marked s s'
unfolding mark_all
mark_all-Marked fuel [] s s' h =
    let same : s ≡ s' = ground arith in
    subst (Marked s) same (record { others = refl; rows = λ id. refl })
mark_all-Marked zero (id ∷ pending) s s' h = cc
mark_all-Marked (suc fuel) (id ∷ pending) s s' h =
    let marked = set_status id status_invalid s in
    let first = set_status-Marked id status_invalid s in
    let rest = mark_all-Marked fuel (reverse (children id marked) ++ pending) marked s' h in
    record {
      others = rest.others ∙ ap (λ (x : Store). record x { headers = s'.headers }) first.others;
      rows = λ other. rest.rows other ∙ first.rows other;
    }

module _ ⦃c : Crypto⦄ ⦃z : Zlib⦄ where
  -- How an attempt ends, with the block files of the store before it.
  abbrev KeepsFiles : Store → Connected → Type 0
  KeepsFiles s (all_connected blocks s') = SameFiles s s'
  KeepsFiles s (connect_failed id e s') = SameFiles s s'
  KeepsFiles s (raised e) = Unit {0}

  and_before-KeepsFiles :
      (b : Block) (s : Store) (attempt : Connected)
      → KeepsFiles s attempt
      → KeepsFiles s (and_before b attempt)
  unfolding and_before
  and_before-KeepsFiles b s (all_connected blocks s') h = h
  and_before-KeepsFiles b s (connect_failed id e s') h = h
  and_before-KeepsFiles b s (raised e) h = h

  KeepsFiles-trans :
      (s s' : Store) (attempt : Connected)
      → SameFiles s s'
      → KeepsFiles s' attempt
      → KeepsFiles s attempt
  KeepsFiles-trans s s' (all_connected blocks t) h k = k ∙ h
  KeepsFiles-trans s s' (connect_failed id e t) h k = k ∙ h
  KeepsFiles-trans s s' (raised e) h k = tt

  failure_of-KeepsFiles :
      (id : Bytes) (e : Error) (s s' : Store) → SameFiles s s' → KeepsFiles s (failure_of id e s')
  failure_of-KeepsFiles id e s s' h = elim (failure_of-cases id e s') [
    | inl stays ↦ rw stays h
    | inr raises ↦ rw raises tt
  ]

  connect_all-KeepsFiles :
      (rules : Rules) (branch : List Bytes) (s : Store) → KeepsFiles s (connect_all rules branch s)
  unfolding connect_all
  connect_all-KeepsFiles rules [] s = refl
  connect_all-KeepsFiles rules (id ∷ branch) s = elim (Result-cases (find_block id s)) [
    | inr (e, failed) ↦ rw (connect_all, failed) tt
    | inl ((found, s'), read) ↦ elim (Option-cases found) [
      | inl missing ↦ rw (connect_all, read, missing) tt
      | inr (b, there) ↦
          let same = (find_block-OnlyReads id s s' found read).files in
          elim (Result-cases (prepare rules.params rules.genesis b s')) [
            | inr (e, refused) ↦
                rw (connect_all, read, there, refused) (failure_of-KeepsFiles id e s s' same)
            | inl ((ctx, s₁), ready) ↦
                let same₁ : SameFiles s s₁ =
                  (prepare-OnlyReads rules.params rules.genesis b s' s₁ ctx ready).files ∙ same in
                elim (Result-cases (apply_prepared rules.params b ctx s₁)) [
                  | inr (e, refused) ↦
                      rw (connect_all, read, there, ready, refused)
                        (failure_of-KeepsFiles id e s s₁ same₁)
                  | inl (s₂, done) ↦
                      rw (connect_all, read, there, ready, done)
                        (and_before-KeepsFiles b s (connect_all rules branch s₂) (
                          KeepsFiles-trans s s₂ (connect_all rules branch s₂)
                            (apply_prepared-SameFiles rules.params b ctx s₁ s₂ done ∙ same₁)
                            (connect_all-KeepsFiles rules branch s₂)))
                ]
          ]
    ]
  ]

  -- What a failed switch leaves: all tables are as they were but for the statuses of the headers, and
  -- so are the block files; the caches of the files may differ.
  pub record Unswitched (s s' : Store) : Type 0 where
    pub tables : s' ≡ record s { headers = s'.headers; files = s'.files }
    pub rows : SameRows s s'
    pub files : SameFiles s s'

  finish_switch-failed :
      (rules : Rules) (id : Bytes) (disconnected : List Block) (attempt : Connected) (s s' : Store)
      (r : SubmitResult)
      → KeepsFiles s attempt
      → finish_switch rules id disconnected attempt s ≡ ok (r, s')
      → r.outcome ≡ invalid
      → Unswitched s s'
  unfolding finish_switch mark_invalid roll_back
  finish_switch-failed rules id disconnected (raised e) s s' r kept h failed = cc
  finish_switch-failed rules id disconnected (connect_failed bad e t) s s' r kept h failed =
      let (s₁, e₁, h₁) = bind-eq-ok (mark_invalid bad (roll_back s t)) _ h in
      let same : s₁ ≡ s' = ground arith in
      let m = mark_all-Marked (length s.headers + 1) (bad ∷ []) (roll_back s t) s₁ e₁ in
      subst (Unswitched s) same (record {
        tables = cc m.others;
        rows = m.rows;
        files = ap (λ (x : Store). x.files.memory) m.others ∙ kept;
      })
  finish_switch-failed rules id disconnected (all_connected connected s₁) s s' r kept h failed =
      let (s₂, e₂, h₂) = bind-eq-ok (seal_ready_chunks rules s₁) _ h in cc

  -- If switch_to returns a result with the outcome invalid, then in the store after it all tables
  -- but the headers are as they were, the headers have the same rows but for their statuses, and
  -- the block files are the same: what was undone and connected on the way is rolled back, and
  -- reading it has changed no more than the caches of the files.
  pub switch_to-failed :
      (rules : Rules) (id : Bytes) (s s' : Store) (r : SubmitResult)
      → switch_to rules id s ≡ ok (r, s')
      → r.outcome ≡ invalid
      → Unswitched s s'
  unfolding switch_to
  switch_to-failed rules id s s' r h failed =
      let (found, e₁, h₁) = bind-eq-ok (find_header id s) _ h in
      elim (Option-cases found) [
        | inl missing ↦ cc (rw missing at h₁)
        | inr (current, there) ↦
            let (branch, e₂, h₂) =
              bind-eq-ok (climb_down (current.header.height + 1) current [] s) _ (rw there at h₁) in
            let (height, e₃, h₃) = bind-eq-ok (tip_height s) _ h₂ in
            let (back, e₄, h₄) = bind-eq-ok (disconnect_to height branch.1 s) _ h₃ in
            finish_switch-failed rules id back.0 (connect_all rules branch.0 back.1) s s' r
              (KeepsFiles-trans s back.1 (connect_all rules branch.0 back.1)
                (disconnect_to-SameFiles height branch.1 s back.1 back.0 e₄)
                (connect_all-KeepsFiles rules branch.0 back.1))
              h₄ failed
      ]
