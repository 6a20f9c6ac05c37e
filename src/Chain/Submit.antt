-- ===== src/Chain/Submit.antt =====
-- Receiving blocks (node/chain.py): `submit_block` and the orphans. The clock is an argument.
use tal_cash.Base.{
  Bool, Bytes, Error, List, Result, [], bad_genesis, bad_pow, bind, bytes_eq, drop, err, false,
  if◌then◌else◌, invalid_parent, known_invalid, leb, length, ltb, map, none, not, ok, out_of_fuel,
  raise_if, reverse, some, suc, true, validation, zero, ℕ, ◌&&◌, ◌++◌, ◌+◌, ◌-◌, ◌==◌, ◌||◌, ◌∷◌,
  ◌⨟◌,
}
use tal_cash.Base.Dict.{Dict, bytes_Key, contains, insert, item, number_Key, remove}
use tal_cash.Block.{Block, block_id, block_size, check_block}
use tal_cash.BlockFiles.{Zlib}
use tal_cash.Chain.{branch_median, tip}
use tal_cash.Chain.Headers.{check_finality, is_invalid}
use tal_cash.Chain.Switch.{
  Outcome, Rules, SubmitResult, duplicate, invalid, invalid_result, new_tip, orphan, plain_result,
  side_branch, switch_to,
}
use tal_cash.Crypto.{Crypto}
use tal_cash.Difficulty.{block_work, next_target}
use tal_cash.Pow.{meets_target}
use tal_cash.State.{check_header_against_parent, check_not_in_future}
use tal_cash.Store.{Store, StoredHeader, status_stored}
use tal_cash.Store.Blocks.{add_block, find_header}
use tal_cash.Tx.{size}

pub record ChainManager : Type 0 where
  pub store : Store
  pub orphans : Dict Block
  pub orphan_bytes : ℕ
  pub pow_checked : Dict (Unit {0})

abbrev pub max_orphans : ℕ
max_orphans = 256

abbrev pub max_orphan_bytes : ℕ
max_orphan_bytes = 16_000_000

abbrev pub pow_checked_limit : ℕ
pow_checked_limit = 100_000

-- `note_pow_checked`: the oldest go when there are too many.
unfoldable pub note_ids : List Bytes → Dict (Unit {0}) → Dict (Unit {0})
note_ids [] d = d
note_ids (id ∷ ids) d = note_ids ids (insert id tt d)

unfoldable pub note_pow_checked : List Bytes → ChainManager → ChainManager
note_pow_checked ids m =
    let d = note_ids ids m.pow_checked in
    record m { pow_checked = drop (length d - pow_checked_limit) d }

unfoldable pub forget_orphan : Bytes → ChainManager → Result (Block × ChainManager)
forget_orphan id m = bind (item id m.orphans) λ b.
    bind (block_size b) λ size.
      ok (b, record m { orphans = remove id m.orphans; orphan_bytes = m.orphan_bytes - size })

-- The loop of `_hold_orphan`: the oldest go until there is room.
unfoldable pub is_full : ℕ → ChainManager → Bool
is_full size m = leb max_orphans (length m.orphans) || ltb max_orphan_bytes (m.orphan_bytes + size)

unfoldable pub make_room : ℕ → ℕ → ChainManager → Result ChainManager
make_room zero size m = if is_full size m && leb 1 (length m.orphans) then err out_of_fuel else ok m
make_room (suc fuel) size m = elim m.orphans [
  | [] ↦ ok m
  | first ∷ others ↦ elim (is_full size m) [
    | false ↦ ok m
    | true ↦ bind (forget_orphan first.0 m) λ (b, m'). make_room fuel size m'
  ]
]

-- Blocks whose parent is the given one.
unfoldable pub orphans_of : Bytes → Dict Block → List (Bytes × Block)
orphans_of parent [] = []
orphans_of parent ((id, b) ∷ d) =
    let rest = orphans_of parent d in
    if bytes_eq b.header.prev_id parent then (id, b) ∷ rest else rest

unfoldable pub forget_all : List (Bytes × Block) → ChainManager → Result ChainManager
forget_all [] m = ok m
forget_all ((id, b) ∷ rest) m = bind (forget_orphan id m) λ (_, m'). forget_all rest m'

-- The loop of `_drop_orphans_of`; `doomed` has its last item first.
unfoldable pub drop_doomed : ℕ → List Bytes → ChainManager → Result ChainManager
drop_doomed fuel [] m = ok m
drop_doomed zero (id ∷ doomed) m = err out_of_fuel
drop_doomed (suc fuel) (id ∷ doomed) m =
    let found = orphans_of id m.orphans in
    bind (forget_all found m) (drop_doomed fuel (reverse (map (λ o. o.0) found) ++ doomed))

-- An orphan is dropped once.
unfoldable pub drop_orphans_of : Bytes → ChainManager → Result ChainManager
drop_orphans_of id m = drop_doomed (length m.orphans + 1) (id ∷ []) m

module _ ⦃c : Crypto⦄ where
  unfoldable pub hold_orphan : Block → ChainManager → Result ChainManager
  hold_orphan b m = bind (block_size b) λ size. bind (make_room (length m.orphans) size m) λ m'.
      bind (block_id b.header) λ id.
        ok (record m' { orphans = insert id b m'.orphans; orphan_bytes = m'.orphan_bytes + size })

  -- The checks of a block whose parent is unknown.
  unfoldable pub check_orphan : Rules → ℕ → Block → Result (Unit {0})
  check_orphan rules now b =
      raise_if (ltb rules.params.pow_limit b.header.target) (validation bad_pow)
      ⨟ bind (meets_target b.header rules.params.pow) λ met.
        raise_if (not met) (validation bad_pow)
        ⨟ check_not_in_future b.header now rules.params
        ⨟ check_block b rules.params

  -- The checks of a block whose parent is stored.
  unfoldable pub check_child : Rules → ℕ → Block → StoredHeader → Bool → Store → Result (Unit {0})
  check_child rules now b parent check_pow s =
      check_not_in_future b.header now rules.params
      ⨟ check_finality rules.params parent s
      ⨟ bind (block_id parent.header) λ parent_id.
        bind (branch_median parent_id rules.params s) λ median.
          bind (next_target rules.params rules.genesis parent.header) λ target.
            check_header_against_parent b.header parent.header median target rules.params check_pow
            ⨟ check_block b rules.params

-- `except ValidationError as error: return self._invalid(block_id, error)`
unfoldable pub refuse_block : Bytes → Error → ChainManager → Result (SubmitResult × ChainManager)
refuse_block id e m = elim e [
  | validation code ↦ ok (invalid_result id (validation code), m)
  | other ↦ err other
]

module _ ⦃c : Crypto⦄ ⦃z : Zlib⦄ where
  -- The block is stored, and the chain switches to it when it has more work.
  unfoldable pub store_child :
      Rules → Bytes → Block → StoredHeader → ChainManager → Result (SubmitResult × ChainManager)
  store_child rules id b parent m =
      let chain_work = parent.chain_work + block_work b.header.target in
      bind (add_block b chain_work status_stored none m.store) λ s. bind (tip s) λ t.
        elim (ltb t.chain_work chain_work) [
          | true ↦ bind (switch_to rules id s) λ (result, s'). ok (result, record m { store = s' })
          | false ↦ ok (plain_result side_branch id, record m { store = s })
        ]

  unfoldable pub submit_child :
      Rules → ℕ → Bytes → Block → StoredHeader → ChainManager → Result (SubmitResult × ChainManager)
  submit_child rules now id b parent m =
      if is_invalid parent.status
      then ok (invalid_result id (validation invalid_parent), m)
      else elim (check_child rules now b parent (not (contains id m.pow_checked)) m.store) [
        | err e ↦ refuse_block id e m
        | ok _ ↦ store_child rules id b parent m
      ]

  unfoldable pub submit_unconnected :
      Rules → ℕ → Bytes → Block → ChainManager → Result (SubmitResult × ChainManager)
  submit_unconnected rules now id b m = elim (check_orphan rules now b) [
    | err e ↦ refuse_block id e m
    | ok _ ↦ bind (hold_orphan b m) λ m'. ok (plain_result orphan id, m')
  ]

  unfoldable pub submit_new :
      Rules → ℕ → Bytes → Block → ChainManager → Result (SubmitResult × ChainManager)
  submit_new rules now id b m =
      if contains id m.orphans
      then ok (plain_result duplicate id, m)
      else if b.header.height == 0
      then ok (invalid_result id (validation bad_genesis), m)
      else (bind (find_header b.header.prev_id m.store) λ parent. elim parent [
        | none ↦ submit_unconnected rules now id b m
        | some h ↦ submit_child rules now id b h m
      ])

  -- `_submit_one`
  unfoldable pub submit_one :
      Rules → ℕ → Block → ChainManager → Result (SubmitResult × ChainManager)
  submit_one rules now b m = bind (block_id b.header) λ id. bind (find_header id m.store) λ known.
      elim known [
        | none ↦ submit_new rules now id b m
        | some h ↦ ok (
          if is_invalid h.status
              then invalid_result id (validation known_invalid)
              else plain_result duplicate id,
          m,
        )
      ]

-- What an adopted orphan adds to the result and to the ids that wait.
unfoldable pub extend_result : SubmitResult → SubmitResult → SubmitResult
extend_result result child = record result {
  connected = result.connected ++ child.connected;
  disconnected = result.disconnected ++ child.disconnected;
}

unfoldable pub is_stored : Outcome → Bool
is_stored new_tip = true
is_stored side_branch = true
is_stored other = false

unfoldable pub is_refused : Outcome → Bool
is_refused invalid = true
is_refused other = false

module _ ⦃c : Crypto⦄ ⦃z : Zlib⦄ where
  -- The loop over the children of a block that arrived; those that are stored wait for theirs.
  unfoldable pub adopt_children :
      Rules
      → ℕ
      → List (Bytes × Block)
      → List Bytes
      → SubmitResult
      → ChainManager
      → Result (List Bytes × SubmitResult × ChainManager)
  adopt_children rules now [] waiting result m = ok (waiting, result, m)
  adopt_children rules now ((id, b) ∷ rest) waiting result m = bind (forget_orphan id m) λ (_, m₁).
      bind (submit_one rules now b m₁) λ (child, m₂).
        bind (if is_refused child.outcome then drop_orphans_of id m₂ else ok m₂) (
          adopt_children rules now rest (if is_stored child.outcome then id ∷ waiting else waiting)
            (extend_result result child))

  -- `_adopt_orphans`; `waiting` has its last item first, and each orphan waits once at most.
  unfoldable pub adopt_orphans :
      ℕ
      → Rules
      → ℕ
      → List Bytes
      → SubmitResult
      → ChainManager
      → Result (SubmitResult × ChainManager)
  adopt_orphans fuel rules now [] result m = ok (result, m)
  adopt_orphans zero rules now (id ∷ waiting) result m = err out_of_fuel
  adopt_orphans (suc fuel) rules now (id ∷ waiting) result m =
      bind (adopt_children rules now (orphans_of id m.orphans) waiting result m)
        λ (waiting', result', m'). adopt_orphans fuel rules now waiting' result' m'

  unfoldable pub submit_block :
      Rules → ℕ → Block → ChainManager → Result (SubmitResult × ChainManager)
  submit_block rules now b m = bind (submit_one rules now b m) λ (result, m').
      if is_stored result.outcome
      then adopt_orphans (length m'.orphans + 1) rules now (result.id ∷ []) result m'
      else if is_refused result.outcome
      then (bind (drop_orphans_of result.id m') λ m''. ok (result, m''))
      else ok (result, m')
