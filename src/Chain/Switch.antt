-- ===== src/Chain/Switch.antt =====
-- Switching to another branch and sealing chunks (node/chain.py).
use tal_cash.Base.{
  Bytes, Error, List, Option, Result, [], attribute_error, bind, err, false, if◌then◌else◌, leb,
  length, ltb, none, ok, out_of_fuel, reverse, some, suc, true, validation, zero, ℕ, ◌*◌, ◌++◌, ◌+◌,
  ◌-◌, ◌∷◌,
}
use tal_cash.Block.{Block, BlockHeader, block_id}
use tal_cash.BlockFiles.{Zlib}
use tal_cash.Chain.{is_on_main_chain}
use tal_cash.Chain.Connect.{apply_prepared, disconnect_tip, prepare}
use tal_cash.Crypto.{Crypto}
use tal_cash.Params.{NetworkParams}
use tal_cash.Store.{Store, StoredHeader, roll_back, status_invalid, tip_height}
use tal_cash.Store.Blocks.{children, find_block, find_header, seal_chunk, sealed_chunks, set_status}
use tal_cash.Tx.{size}

-- `Outcome`
pub data Outcome : Type 0 where
  new_tip side_branch duplicate orphan invalid : Outcome

pub record SubmitResult : Type 0 where
  pub outcome : Outcome
  pub id : Bytes
  pub error : Option Error
  pub connected : List Block
  pub disconnected : List Block

abbrev pub plain_result : Outcome → Bytes → SubmitResult
plain_result outcome id = record {
  outcome = outcome;
  id = id;
  error = none;
  connected = [];
  disconnected = [];
}

abbrev pub invalid_result : Bytes → Error → SubmitResult
invalid_result id e = record {
  outcome = invalid;
  id = id;
  error = some e;
  connected = [];
  disconnected = [];
}

-- The parameters of a chain: those of the network, and the header of its first block.
pub record Rules : Type 0 where
  pub params : NetworkParams
  pub genesis : BlockHeader

-- How connecting the blocks of a branch ends: all connected; one that breaks a rule (`_ConnectFailed`);
-- or another error. The store is the one at the failure.
pub data Connected : Type 0 where
  all_connected : List Block → Store → Connected
  connect_failed : Bytes → Error → Store → Connected
  raised : Error → Connected

unfoldable pub and_before : Block → Connected → Connected
and_before b (all_connected blocks s) = all_connected (b ∷ blocks) s
and_before b (connect_failed id e s) = connect_failed id e s
and_before b (raised e) = raised e

-- `except ValidationError as error: raise _ConnectFailed(block_id, error)`
unfoldable pub failure_of : Bytes → Error → Store → Connected
failure_of id e s = elim e [
  | validation code ↦ connect_failed id (validation code) s
  | other ↦ raised other
]

module _ ⦃c : Crypto⦄ where
  -- Down from the new tip to the active chain: the ids of the branch, lowest first, and the height of
  -- the fork.
  unfoldable pub climb_down : ℕ → StoredHeader → List Bytes → Store → Result (List Bytes × ℕ)
  climb_down zero current branch s = err out_of_fuel
  climb_down (suc fuel) current branch s = bind (block_id current.header) λ id.
      bind (is_on_main_chain id s) λ joined. elim joined [
        | true ↦ ok (branch, current.header.height)
        | false ↦ bind (find_header current.header.prev_id s) λ parent. elim parent [
          | none ↦ err attribute_error
          | some h ↦ climb_down fuel h (id ∷ branch) s
        ]
      ]

  -- The loop of `_mark_invalid`; `pending` has its last item first.
  unfoldable pub mark_all : ℕ → List Bytes → Store → Result Store
  mark_all fuel [] s = ok s
  mark_all zero (id ∷ pending) s = err out_of_fuel
  mark_all (suc fuel) (id ∷ pending) s =
      let s' = set_status id status_invalid s in
      mark_all fuel (reverse (children id s') ++ pending) s'

  -- Each stored block is the child of one block.
  unfoldable pub mark_invalid : Bytes → Store → Result Store
  mark_invalid id s = mark_all (length s.headers + 1) (id ∷ []) s

module _ ⦃c : Crypto⦄ ⦃z : Zlib⦄ where
  -- `while self.tip_height > fork_height`
  unfoldable pub disconnect_to : ℕ → ℕ → Store → Result (List Block × Store)
  disconnect_to zero fork s =
      bind (tip_height s) λ height. if leb height fork then ok ([], s) else err out_of_fuel
  disconnect_to (suc fuel) fork s = bind (tip_height s) λ height. elim (leb height fork) [
    | true ↦ ok ([], s)
    | false ↦
        bind (disconnect_tip s)
          λ (b, s'). bind (disconnect_to fuel fork s') λ (blocks, s''). ok (b ∷ blocks, s'')
  ]

  -- The two parts of `_connect` are apart here, since a failure of the second leaves the caches of the
  -- files as the first left them; the first raises no `ValidationError`.
  unfoldable pub connect_all : Rules → List Bytes → Store → Connected
  connect_all rules [] s = all_connected [] s
  connect_all rules (id ∷ branch) s = elim (find_block id s) [
    | err e ↦ raised e
    | ok (found, s') ↦ elim found [
      | none ↦ raised attribute_error
      | some b ↦ elim (prepare rules.params rules.genesis b s') [
        | err e ↦ failure_of id e s'
        | ok (ctx, s₁) ↦ elim (apply_prepared rules.params b ctx s₁) [
          | err e ↦ failure_of id e s₁
          | ok s'' ↦ and_before b (connect_all rules branch s'')
        ]
      ]
    ]
  ]

  unfoldable pub last_of : ℕ → ℕ → ℕ
  last_of size index = (index + 1) * size - 1

  -- `_seal_ready_chunks`; a round seals a chunk of final blocks, of which there are at most as many as
  -- blocks.
  unfoldable pub seal_ready : ℕ → Rules → Store → Result Store
  seal_ready zero rules s = err out_of_fuel
  seal_ready (suc fuel) rules s =
      let size = rules.params.chunk_size in
      bind (sealed_chunks s) λ index. bind (tip_height s) λ height.
        elim (ltb height (last_of size index + rules.params.finality_depth)) [
          | true ↦ ok s
          | false ↦
              bind (seal_chunk rules.params.network_id index (index * size) (last_of size index) s)
                (seal_ready fuel rules)
        ]

  unfoldable pub seal_ready_chunks : Rules → Store → Result Store
  seal_ready_chunks rules s = bind (tip_height s) λ height. seal_ready (height + 2) rules s

  -- What follows the attempt; `before` is the store at its start. On failure the transaction is rolled
  -- back, and the bad blocks are marked.
  unfoldable pub finish_switch :
      Rules → Bytes → List Block → Connected → Store → Result (SubmitResult × Store)
  finish_switch rules id disconnected attempt before = elim attempt [
    | raised e ↦ err e
    | connect_failed bad e failed ↦
        bind (mark_invalid bad (roll_back before failed)) λ s. ok (invalid_result id e, s)
    | all_connected connected s ↦ bind (seal_ready_chunks rules s) λ s'. ok (
      record {
        outcome = new_tip;
        id = id;
        error = none;
        connected = connected;
        disconnected = disconnected;
      },
      s',
    )
  ]

  unfoldable pub switch_to : Rules → Bytes → Store → Result (SubmitResult × Store)
  switch_to rules id s = bind (find_header id s) λ found. elim found [
    | none ↦ err attribute_error
    | some h ↦ bind (climb_down (h.header.height + 1) h [] s) λ (branch, fork).
        bind (tip_height s) λ height.
          bind (disconnect_to height fork s) λ (disconnected, s').
            finish_switch rules id disconnected (connect_all rules branch s') s
  ]
