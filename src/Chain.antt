-- ===== src/Chain.antt =====
-- node/chain.py: what the chain manager reads from the store. The id of a header is the hash of its
-- bytes, so it is a `Result`.
pub mod Headers
pub mod Connect
pub mod Reorg
pub mod Switch
pub mod Submit
pub mod Import
pub mod Reading
pub mod KeptFiles
pub mod Undoing
pub mod Switching
pub mod Switched
pub mod Failure
pub mod Finality
pub mod Cases
pub mod Refused
pub mod Undone
mod Examples
use tal_cash.Base.{
  Bool, Bytes, List, Option, Result, [], assertion_error, bind, bytes_eq, err, false, if◌then◌else◌,
  index_error, leb, max, min, none, ok, some, suc, value_error, zero, ℕ, ◌*◌, ◌++◌, ◌+◌, ◌-◌, ◌==◌,
  ◌∷◌,
}
use tal_cash.Block.{Block, BlockHeader}
use tal_cash.BlockFiles.{Zlib}
use tal_cash.Difficulty.{median_time_past}
use tal_cash.Params.{NetworkParams}
use tal_cash.Store.{Store, StoredHeader, main_id, max_height, tip_height}
use tal_cash.Store.Blocks.{find_block, find_header, sealed_chunks}
use tal_cash.Tx.{Coinbase, coinbase, transfer}

-- `HeaderTip`
pub record HeaderTip : Type 0 where
  pub header : BlockHeader
  pub chain_work : ℕ
  pub recent_times : List ℕ

-- `max(0, tip - finality_depth, sealed_height)`; the last sealed height is -1 before the first chunk.
unfoldable pub finalized_height : NetworkParams → Store → Result ℕ
finalized_height params s = bind (tip_height s) λ tip.
    bind (sealed_chunks s)
      λ sealed. ok (max (tip - params.finality_depth) (sealed * params.chunk_size - 1))

unfoldable pub same_id : Option Bytes → Bytes → Bool
same_id none id = false
same_id (some other) id = bytes_eq other id

unfoldable pub is_on_main_chain : Bytes → Store → Result Bool
is_on_main_chain id s =
    bind (find_header id s)
      λ found. elim found [ none ↦ ok false | some h ↦ ok (same_id (main_id h.header.height s) id) ]

-- `self.tip`
unfoldable pub tip : Store → Result StoredHeader
tip s = elim (max_height s.main_chain) [
  | none ↦ err assertion_error
  | some height ↦ elim (main_id height s) [
    | none ↦ err assertion_error
    | some id ↦
        bind (find_header id s) λ found. elim found [ none ↦ err assertion_error | some h ↦ ok h ]
  ]
]

unfoldable pub main_block : ⦃z : Zlib⦄ → ℕ → Store → Result (Option Block × Store)
main_block height s = elim (main_id height s) [ none ↦ ok (none, s) | some id ↦ find_block id s ]

-- The loop of `locator`: the height, how many ids there are, and the step; each round goes down.
unfoldable pub locate : ℕ → ℕ → ℕ → ℕ → Store → List (Option Bytes)
locate fuel zero count step s = []
locate zero (suc height) count step s = []
locate (suc fuel) (suc height) count step s =
    let step' = if leb 10 (count + 1) then step * 2 else step in
    main_id (suc height) s ∷ locate fuel (suc height - step') (count + 1) step' s

unfoldable pub locator : Bytes → Store → Result (List (Option Bytes))
locator genesis_id s =
    bind (tip_height s) λ height. ok (locate height height 0 1 s ++ some genesis_id ∷ [])

-- The first block of a locator that is on the active chain gives the start.
unfoldable pub start_after : List Bytes → Store → Result ℕ
start_after [] s = ok 1
start_after (id ∷ ids) s =
    let others = start_after ids s in
    bind (find_header id s) λ found. elim found [
      | none ↦ others
      | some h ↦ if same_id (main_id h.header.height s) id then ok (h.header.height + 1) else others
    ]

-- `main_headers`: so many headers of the active chain from a height on.
unfoldable pub main_headers : ℕ → ℕ → Store → Result (List BlockHeader)
main_headers first zero s = ok []
main_headers first (suc n) s =
    let others = main_headers (first + 1) n s in
    elim (main_id first s) [
      | none ↦ others
      | some id ↦
          bind (find_header id s) λ found. elim found [
            | none ↦ others
            | some h ↦ bind others λ rest. ok (h.header ∷ rest)
          ]
    ]

unfoldable pub headers_after : List Bytes → ℕ → Store → Result (List BlockHeader)
headers_after ids limit s = bind (start_after ids s) λ start.
    bind (tip_height s) λ height. main_headers start (min height (start + limit - 1) + 1 - start) s

-- The timestamps of a header and its ancestors, up to so many, newest first.
unfoldable pub recent_times : ℕ → Option StoredHeader → Store → Result (List ℕ)
recent_times zero current s = ok []
recent_times (suc span) none s = ok []
recent_times (suc span) (some h) s =
    bind (if h.header.height == 0 then ok none else find_header h.header.prev_id s)
      λ parent. bind (recent_times span parent s) λ rest. ok (h.header.timestamp ∷ rest)

unfoldable pub median_of : List ℕ → Result ℕ
median_of times = elim (tal_cash.Difficulty.median_time_past times) [
  | none ↦ err value_error
  | some t ↦ ok t
]

-- `ChainManager.median_time_past`
unfoldable pub branch_median : Bytes → NetworkParams → Store → Result ℕ
branch_median id params s =
    bind (find_header id s) λ h. bind (recent_times params.median_time_span h s) median_of

unfoldable pub header_tip : Bytes → NetworkParams → Store → Result (Option HeaderTip)
header_tip id params s = bind (find_header id s) λ found. elim found [
  | none ↦ ok none
  | some h ↦ bind (recent_times params.median_time_span (some h) s) λ times.
      ok (some (record { header = h.header; chain_work = h.chain_work; recent_times = times }))
]

-- `Block.coinbase`
unfoldable pub coinbase_of : Block → Result Coinbase
coinbase_of b = elim b.transactions [
  | [] ↦ err index_error
  | tx ∷ txs ↦ elim tx [ coinbase t ↦ ok t | transfer t ↦ err assertion_error ]
]
