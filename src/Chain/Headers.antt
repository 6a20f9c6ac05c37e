-- ===== src/Chain/Headers.antt =====
-- Checks of headers and of the point where a branch leaves the active chain (node/chain.py).
use tal_cash.Base.{
  Bool, Bytes, List, Result, [], attribute_error, bad_version, bind, err, false,
  fork_below_finality, if◌then◌else◌, invalid_parent, leb, ltb, none, not, ok, out_of_fuel,
  raise_if, some, suc, take, true, unknown_parent, validation, zero, ℕ, ◌+◌, ◌-◌, ◌==◌, ◌∷◌, ◌⨟◌,
}
use tal_cash.Block.{BlockHeader, block_id, block_version}
use tal_cash.Chain.{HeaderTip, finalized_height, is_on_main_chain, median_of}
use tal_cash.Crypto.{Crypto, PowParams}
use tal_cash.Difficulty.{block_work, next_target}
use tal_cash.Params.{NetworkParams}
use tal_cash.Pow.{meets_target}
use tal_cash.State.{check_header_against_parent, check_not_in_future}
use tal_cash.Store.{Status, Store, StoredHeader, status_invalid}
use tal_cash.Store.Blocks.{find_header}

module _ ⦃c : Crypto⦄ where
  -- The loop of `_check_finality`: down the branch to the active chain.
  unfoldable pub meets_chain : ℕ → ℕ → StoredHeader → Store → Result (Unit {0})
  meets_chain zero finalized current s = err out_of_fuel
  meets_chain (suc fuel) finalized current s = bind (block_id current.header) λ id.
      bind (is_on_main_chain id s) λ joined. elim joined [
        | true ↦ raise_if (ltb current.header.height finalized) (validation fork_below_finality)
        | false ↦
            raise_if (leb current.header.height finalized) (validation fork_below_finality)
            ⨟ bind (find_header current.header.prev_id s) λ parent. elim parent [
              | none ↦ err attribute_error
              | some h ↦ meets_chain fuel finalized h s
            ]
      ]

  -- A header's parent is one lower, so a branch has at most as many headers as its height.
  unfoldable pub check_finality : NetworkParams → StoredHeader → Store → Result (Unit {0})
  check_finality params parent s =
      bind (finalized_height params s)
        λ finalized. meets_chain (parent.header.height + 1) finalized parent s

  unfoldable pub is_invalid : Status → Bool
  is_invalid status_invalid = true
  is_invalid other = false

  unfoldable pub check_branch_point : NetworkParams → Bytes → Store → Result (Unit {0})
  check_branch_point params id s = bind (find_header id s) λ found. elim found [
    | none ↦ err (validation unknown_parent)
    | some h ↦
        raise_if (is_invalid h.status) (validation invalid_parent) ⨟ check_finality params h s
  ]

  -- `all_meet_target`
  unfoldable pub all_meet_target : List BlockHeader → PowParams → Result Bool
  all_meet_target [] pow = ok true
  all_meet_target (h ∷ headers) pow =
      let others = all_meet_target headers pow in
      bind (meets_target h pow) λ met. if met then others else ok false

  -- One header of `check_headers` after the test of its time.
  unfoldable pub next_header_tip :
      NetworkParams → BlockHeader → HeaderTip → BlockHeader → Result HeaderTip
  next_header_tip params genesis t header =
      raise_if (not (header.version == block_version)) (validation bad_version)
      ⨟ bind (median_of t.recent_times) λ median.
        bind (next_target params genesis t.header) λ target.
          check_header_against_parent header t.header median target params false
          ⨟ ok (record {
            header = header;
            chain_work = t.chain_work + block_work header.target;
            recent_times = header.timestamp ∷ take (params.median_time_span - 1) t.recent_times;
          })

  -- `check_headers`, which stops at a header from the future.
  unfoldable pub check_headers :
      NetworkParams
      → BlockHeader
      → ℕ
      → HeaderTip
      → List BlockHeader
      → Result (HeaderTip × List BlockHeader)
  check_headers params genesis now t [] = ok (t, [])
  check_headers params genesis now t (header ∷ headers) =
      elim (check_not_in_future header now params) [
        | err e ↦ ok (t, [])
        | ok _ ↦ bind (next_header_tip params genesis t header) λ t'.
            bind (check_headers params genesis now t' headers)
              λ (last, checked). ok (last, header ∷ checked)
      ]
