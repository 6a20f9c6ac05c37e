-- ===== src/Snapshot/Examples.antt =====
-- Tests of core/snapshot.py, with the heights of its docstring, and its theorem at one of them.
use mathlib.Core.List.{Permᴰ}
use tal_cash.Base.{
  [], bytes_eq, err, none, refl, some, true, value_error, ℕ, ◌++◌, ◌+◌, ◌<◌, ◌∷◌, ◌≡◌, ◌≤◌, ◌⊎◌,
}
use tal_cash.Base.Int.{◌/ℤ◌}
use tal_cash.Crypto.{zero_bytes}
use tal_cash.Params.{mainnet, mainnet-IsParams}
use tal_cash.Snapshot.{
  Entry, bytes_le, has_twice, insert_entry, is_snapshot_point, non_empty, snapshot_height,
  sort_entries, state_root,
}
use tal_cash.Snapshot.Order.{state_root_order}
use tal_cash.Snapshot.Schedule.{snapshot_height_cases}
use tal_cash.State.{Account, account_eq, empty_account}
use tal_cash.Toy.{toy_crypto}

snapshot_heights :
    (snapshot_height 1449 mainnet ≡ none)
    × (snapshot_height 1450 mainnet ≡ some 1439)
    × (snapshot_height 2889 mainnet ≡ some 1439)
    × (snapshot_height 2890 mainnet ≡ some 2879)
unfolding snapshot_height mainnet ◌/ℤ◌
snapshot_heights = (refl, refl, refl, refl)

one : Account
one = record { balance = 5; nonce = 1 }

-- The order of the accounts does not count, nor do empty ones; an address given twice is refused.
state_roots :
    (state_root ((zero_bytes 20 ++ 1 ∷ [], one) ∷ (zero_bytes 21, one) ∷ [])
      ≡ state_root (
          (zero_bytes 21, one)
          ∷ (zero_bytes 20 ++ 2 ∷ [], empty_account)
          ∷ (zero_bytes 20 ++ 1 ∷ [], one)
          ∷ []))
    × (state_root ((zero_bytes 21, one) ∷ (zero_bytes 21, one) ∷ []) ≡ err value_error)
unfolding one state_root sort_entries insert_entry bytes_le non_empty account_eq has_twice bytes_eq
state_roots = (refl, refl)

snapshot_height_cases_example :
    ((snapshot_height 1450 mainnet ≡ none) × (1450 < mainnet.chunk_size + mainnet.snapshot_delay))
    ⊎ ((s : ℕ) × (snapshot_height 1450 mainnet ≡ some s)
        × (is_snapshot_point s mainnet ≡ true)
        × (s + 1 + mainnet.snapshot_delay ≤ 1450)
        × (1450 < s + 1 + mainnet.snapshot_delay + mainnet.chunk_size))
snapshot_height_cases_example = snapshot_height_cases 1450 mainnet mainnet-IsParams

abbrev low : Entry
low = (zero_bytes 21, empty_account)

abbrev high : Entry
high = (zero_bytes 20 ++ 1 ∷ [], record { balance = 7; nonce = 0 })

state_root_order_example : state_root (low ∷ high ∷ []) ≡ state_root (high ∷ low ∷ [])
state_root_order_example =
    state_root_order (low ∷ high ∷ []) (high ∷ low ∷ []) (Permᴰ.swap refl refl)
