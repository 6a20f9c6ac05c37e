-- ===== src/Difficulty/Examples.antt =====
-- Tests of core/difficulty.py and the theorems about it at concrete headers.
use tal_cash.Base.{[], arith, ok, refl, some, ℕ, ◌*◌, ◌-◌, ◌^◌, ◌∷◌, ◌≡◌, ◌≤◌}
use tal_cash.Base.Int.{◌*ℤ◌, ◌-ℤ◌, ◌/ℤ◌}
use tal_cash.Block.{BlockHeader}
use tal_cash.Crypto.{zero_bytes}
use tal_cash.Difficulty.{
  asert_factor, asert_target, block_work, clamp, exponent_of, frac_of, insert_sorted, item_at,
  median_time_past, next_target, scaled_target, shift, shifts_of, sorted, target_of_exponent,
}
use tal_cash.Difficulty.Schedule.{next_target_behind, next_target_mono}
use tal_cash.Params.{mainnet}
use tal_cash.Toy.{toy_crypto}

abbrev genesis_header : BlockHeader
genesis_header = record {
  version = 1;
  height = 0;
  prev_id = zero_bytes 32;
  merkle_root = zero_bytes 32;
  snapshot_root = zero_bytes 32;
  timestamp = 1_800_000_000;
  target = 2 ^ 200;
  nonce = 0;
}

-- The block of height 60, one half-life late.
abbrev late_header : BlockHeader
late_header = record genesis_header { height = 60; timestamp = 1_800_007_200 }

-- The block of height 60 on schedule.
abbrev timely_header : BlockHeader
timely_header = record genesis_header { height = 60; timestamp = 1_800_003_600 }

-- One half-life late doubles the target, in time keeps it.
next_target_values :
    (next_target mainnet genesis_header late_header ≡ ok (2 ^ 201))
    × (next_target mainnet genesis_header timely_header ≡ ok (2 ^ 200))
unfolding next_target mainnet asert_target target_of_exponent exponent_of scaled_target shift
    shifts_of frac_of asert_factor clamp ◌/ℤ◌ ◌*ℤ◌ ◌-ℤ◌
next_target_values = (refl, refl)

block_work_value : block_work (2 ^ 255 - 1) ≡ 2
unfolding block_work
block_work_value = refl

median_time_past_value : median_time_past (30 ∷ 10 ∷ 50 ∷ 20 ∷ []) ≡ some 30
unfolding median_time_past sorted insert_sorted item_at
median_time_past_value = refl

next_target_mono_example :
    (target target' : ℕ) × (next_target mainnet genesis_header timely_header ≡ ok target)
    × (next_target mainnet genesis_header late_header ≡ ok target')
    × (target ≤ target')
unfolding mainnet
next_target_mono_example =
    next_target_mono mainnet genesis_header timely_header late_header (omega arith) (omega arith)
      refl (omega arith)

next_target_behind_example :
    next_target mainnet genesis_header late_header ≡ ok (clamp mainnet.pow_limit (2 ^ 200 * 2 ^ 1))
unfolding mainnet
next_target_behind_example =
    next_target_behind mainnet genesis_header late_header 60 1 refl (omega arith) (omega arith) refl
      refl
