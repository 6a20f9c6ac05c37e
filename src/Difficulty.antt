-- ===== src/Difficulty.antt =====
-- core/difficulty.py: ASERT targets, work and the median time. Timestamps and heights are numbers;
-- their differences are integers, as the source has them.
pub mod Factor
pub mod Monotone
pub mod Schedule
mod Examples
use tal_cash.Base.{
  List, Option, Result, [], bind, if◌then◌else◌, leb, length, max, min, none, ok, raise_if, some,
  suc, zero, zero_division_error, ℕ, ◌*◌, ◌+◌, ◌/◌, ◌==◌, ◌^◌, ◌∷◌, ◌⨟◌,
}
use tal_cash.Base.Int.{ltb_ℤ, negsuc, pos, pos_part, sub_ℕ, ℤ, ◌*ℤ◌, ◌-ℤ◌, ◌/ℤ◌}
use tal_cash.Block.{BlockHeader}
use tal_cash.Params.{NetworkParams}

abbrev pub radix_bits : ℕ
radix_bits = 16

abbrev pub radix : ℕ
radix = 2 ^ radix_bits

-- The cubic approximation of `2 ** (frac / 65536)`, times 65536.
unfoldable pub asert_factor : ℕ → ℕ
asert_factor frac =
    radix
    + (195_766_423_245_049 * frac + 971_821_376 * frac ^ 2 + 5_127 * frac ^ 3 + 2 ^ 47) / 2 ^ 48

-- `target << shifts if shifts >= 0 else target >> -shifts`
unfoldable pub shift : ℕ → ℤ → ℕ
shift target (pos n) = target * 2 ^ n
shift target (negsuc n) = target / 2 ^ suc n

-- `max(1, min(target, pow_limit))`
unfoldable pub clamp : ℕ → ℕ → ℕ
clamp pow_limit target = max 1 (min target pow_limit)

-- `exponent >> _RADIX_BITS`
unfoldable pub shifts_of : ℤ → ℤ
shifts_of exponent = exponent /ℤ radix

-- `exponent - (shifts << _RADIX_BITS)`, which is not negative
unfoldable pub frac_of : ℤ → ℕ
frac_of exponent = pos_part (exponent -ℤ shifts_of exponent *ℤ radix)

-- The target before the clamp.
unfoldable pub scaled_target : ℕ → ℤ → ℕ
scaled_target anchor_target exponent =
    shift (anchor_target * asert_factor (frac_of exponent)) (shifts_of exponent) / radix

-- `asert_target` from the exponent on.
unfoldable pub target_of_exponent : ℕ → ℕ → ℤ → ℕ
target_of_exponent anchor_target pow_limit exponent =
    if ltb_ℤ (pos 256) (shifts_of exponent)
    then pow_limit
    else if ltb_ℤ (shifts_of exponent) (negsuc 511)
    then 1
    else clamp pow_limit (scaled_target anchor_target exponent)

-- `((time_delta - spacing * height_delta) * _RADIX) // half_life`
unfoldable pub exponent_of : ℤ → ℤ → ℕ → ℕ → Result ℤ
exponent_of time_delta height_delta spacing half_life =
    raise_if (half_life == 0) zero_division_error
    ⨟ ok ((time_delta -ℤ height_delta *ℤ spacing) *ℤ radix /ℤ half_life)

unfoldable pub asert_target : ℕ → ℕ → ℕ → ℕ → ℕ → ℕ → ℕ → ℕ → Result ℕ
asert_target anchor_target anchor_timestamp anchor_height parent_timestamp parent_height spacing
      half_life pow_limit =
    bind
      (exponent_of (sub_ℕ parent_timestamp anchor_timestamp) (sub_ℕ parent_height anchor_height)
        spacing half_life)
      λ exponent. ok (target_of_exponent anchor_target pow_limit exponent)

unfoldable pub next_target : NetworkParams → BlockHeader → BlockHeader → Result ℕ
next_target params genesis parent =
    if params.pow_no_retarget
    then ok params.genesis_target
    else asert_target genesis.target genesis.timestamp genesis.height parent.timestamp parent.height
        params.target_spacing params.asert_half_life params.pow_limit

-- Expected number of hashes to find a block at this target.
unfoldable pub block_work : ℕ → ℕ
block_work target = 2 ^ 256 / (target + 1)

unfoldable pub insert_sorted : ℕ → List ℕ → List ℕ
insert_sorted x [] = x ∷ []
insert_sorted x (y ∷ ys) = if leb x y then x ∷ y ∷ ys else y ∷ insert_sorted x ys

-- `sorted`
unfoldable pub sorted : List ℕ → List ℕ
sorted [] = []
sorted (x ∷ xs) = insert_sorted x (sorted xs)

unfoldable pub item_at : List ℕ → ℕ → Option ℕ
item_at [] i = none
item_at (x ∷ xs) zero = some x
item_at (x ∷ xs) (suc i) = item_at xs i

-- `none` stands for the `IndexError` of an empty sequence.
unfoldable pub median_time_past : List ℕ → Option ℕ
median_time_past timestamps =
    let ordered = sorted timestamps in item_at ordered (length ordered / 2)
