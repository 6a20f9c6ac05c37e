-- ===== src/Difficulty/Factor.antt =====
-- The cubic factor of core/difficulty.py grows with the fraction, from 65536 to less than 131072.
use native.Mathlib.Nat.{le_trans, pow-le-pow_left}
use tal_cash.Base.{arith, refl, ℕ, ◌*◌, ◌+◌, ◌<◌, ◌^◌, ◌≡◌, ◌≤◌}
use tal_cash.Base.Int.{div_mono}
use tal_cash.Difficulty.{asert_factor, radix}

abbrev cubic : ℕ → ℕ
cubic f = 195_766_423_245_049 * f + 971_821_376 * f ^ 2 + 5_127 * f ^ 3 + 2 ^ 47

cubic_mono : (f g : ℕ) → f ≤ g → cubic f ≤ cubic g
cubic_mono f g h = omega (arith, pow-le-pow_left h 2, pow-le-pow_left h 3)

pub asert_factor_mono : (f g : ℕ) → f ≤ g → asert_factor f ≤ asert_factor g
unfolding asert_factor
asert_factor_mono f g h =
    omega (arith, div_mono (cubic f) (cubic g) (2 ^ 48) (omega arith) (cubic_mono f g h))

pub asert_factor-zero : asert_factor 0 ≡ radix
unfolding asert_factor
asert_factor-zero = refl

pub asert_factor-le : (f : ℕ) → f < radix → asert_factor f ≤ 2 * radix
unfolding asert_factor
asert_factor-le f h = le_trans (asert_factor_mono f 65535 (omega arith)) (omega arith)
