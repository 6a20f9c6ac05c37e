-- ===== src/Base/Int.antt =====
-- Signed integers over the native numbers, with Python's floor division by a positive number.
use native.Mathlib.Nat.{div-mul-le_self, le-div_iff_mul-le, le_trans, mul-le-mul_right}
use tal_cash.Base.{Bool, arith, if◌then◌else◌, leb, ltb, suc, ℕ, ◌*◌, ◌+◌, ◌-◌, ◌/◌, ◌<◌, ◌≤◌}

-- `negsuc n` is -(n + 1).
pub data ℤ : Type 0 where
  pos : ℕ → ℤ
  negsuc : ℕ → ℤ

abbrev pub pos_part : ℤ → ℕ
pos_part (pos n) = n
pos_part (negsuc n) = 0

abbrev pub neg_part : ℤ → ℕ
neg_part (pos n) = 0
neg_part (negsuc n) = suc n

-- a - b, as an integer.
abbrev pub sub_ℕ : ℕ → ℕ → ℤ
sub_ℕ a b = if leb b a then pos (a - b) else negsuc (b - a - 1)

infixl 65 ◌-ℤ◌
infixl 70 ◌*ℤ◌ ◌/ℤ◌
infix 50 ◌≤ℤ◌
unfoldable pub ◌-ℤ◌ : ℤ → ℤ → ℤ
a -ℤ b = sub_ℕ (pos_part a + neg_part b) (neg_part a + pos_part b)

-- An integer times a number that is not negative.
unfoldable pub ◌*ℤ◌ : ℤ → ℕ → ℤ
a *ℤ b = sub_ℕ (pos_part a * b) (neg_part a * b)

-- `a // b` for a positive `b`, and `a >> k` for `b = 2 ^ k`: rounds down.
unfoldable pub ◌/ℤ◌ : ℤ → ℕ → ℤ
pos a /ℤ b = pos (a / b)
negsuc a /ℤ b = negsuc (a / b)

abbrev pub ◌≤ℤ◌ : ℤ → ℤ → Type 0
a ≤ℤ b = pos_part a + neg_part b ≤ pos_part b + neg_part a

abbrev pub ltb_ℤ : ℤ → ℤ → Bool
ltb_ℤ a b = ltb (pos_part a + neg_part b) (pos_part b + neg_part a)

pub -ℤ_mono_left : (a b c : ℤ) → a ≤ℤ b → a -ℤ c ≤ℤ b -ℤ c
unfolding ◌-ℤ◌
-ℤ_mono_left a b c h = ground arith

pub *ℤ_mono_left : (a b : ℤ) (k : ℕ) → a ≤ℤ b → a *ℤ k ≤ℤ b *ℤ k
unfolding ◌*ℤ◌
*ℤ_mono_left (pos a) (pos b) k h = ground (arith, mul-le-mul_right {m = a} {n = b} k (omega arith))
*ℤ_mono_left (pos a) (negsuc b) k h = absurd (omega arith)
*ℤ_mono_left (negsuc a) (pos b) k h = ground arith
*ℤ_mono_left (negsuc a) (negsuc b) k h =
    ground (arith, mul-le-mul_right {m = suc b} {n = suc a} k (omega arith))

pub div_mono : (a b k : ℕ) → 0 < k → a ≤ b → a / k ≤ b / k
div_mono a b k pos_k h = (le-div_iff_mul-le pos_k).1 (le_trans (div-mul-le_self a k) h)

pub /ℤ_mono : (a b : ℤ) (k : ℕ) → 0 < k → a ≤ℤ b → a /ℤ k ≤ℤ b /ℤ k
unfolding ◌/ℤ◌
/ℤ_mono (pos a) (pos b) k h le = omega (arith, div_mono a b k h (omega arith))
/ℤ_mono (pos a) (negsuc b) k h le = absurd (omega arith)
/ℤ_mono (negsuc a) (pos b) k h le = omega arith
/ℤ_mono (negsuc a) (negsuc b) k h le = omega (arith, div_mono b a k h (omega arith))
