-- ===== src/Difficulty/Monotone.antt =====
-- The target of core/difficulty.py grows with the time of the parent, and stays within its bounds.
use native.Mathlib.Decide.{dec_le}
use native.Mathlib.Nat.{
  div-div-eq-div-mul, le_refl, le_trans, mul-le-mul_left, mul-le-mul_right, mul_comm, one-le-pow,
  pow-suc,
}
use tal_cash.Base.{ap, arith, subst, suc, zero, ℕ, ◌%◌, ◌*◌, ◌+◌, ◌-◌, ◌/◌, ◌<◌, ◌^◌, ◌≡◌, ◌≤◌}
use tal_cash.Base.Int.{
  /ℤ_mono, div_mono, neg_part, negsuc, pos, pos_part, ℤ, ◌*ℤ◌, ◌-ℤ◌, ◌/ℤ◌, ◌≤ℤ◌,
}
use tal_cash.Difficulty.{
  asert_factor, clamp, frac_of, radix, scaled_target, shift, shifts_of, target_of_exponent,
}
use tal_cash.Difficulty.Factor.{asert_factor-le, asert_factor-zero, asert_factor_mono}

-- The shift and the fraction of an exponent, by its sign.
pub frac_of-pos : (a : ℕ) → frac_of (pos a) ≡ a % radix
unfolding frac_of shifts_of ◌/ℤ◌ ◌*ℤ◌ ◌-ℤ◌
frac_of-pos a = ground arith

frac_of-negsuc : (a : ℕ) → frac_of (negsuc a) ≡ 65535 - a % radix
unfolding frac_of shifts_of ◌/ℤ◌ ◌*ℤ◌ ◌-ℤ◌
frac_of-negsuc a = ground arith

abbrev raw : ℕ → ℤ → ℕ → ℕ
raw anchor s f = shift (anchor * asert_factor f) s / radix

shift_mono : (x y : ℕ) (s : ℤ) → x ≤ y → shift x s ≤ shift y s
unfolding shift
shift_mono x y (pos n) h = mul-le-mul_right (2 ^ n) h
shift_mono x y (negsuc n) h = div_mono x y (2 ^ suc n) (one-le-pow (suc n) 2 (omega arith)) h

raw_frac : (anchor : ℕ) (s : ℤ) (f g : ℕ) → f ≤ g → raw anchor s f ≤ raw anchor s g
raw_frac anchor s f g h =
    div_mono _ _ radix (omega arith)
      (shift_mono _ _ s (mul-le-mul_left anchor (asert_factor_mono f g h)))

-- Whatever the fraction, a step of the shift is at least as much.
shift_next_pos : (x y n : ℕ) → x ≤ 2 * y → shift x (pos n) ≤ shift y (pos (suc n))
unfolding shift
shift_next_pos x y n h =
    omega (arith, mul-le-mul_right (2 ^ n) h, ap (λ (t : ℕ). y * t) (pow-suc 2 n))

shift_next_zero : (x y : ℕ) → x ≤ 2 * y → shift x (negsuc 0) ≤ shift y (pos 0)
unfolding shift
shift_next_zero x y h = omega arith

shift_next_neg : (x y n : ℕ) → x ≤ 2 * y → shift x (negsuc (suc n)) ≤ shift y (negsuc n)
unfolding shift
shift_next_neg x y n h =
    rw (pow-suc 2 (suc n), mul_comm (2 ^ suc n) 2, ← div-div-eq-div-mul x 2 (2 ^ suc n))
      (div_mono (x / 2) y (2 ^ suc n) (one-le-pow (suc n) 2 (omega arith)) (omega arith))

-- A fraction is below 65536, so its factor is at most twice the least.
doubled : (anchor f : ℕ) → f < radix → anchor * asert_factor f ≤ 2 * (anchor * asert_factor 0)
doubled anchor f h =
    rw asert_factor-zero (omega (arith, mul-le-mul_left anchor (asert_factor-le f h)))

-- The least value at a shift.
abbrev floor_at : ℕ → ℤ → ℕ
floor_at anchor s = shift (anchor * asert_factor 0) s

floor_at-pos : (anchor m n : ℕ) → m ≤ n → floor_at anchor (pos m) ≤ floor_at anchor (pos n)
floor_at-pos anchor zero zero h = le_refl _
floor_at-pos anchor (suc m) zero h = absurd (omega arith)
floor_at-pos anchor m (suc n) h = elim (dec_le m n) [
  | yes p ↦
      le_trans (floor_at-pos anchor m n p)
        (shift_next_pos (anchor * asert_factor 0) (anchor * asert_factor 0) n (omega arith))
  | no p ↦
      let e : m ≡ suc n = omega arith in
      subst (λ k. floor_at anchor (pos m) ≤ floor_at anchor (pos k)) e (le_refl _)
]

floor_at-neg : (anchor m n : ℕ) → m ≤ n → floor_at anchor (negsuc n) ≤ floor_at anchor (negsuc m)
floor_at-neg anchor zero zero h = le_refl _
floor_at-neg anchor (suc m) zero h = absurd (omega arith)
floor_at-neg anchor m (suc n) h = elim (dec_le m n) [
  | yes p ↦
      le_trans (shift_next_neg (anchor * asert_factor 0) (anchor * asert_factor 0) n (omega arith))
        (floor_at-neg anchor m n p)
  | no p ↦
      let e : m ≡ suc n = omega arith in
      subst (λ k. floor_at anchor (negsuc k) ≤ floor_at anchor (negsuc m)) e (le_refl _)
]

-- At a smaller shift, whatever the fraction, the value is at most the least at a larger one.
shift_lt :
    (anchor f : ℕ) (s t : ℤ)
    → f < radix
    → pos_part s + neg_part t < pos_part t + neg_part s
    → shift (anchor * asert_factor f) s ≤ floor_at anchor t
shift_lt anchor f (pos m) (pos n) hf h =
    le_trans (shift_next_pos _ _ m (doubled anchor f hf))
      (floor_at-pos anchor (suc m) n (omega arith))
shift_lt anchor f (pos m) (negsuc n) hf h = absurd (omega arith)
shift_lt anchor f (negsuc zero) (pos n) hf h =
    le_trans (shift_next_zero _ _ (doubled anchor f hf)) (floor_at-pos anchor 0 n (omega arith))
shift_lt anchor f (negsuc (suc m)) (pos n) hf h =
    le_trans (shift_next_neg _ _ m (doubled anchor f hf)) (
      le_trans (floor_at-neg anchor 0 m (omega arith)) (
        le_trans (shift_next_zero (anchor * asert_factor 0) (anchor * asert_factor 0) (omega arith))
          (floor_at-pos anchor 0 n (omega arith))))
shift_lt anchor f (negsuc zero) (negsuc n) hf h = absurd (omega arith)
shift_lt anchor f (negsuc (suc m)) (negsuc n) hf h =
    le_trans (shift_next_neg _ _ m (doubled anchor f hf)) (floor_at-neg anchor n m (omega arith))

frac_of-lt : (e : ℤ) → frac_of e < radix
frac_of-lt (pos a) = omega (arith, frac_of-pos a)
frac_of-lt (negsuc a) = omega (arith, frac_of-negsuc a)

-- At one shift the fractions are ordered as the exponents.
frac_le :
    (d e : ℤ)
    → d ≤ℤ e
    → pos_part (shifts_of e) + neg_part (shifts_of d)
      ≤ pos_part (shifts_of d) + neg_part (shifts_of e)
    → frac_of d ≤ frac_of e
unfolding shifts_of ◌/ℤ◌
frac_le (pos a) (pos b) h s = omega (arith, frac_of-pos a, frac_of-pos b)
frac_le (pos a) (negsuc b) h s = absurd (omega arith)
frac_le (negsuc a) (pos b) h s = absurd (omega arith)
frac_le (negsuc a) (negsuc b) h s = omega (arith, frac_of-negsuc a, frac_of-negsuc b)

eq_of_parts : (a b : ℤ) → pos_part a + neg_part b ≡ pos_part b + neg_part a → a ≡ b
eq_of_parts a b h = ground arith

-- The target before the clamp grows with the exponent.
pub scaled_target_mono :
    (anchor : ℕ) (d e : ℤ) → d ≤ℤ e → scaled_target anchor d ≤ scaled_target anchor e
unfolding scaled_target
scaled_target_mono anchor d e h =
    let ordered : shifts_of d ≤ℤ shifts_of e =
      unfold shifts_of in /ℤ_mono d e radix (omega arith) h in
    elim (dec_le (pos_part (shifts_of e) + neg_part (shifts_of d))
      (pos_part (shifts_of d) + neg_part (shifts_of e))) [
        | yes p ↦
            let same : shifts_of d ≡ shifts_of e = eq_of_parts _ _ (omega arith) in
            rw same (raw_frac anchor (shifts_of e) (frac_of d) (frac_of e) (frac_le d e h p))
        | no p ↦ div_mono _ _ radix (omega arith) (
            le_trans
              (shift_lt anchor (frac_of d) (shifts_of d) (shifts_of e) (frac_of-lt d) (omega arith))
              (shift_mono _ _ (shifts_of e)
                (mul-le-mul_left anchor (asert_factor_mono 0 (frac_of e) (omega arith)))))
      ]

pub target_of_exponent_mono :
    (anchor pow_limit : ℕ) (d e : ℤ)
    → 1 ≤ pow_limit
    → d ≤ℤ e
    → target_of_exponent anchor pow_limit d ≤ target_of_exponent anchor pow_limit e
unfolding target_of_exponent clamp
target_of_exponent_mono anchor pow_limit d e h le =
    let ordered : shifts_of d ≤ℤ shifts_of e =
      unfold shifts_of in /ℤ_mono d e radix (omega arith) le in
    ground (arith, scaled_target_mono anchor d e le)
