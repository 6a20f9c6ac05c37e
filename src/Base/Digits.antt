-- ===== src/Base/Digits.antt =====
-- The digits of a number in a base, most significant first, as a loop of `divmod` collects them.
use native.Mathlib.Nat.{
  div-add-mod', div-eq_of_lt, div-lt_iff_lt-mul, div-lt_self, div-mul-le_self, pow-zero,
  pow-le-pow_right, mul-le-mul_right, one-le-pow, pow-suc, mod-eq_of_lt, mod-lt, mul-add-div_right,
  mul-add-mod_self_right, mul-le-mul_left,
}
use tal_cash.Base.{
  All, All-append, Bool-cases, List, [], ap, append-nil, append_assoc, ap₂, arith, inl, inr, leb,
  length, length-append, refl, suc, sym, zero, ℕ, ◌%◌, ◌*◌, ◌++◌, ◌+◌, ◌/◌, ◌<◌, ◌^◌, ◌∙◌, ◌∷◌, ◌≡◌,
  ◌≤◌,
}

-- On fuel.
unfoldable pub digits_on : ℕ → ℕ → ℕ → List ℕ
digits_on b zero n = []
digits_on b (suc fuel) zero = []
digits_on b (suc fuel) (suc m) = digits_on b fuel (suc m / b) ++ (suc m % b) ∷ []

-- Each round makes the number smaller, so the number itself is fuel enough.
abbrev pub digits : ℕ → ℕ → List ℕ
digits b n = digits_on b n n

unfoldable pub from_digits : ℕ → ℕ → List ℕ → ℕ
from_digits b acc [] = acc
from_digits b acc (d ∷ ds) = from_digits b (acc * b + d) ds

pub from_digits-append :
    (b acc : ℕ) (xs ys : List ℕ)
    → from_digits b acc (xs ++ ys) ≡ from_digits b (from_digits b acc xs) ys
unfolding from_digits
from_digits-append b acc [] ys = refl
from_digits-append b acc (x ∷ xs) ys = from_digits-append b (acc * b + x) xs ys

module _ (b : ℕ) (large : 2 ≤ b) where
  pub div_smaller : (m : ℕ) → suc m / b ≤ m
  div_smaller m =
      omega (arith, div-lt_self {n = suc m} {k = b} (omega arith) (omega (arith, large)))

  digits_on_enough : (f g n : ℕ) → n ≤ f → n ≤ g → digits_on b f n ≡ digits_on b g n
  unfolding digits_on
  digits_on_enough zero zero n p q = refl
  digits_on_enough zero (suc g) zero p q = refl
  digits_on_enough zero (suc g) (suc m) p q = absurd (omega (arith, p))
  digits_on_enough (suc f) zero zero p q = refl
  digits_on_enough (suc f) zero (suc m) p q = absurd (omega (arith, q))
  digits_on_enough (suc f) (suc g) zero p q = refl
  digits_on_enough (suc f) (suc g) (suc m) p q =
      ap (λ (ds : List ℕ). ds ++ (suc m % b) ∷ [])
        (digits_on_enough f g (suc m / b) (omega (arith, p, div_smaller m))
          (omega (arith, q, div_smaller m)))

  pub digits_step : (n : ℕ) → 0 < n → digits b n ≡ digits b (n / b) ++ n % b ∷ []
  unfolding digits_on
  digits_step zero positive = absurd (omega arith)
  digits_step (suc m) positive =
      ap (λ (ds : List ℕ). ds ++ (suc m % b) ∷ [])
        (digits_on_enough m (suc m / b) (suc m / b) (div_smaller m) (omega arith))

  -- The digits of a number with one digit more.
  pub digits_snoc : (v d : ℕ) → d < b → 0 < v * b + d → digits b (v * b + d) ≡ digits b v ++ d ∷ []
  digits_snoc v d small positive =
      digits_step (v * b + d) positive
      ∙ ap₂ (λ (q r : ℕ). digits b q ++ r ∷ [])
          (mul-add-div_right (omega arith) v d ∙ omega (arith, div-eq_of_lt small))
          (mul-add-mod_self_right v b d ∙ mod-eq_of_lt small)

  from_digits-digits_on : (f n : ℕ) → n ≤ f → from_digits b 0 (digits_on b f n) ≡ n
  unfolding digits_on from_digits
  from_digits-digits_on zero zero h = refl
  from_digits-digits_on zero (suc m) h = absurd (omega (arith, h))
  from_digits-digits_on (suc f) zero h = refl
  from_digits-digits_on (suc f) (suc m) h =
      from_digits-append b 0 (digits_on b f (suc m / b)) ((suc m % b) ∷ [])
      ∙ rw (from_digits-digits_on f (suc m / b) (omega (arith, h, div_smaller m)))
          (div-add-mod' (suc m) b)

  pub from_digits-digits : (n : ℕ) → from_digits b 0 (digits b n) ≡ n
  from_digits-digits n = from_digits-digits_on n n (omega arith)

  digits_on-small : (f n : ℕ) → All (λ d. d < b) (digits_on b f n)
  unfolding digits_on
  digits_on-small zero n = tt
  digits_on-small (suc f) zero = tt
  digits_on-small (suc f) (suc m) =
      All-append (λ d. d < b) (digits_on b f (suc m / b)) ((suc m % b) ∷ [])
        (digits_on-small f (suc m / b)) (mod-lt (suc m) (omega (arith, large)), tt)

  -- Digits are below the base.
  pub digits-small : (n : ℕ) → All (λ d. d < b) (digits b n)
  digits-small n = digits_on-small n n

  grows : (acc d : ℕ) → 0 < acc → 0 < acc * b + d
  grows acc d positive = omega (arith, large, mul-le-mul_left b positive)

  -- Digits that go on from a number that is not 0.
  pub digits-from_digits_acc :
      (acc : ℕ) (ds : List ℕ)
      → 0 < acc
      → All (λ d. d < b) ds
      → digits b (from_digits b acc ds) ≡ digits b acc ++ ds
  unfolding from_digits
  digits-from_digits_acc acc [] positive small = sym (append-nil _)
  digits-from_digits_acc acc (d ∷ ds) positive (s, small) =
      digits-from_digits_acc (acc * b + d) ds (grows acc d positive) small
      ∙ ap (λ (xs : List ℕ). xs ++ ds) (digits_snoc acc d s (grows acc d positive))
      ∙ append_assoc (digits b acc) (d ∷ []) ds

  one_digit : (d : ℕ) → d < b → 0 < d → digits b d ≡ d ∷ []
  unfolding digits_on
  one_digit d small positive =
      ap (λ (n : ℕ). digits b n) (omega arith) ∙ digits_snoc 0 d small (omega (arith, positive))

  -- Digits without a leading 0 are those of their number.
  pub digits-from_digits :
      (d : ℕ) (ds : List ℕ)
      → 0 < d
      → All (λ e. e < b) (d ∷ ds)
      → digits b (from_digits b 0 (d ∷ ds)) ≡ d ∷ ds
  unfolding from_digits digits_on
  digits-from_digits d ds positive (s, small) =
      ap (λ (n : ℕ). digits b (from_digits b n ds)) {x = 0 * b + d} {y = d} (omega arith)
      ∙ digits-from_digits_acc d ds positive small
      ∙ ap (λ (xs : List ℕ). xs ++ ds) (one_digit d s positive)

  no_digits : 0 < b ^ 0
  no_digits = omega (arith, one-le-pow 0 b (omega (arith, large)))

  power_step : (k : ℕ) → b ^ (k + 1) ≡ b ^ k * b
  power_step k = ap (λ (x : ℕ). b ^ x) {x = k + 1} {y = suc k} (omega arith) ∙ pow-suc b k

  power_above : (n k : ℕ) → n / b < b ^ k → n < b ^ (k + 1)
  power_above n k h =
      rw (power_step k) ((div-lt_iff_lt-mul {k = b} {x = n} {y = b ^ k} (omega (arith, large))).0 h)

  power_below :
      (f n : ℕ)
      → (q : ℕ) → q ≡ n / b
      → 0 < n
      → (0 < q → b ^ length (digits_on b f q) ≤ q * b)
      → b ^ length (digits_on b f q) ≤ n
  unfolding digits_on
  power_below zero n zero e p h = omega (arith, pow-zero b, p)
  power_below (suc f) n zero e p h = omega (arith, pow-zero b, p)
  power_below f n (suc q) e p h =
      omega (arith, h (omega arith), div-mul-le_self n b, ap (λ (x : ℕ). x * b) e)

  power_next : (n k : ℕ) → b ^ k ≤ n → b ^ (k + 1) ≤ n * b
  power_next n k h = rw (power_step k) (mul-le-mul_right b h)

  -- How many digits a number has.
  pub length-digits_on :
      (f n : ℕ)
      → n ≤ f
      → (n < b ^ length (digits_on b f n)) × (0 < n → b ^ length (digits_on b f n) ≤ n * b)
  unfolding digits_on
  length-digits_on zero zero h = (no_digits, λ p. absurd (omega (arith, p)))
  length-digits_on zero (suc m) h = absurd (omega (arith, h))
  length-digits_on (suc f) zero h = (no_digits, λ p. absurd (omega (arith, p)))
  length-digits_on (suc f) (suc m) h =
      let (above, below) = length-digits_on f (suc m / b) (omega (arith, h, div_smaller m)) in
      let len = length-append (digits_on b f (suc m / b)) ((suc m % b) ∷ []) in
      rw len (
        power_above (suc m) _ above,
        λ p. power_next (suc m) _ (power_below f (suc m) (suc m / b) refl p below),
      )

  pub length-digits :
      (n : ℕ) → (n < b ^ length (digits b n)) × (0 < n → b ^ length (digits b n) ≤ n * b)
  length-digits n = length-digits_on n n (omega arith)

  pub length-digits_le : (l n : ℕ) → n < b ^ l → length (digits b n) ≤ l
  unfolding digits_on
  length-digits_le l zero h = omega arith
  length-digits_le l (suc m) h =
      let (_, below) = length-digits (suc m) in
      elim (Bool-cases (leb (length (digits b (suc m))) l)) [
        | inl fits ↦ ground (arith, fits)
        | inr long ↦
            let more : b ^ suc l ≤ b ^ length (digits b (suc m)) =
              pow-le-pow_right (omega (arith, large)) (ground (arith, long)) in
            absurd
              (omega (arith, below (omega arith), more, pow-suc b l, mul-le-mul_right b h, large))
      ]
