-- ===== src/Base58/Octets.antt =====
-- `number.to_bytes((number.bit_length() + 7) // 8, "big")` gives the bytes without a leading 0.
use native.Mathlib.Nat.{one-le-pow, pow-le-pow_right, pow-suc}
use tal_cash.Base.{
  [], ap, arith, false, if◌then◌else◌, refl, suc, sym, zero, ℕ, ◌*◌, ◌+◌, ◌/◌, ◌<◌, ◌==◌, ◌^◌, ◌≡◌,
  ◌≤◌,
}
use tal_cash.Base.Digits.{digits, digits_on, digits_step, length-digits}
use tal_cash.Base58.{bit_length}
use tal_cash.Encoding.{to_bytes}

pow_256 : (k : ℕ) → 256 ^ k ≡ 2 ^ (8 * k)
pow_256 zero = refl
pow_256 (suc k) =
    let e : 8 * suc k ≡ suc (suc (suc (suc (suc (suc (suc (suc (8 * k)))))))) = omega arith in
    omega (arith, pow_256 k, ap (λ (x : ℕ). 2 ^ x) e)

-- As many bytes as a positive number needs, and none for 0.
record Sized (k n : ℕ) : Type 0 where
  above : n < 256 ^ k
  below : 0 < n → 256 ^ k ≤ n * 256
  empty : n ≡ 0 → k ≡ 0

Sized-positive : (k n : ℕ) → Sized (suc k) n → 0 < n
Sized-positive k zero s = absurd (omega (arith, s.empty refl))
Sized-positive k (suc n) s = omega arith

Sized-shorter : (k n : ℕ) → Sized (suc k) n → Sized k (n / 256)
Sized-shorter zero n s = record {
  above = omega (arith, s.above);
  below = λ p. omega (arith, p);
  empty = λ p. refl;
}
Sized-shorter (suc j) n s =
    let step = pow-suc 256 (suc j) in
    let more = pow-suc 256 j in
    let positive = Sized-positive (suc j) n s in
    record {
      above = omega (arith, s.above, step);
      below = λ p. omega (arith, p, s.below positive, step, more);
      empty = λ p.
          absurd (omega (arith, p, s.below positive, step, more, one-le-pow j 256 (omega arith)));
    }

to_bytes-digits : (k n : ℕ) → Sized k n → to_bytes k n ≡ digits 256 n
unfolding to_bytes digits_on
to_bytes-digits zero zero s = refl
to_bytes-digits zero (suc n) s = absurd (omega (arith, s.above))
to_bytes-digits (suc k) zero s = absurd (omega (arith, s.empty refl))
to_bytes-digits (suc k) (suc n) s =
    rw (to_bytes-digits k (suc n / 256) (Sized-shorter k (suc n) s))
      (sym (digits_step 256 (omega arith) (suc n) (omega arith)))

-- The size that the source computes.
Sized-bit_length : (n : ℕ) → 0 < n → Sized ((bit_length n + 7) / 8) n
Sized-bit_length n positive =
    let (above, below) = length-digits 2 (omega arith) n in
    let k = (bit_length n + 7) / 8 in
    let len = bit_length n in
    let up : 2 ^ len ≤ 2 ^ (8 * k) = pow-le-pow_right (omega arith) (omega arith) in
    let down : 2 ^ (8 * k) ≤ 2 ^ suc (suc (suc (suc (suc (suc (suc len)))))) =
      pow-le-pow_right (omega arith) (omega arith) in
    record {
      above = omega (arith, above, pow_256 k, up);
      below = λ _. omega (arith, below positive, pow_256 k, down);
      empty = λ p. absurd (omega (arith, p, positive));
    }

-- The bytes of a number, without a leading 0.
pub to_bytes-bit_length :
    (n : ℕ) → (if n == 0 then [] else to_bytes ((bit_length n + 7) / 8) n) ≡ digits 256 n
unfolding digits_on
to_bytes-bit_length zero = refl
to_bytes-bit_length (suc n) =
    let positive : (suc n == 0) ≡ false = ground arith in
    rw positive (
      to_bytes-digits ((bit_length (suc n) + 7) / 8) (suc n)
        (Sized-bit_length (suc n) (omega arith)))
