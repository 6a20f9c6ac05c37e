-- ===== src/Encoding/BigEndian.antt =====
-- Laws of `to_bytes`, `from_bytes` and `uint_bytes` (core/encoding.py).
use native.Mathlib.Nat.{pow-suc}
use native.Mathlib.Numerals.{towards_suc}
use tal_cash.Base.{
  All-append, Bytes, IsBytes, [], ap, append-nil, append_assoc, arith, length, length-append,
  lt→leb, ok, refl, suc, zero, ℕ, ◌%◌, ◌*◌, ◌++◌, ◌+◌, ◌/◌, ◌<◌, ◌^◌, ◌∙◌, ◌∷◌, ◌≡◌,
}
use tal_cash.Encoding.{from_bytes, from_bytes_acc, int_to_bytes, to_bytes, uint_bytes}

pub length-to_bytes : (n v : ℕ) → length (to_bytes n v) ≡ n
unfolding to_bytes
length-to_bytes zero v = refl
length-to_bytes (suc n) v =
    omega
      (arith, length-append (to_bytes n (v / 256)) ((v % 256) ∷ []), length-to_bytes n (v / 256))

pub to_bytes-IsBytes : (n v : ℕ) → IsBytes (to_bytes n v)
unfolding to_bytes
to_bytes-IsBytes zero v = tt
to_bytes-IsBytes (suc n) v =
    All-append _ (to_bytes n (v / 256)) ((v % 256) ∷ []) (to_bytes-IsBytes n (v / 256))
      (omega arith, tt)

from_bytes_acc_snoc :
    (acc b : ℕ) (xs : Bytes) → from_bytes_acc acc (xs ++ b ∷ []) ≡ from_bytes_acc acc xs * 256 + b
unfolding from_bytes_acc
from_bytes_acc_snoc acc b [] = refl
from_bytes_acc_snoc acc b (x ∷ xs) = from_bytes_acc_snoc (acc * 256 + x) b xs

pub from_bytes-to_bytes : (n v : ℕ) → v < 256 ^ n → from_bytes (to_bytes n v) ≡ v
unfolding to_bytes from_bytes
from_bytes-to_bytes zero v h = omega (arith, h)
from_bytes-to_bytes (suc n) v h =
    from_bytes_acc_snoc 0 (v % 256) (to_bytes n (v / 256))
    ∙ omega (arith, from_bytes-to_bytes n (v / 256) (omega (arith, pow-suc 256 n)))

to_bytes-from_bytes_acc :
    (n acc : ℕ) (bs : Bytes)
    → IsBytes bs
    → to_bytes (n + length bs) (from_bytes_acc acc bs) ≡ to_bytes n acc ++ bs
unfolding to_bytes from_bytes_acc
to_bytes-from_bytes_acc n acc [] h =
    rw append-nil (ap (λ k. to_bytes k acc) {x = n + 0} {y = n} (omega arith))
to_bytes-from_bytes_acc n acc (b ∷ bs) (hb, hbs) =
    ap (λ k. to_bytes k (from_bytes_acc (acc * 256 + b) bs)) {x = n + suc (length bs)}
      {y = suc n + length bs} (omega arith)
    ∙ to_bytes-from_bytes_acc (suc n) (acc * 256 + b) bs hbs
    ∙ rw (quotient, remainder) (append_assoc (to_bytes n acc) (b ∷ []) bs)
  where
    quotient : (acc * 256 + b) / 256 ≡ acc
    quotient = omega arith

    remainder : (acc * 256 + b) % 256 ≡ b
    remainder = omega arith

pub to_bytes-from_bytes : (bs : Bytes) → IsBytes bs → to_bytes (length bs) (from_bytes bs) ≡ bs
unfolding from_bytes to_bytes
to_bytes-from_bytes bs h =
    ap (λ k. to_bytes k (from_bytes_acc 0 bs)) {x = length bs} {y = 0 + length bs} (omega arith)
    ∙ to_bytes-from_bytes_acc 0 0 bs h

from_bytes_acc-lt :
    (acc m : ℕ) (bs : Bytes) → IsBytes bs → acc < m → from_bytes_acc acc bs < m * 256 ^ length bs
unfolding from_bytes_acc
from_bytes_acc-lt acc m [] h lt = omega arith
from_bytes_acc-lt acc m (b ∷ bs) (hb, hbs) lt = omega (
  arith,
  from_bytes_acc-lt (acc * 256 + b) (m * 256) bs hbs (omega arith),
  ap (λ (t : ℕ). m * t) (pow-suc 256 (length bs)),
)

pub from_bytes-lt : (bs : Bytes) → IsBytes bs → from_bytes bs < 256 ^ length bs
unfolding from_bytes
from_bytes-lt bs h = omega (arith, from_bytes_acc-lt 0 1 bs h (omega arith))

pow_bytes : (n : ℕ) → 2 ^ (8 * n) ≡ 256 ^ n
pow_bytes zero = refl
pow_bytes (suc n) =
    ap (λ k. 2 ^ k) {y = 8 * n + 8} (omega arith)
    ∙ simp towards_suc (omega (arith, pow_bytes n, pow-suc 256 n))

pub uint_bytes_fits : (n v : ℕ) → v < 256 ^ n → uint_bytes v n ≡ ok (to_bytes n v)
unfolding uint_bytes
uint_bytes_fits n v h = rw (lt→leb (2 ^ (8 * n)) v (rw (pow_bytes n) h))

pub int_to_bytes_fits : (n v : ℕ) → v < 256 ^ n → int_to_bytes n v ≡ ok (to_bytes n v)
unfolding int_to_bytes
int_to_bytes_fits n v h = rw (lt→leb (2 ^ (8 * n)) v (rw (pow_bytes n) h))

pub to_bytes-one : (v : ℕ) → v < 256 → to_bytes 1 v ≡ v ∷ []
unfolding to_bytes
to_bytes-one v h = ap (λ (k : ℕ). k ∷ []) {x = v % 256} {y = v} (omega arith)
