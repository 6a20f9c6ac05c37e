-- ===== src/Base58/RoundTrip.antt =====
-- `b58decode` reads what `b58encode` writes.
use native.Mathlib.Nat.{div-add-mod'}
use tal_cash.Base.{
  ==_iff, All, All-append_right, Bool, Bool-cases, Bytes, IsByte, IsBytes, List, [], ap, ap₂, arith,
  false, inl, inr, length, length-append, map, none, ok, refl, some, subst, suc, sym, true, zero, ℕ,
  ◌%◌, ◌&&◌, ◌*◌, ◌++◌, ◌+◌, ◌-◌, ◌/◌, ◌<◌, ◌==◌, ◌∙◌, ◌∷◌, ◌≡◌, ◌≢◌, ◌≤◌,
}
use tal_cash.Base.Digits.{
  digits, digits-from_digits, digits-small, digits_on, div_smaller, from_digits, from_digits-digits,
}
use tal_cash.Base58.{
  Text, alphabet, b58decode, b58encode, char_at, decode_number, index_of, lstrip, repeat,
}
use tal_cash.Base58.Octets.{to_bytes-bit_length}
use tal_cash.Encoding.{from_bytes, from_bytes_acc}

-- Every index is the index of its character.
is_index : ℕ → Bool
is_index i = elim (index_of (char_at alphabet i)) [ none ↦ false | some j ↦ j == i ]

all_below : ℕ → Bool
all_below zero = true
all_below (suc n) = is_index n && all_below n

all_below_at : (n i : ℕ) → all_below n ≡ true → i < n → is_index i ≡ true
unfolding all_below
all_below_at zero i h less = absurd (omega (arith, less))
all_below_at (suc n) i h less = ground (arith, all_below_at n i)

all_below_58 : all_below 58 ≡ true
unfolding all_below is_index index_of char_at
all_below_58 = refl

is_index_sound : (i : ℕ) → is_index i ≡ true → index_of (char_at alphabet i) ≡ some i
unfolding is_index
is_index_sound i h = ground arith

index_of-char_at : (i : ℕ) → i < 58 → index_of (char_at alphabet i) ≡ some i
index_of-char_at i less = is_index_sound i (all_below_at 58 i all_below_58 less)

-- Digits and their characters.
decode_number-map :
    (acc : ℕ) (ds : List ℕ)
    → All (λ d. d < 58) ds
    → decode_number acc (map (char_at alphabet) ds) ≡ ok (from_digits 58 acc ds)
unfolding decode_number from_digits
decode_number-map acc [] h = refl
decode_number-map acc (d ∷ ds) (small, h) =
    rw (decode_number, index_of-char_at d small) (decode_number-map (acc * 58 + d) ds h)

-- The leading '1's count for nothing.
pub decode_number-repeat :
    (n : ℕ) (text : Text) → decode_number 0 (repeat n b'1' ++ text) ≡ decode_number 0 text
unfolding decode_number repeat index_of
decode_number-repeat zero text = refl
decode_number-repeat (suc n) text = decode_number-repeat n text

-- Nothing to strip.
abbrev pub HasNoLead : ℕ → List ℕ → Type 0
HasNoLead x [] = Unit {0}
HasNoLead x (y ∷ ys) = y ≢ x

lstrip-repeat : (n x : ℕ) (ys : List ℕ) → HasNoLead x ys → lstrip x (repeat n x ++ ys) ≡ ys
unfolding lstrip repeat
lstrip-repeat zero x [] h = refl
lstrip-repeat zero x (y ∷ ys) h = ground arith
lstrip-repeat (suc n) x ys h = ground (arith, lstrip-repeat n x ys h)

pub length-repeat : (n x : ℕ) → length (repeat n x) ≡ n
unfolding repeat
length-repeat zero x = refl
length-repeat (suc n) x = omega (arith, length-repeat n x)

pub lead_count :
    (n x : ℕ) (ys : List ℕ)
    → HasNoLead x ys
    → length (repeat n x ++ ys) - length (lstrip x (repeat n x ++ ys)) ≡ n
lead_count n x ys h =
    omega
      (arith, length-append (repeat n x) ys, length-repeat n x, ap length (lstrip-repeat n x ys h))

-- A list is its leading items and the rest.
pub record Split (x : ℕ) (xs : List ℕ) : Type 0 where
  pub count : ℕ
  pub rest : List ℕ
  pub whole : xs ≡ repeat count x ++ rest
  pub lead : HasNoLead x rest

pub split : (x : ℕ) (xs : List ℕ) → Split x xs
unfolding repeat
split x [] = record { count = 0; rest = []; whole = refl; lead = tt }
split x (y ∷ ys) =
    let s = split x ys in
    elim (Bool-cases (y == x)) [
      | inl same ↦ record {
        count = suc s.count;
        rest = s.rest;
        whole = ap₂ (λ (a : ℕ) (xs : List ℕ). a ∷ xs) ((==_iff y x).0 same) s.whole;
        lead = s.lead;
      }
      | inr other ↦ record {
        count = 0;
        rest = y ∷ ys;
        whole = refl;
        lead = λ e. ground (arith, e, other);
      }
    ]

-- The first digit of a positive number is not 0.
module _ (b : ℕ) (large : 2 ≤ b) where
  digits_on-zero : (f : ℕ) → digits_on b f 0 ≡ []
  unfolding digits_on
  digits_on-zero zero = refl
  digits_on-zero (suc f) = refl

  last_digit : (n : ℕ) → 0 < n → n / b ≡ 0 → n % b ≢ 0
  last_digit n positive q r = omega (arith, div-add-mod' n b, ap (λ (x : ℕ). x * b) q, r, positive)

  first_digit :
      (f n : ℕ) → n ≤ f → 0 < n → (d : ℕ) × (ds : List ℕ) × (digits_on b f n ≡ d ∷ ds) × (d ≢ 0)
  unfolding digits_on
  first_digit f zero h positive = absurd (omega (arith, positive))
  first_digit zero (suc m) h positive = absurd (omega (arith, h))
  first_digit (suc f) (suc m) h positive = elim (Bool-cases (suc m / b == 0)) [
    | inl e ↦
        let q = (==_iff (suc m / b) 0).0 e in
        (suc m % b, [], rw (q, digits_on-zero f) refl, last_digit (suc m) positive q)
    | inr e ↦
        let (d, ds, p, ne) =
          first_digit f (suc m / b) (omega (arith, h, div_smaller b large m)) (ground (arith, e)) in
        (d, ds ++ (suc m % b) ∷ [], ap (λ (xs : List ℕ). xs ++ (suc m % b) ∷ []) p, ne)
  ]

  pub digits-HasNoLead : (n : ℕ) → HasNoLead 0 (digits b n)
  unfolding digits_on
  digits-HasNoLead zero = tt
  digits-HasNoLead (suc n) =
      let (d, ds, e, ne) = first_digit (suc n) (suc n) (omega arith) (omega arith) in
      subst (HasNoLead 0) (sym e) ne

pub from_bytes-from_digits : (acc : ℕ) (bs : Bytes) → from_bytes_acc acc bs ≡ from_digits 256 acc bs
unfolding from_bytes_acc from_digits
from_bytes-from_digits acc [] = refl
from_bytes-from_digits acc (b ∷ bs) = from_bytes-from_digits (acc * 256 + b) bs

from_digits-repeat :
    (n : ℕ) (bs : Bytes) → from_digits 256 0 (repeat n 0 ++ bs) ≡ from_digits 256 0 bs
unfolding from_digits repeat
from_digits-repeat zero bs = refl
from_digits-repeat (suc n) bs = from_digits-repeat n bs

-- A character is the first one of the alphabet only at index 0.
char_at-one : (d : ℕ) → d < 58 → d ≢ 0 → char_at alphabet d ≢ b'1'
unfolding index_of char_at
char_at-one d small ne e =
    let p : some d ≡ some 0 = sym (index_of-char_at d small) ∙ ap index_of e in ne (cc p)

map-HasNoLead :
    (ds : List ℕ)
    → All (λ d. d < 58) ds
    → HasNoLead 0 ds
    → HasNoLead b'1' (map (char_at alphabet) ds)
map-HasNoLead [] small h = tt
map-HasNoLead (d ∷ ds) (s, small) h = char_at-one d s h

pub positive_of : (n : ℕ) → n ≢ 0 → 0 < n
positive_of zero h = absurd (h refl)
positive_of (suc n) h = omega arith

-- Bytes without a leading 0 are the digits of their number.
digits-body :
    (body : Bytes) → IsBytes body → HasNoLead 0 body → digits 256 (from_digits 256 0 body) ≡ body
unfolding from_digits digits_on
digits-body [] valid h = refl
digits-body (b ∷ bs) valid h = digits-from_digits 256 (omega arith) b bs (positive_of b h) valid

-- Both numbers of leading items are right, and so is the number.
pub b58encode-layout :
    (s : Bytes) (n : ℕ) (body : Bytes)
    → HasNoLead 0 body
    → s ≡ repeat n 0 ++ body
    → b58encode s ≡ repeat n b'1' ++ map (char_at alphabet) (digits 58 (from_digits 256 0 body))
unfolding b58encode from_bytes
b58encode-layout s n body h e =
    rw
      (
        e,
        lead_count n 0 body h,
        from_bytes-from_digits 0 (repeat n 0 ++ body),
        from_digits-repeat n body,
      )
      refl

b58decode-layout :
    (n number : ℕ)
    → b58decode (repeat n b'1' ++ map (char_at alphabet) (digits 58 number))
      ≡ ok (repeat n 0 ++ digits 256 number)
unfolding b58decode
b58decode-layout n number =
    let small = digits-small 58 (omega arith) number in
    let text = map (char_at alphabet) (digits 58 number) in
    let lead = map-HasNoLead (digits 58 number) small (digits-HasNoLead 58 (omega arith) number) in
    rw
      (
        decode_number-repeat n text,
        decode_number-map 0 (digits 58 number) small,
        from_digits-digits 58 (omega arith) number,
        lead_count n b'1' text lead,
        to_bytes-bit_length number,
      )
      refl

-- b58decode reads the text that b58encode writes of a list of bytes as the same bytes.
pub b58decode-b58encode :
    (octets : Bytes) → IsBytes octets → b58decode (b58encode octets) ≡ ok octets
b58decode-b58encode octets valid =
    let s = split 0 octets in
    let body_valid =
      All-append_right IsByte (repeat s.count 0) s.rest (subst IsBytes s.whole valid) in
    rw (b58encode-layout octets s.count s.rest s.lead s.whole) (
      b58decode-layout s.count (from_digits 256 0 s.rest)
      ∙ ap (λ (bs : Bytes). ok (repeat s.count 0 ++ bs)) (digits-body s.rest body_valid s.lead)
      ∙ ap ok (sym s.whole))
