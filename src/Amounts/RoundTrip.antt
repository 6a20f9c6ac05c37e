-- ===== src/Amounts/RoundTrip.antt =====
-- `parse_amount` reads what `format_amount` writes.
use tal_cash.Amounts.{
  decimal, digit_char, digit_value, drop_last_spaces, drop_spaces, format_amount, format_units,
  int_of, is_digit, is_space, join_fraction, ljust, match_amount, match_fraction, padded,
  parse_amount, rstrip_zeros, span_digits, strip, strip_before,
}
use tal_cash.Base.{
  ==_iff, All, All-append, All-append_left, Bool, Bool-cases, List, [], ap, append-nil, ap₂, arith,
  false, inl, inr, leb, length, length-append, length-map, ltb, map, ok, refl, some, subst, suc,
  sym, true, zero, ℕ, ◌%◌, ◌*◌, ◌++◌, ◌+◌, ◌-◌, ◌/◌, ◌<◌, ◌==◌, ◌^◌, ◌∙◌, ◌∷◌, ◌≡◌, ◌≤◌,
}
use tal_cash.Base.Digits.{
  digits, digits-small, digits_step, from_digits, from_digits-digits, length-digits_le,
}
use tal_cash.Base.Int.{pos}
use tal_cash.Base58.{Text, repeat}
use tal_cash.Base58.RoundTrip.{length-repeat}
use tal_cash.Params.{coin, max_amount}

-- A digit, or the point.
abbrev IsPlain : ℕ → Type 0
IsPlain c = is_space c ≡ false

abbrev IsDigit : ℕ → Type 0
IsDigit c = (b'0' ≤ c) × (c ≤ b'9')

IsDigit-IsPlain : (c : ℕ) → IsDigit c → IsPlain c
unfolding is_space
IsDigit-IsPlain c h = ground arith

drop_spaces_plain : (text : Text) → All IsPlain text → drop_spaces text ≡ text
unfolding drop_spaces
drop_spaces_plain [] h = refl
drop_spaces_plain (c ∷ text) (plain, h) = rw plain refl

drop_last_spaces_plain : (text : Text) → All IsPlain text → drop_last_spaces text ≡ text
unfolding drop_last_spaces
drop_last_spaces_plain [] h = refl
drop_last_spaces_plain (c ∷ []) (plain, h) = rw plain refl
drop_last_spaces_plain (c ∷ d ∷ text) (plain, h) = rw (drop_last_spaces_plain (d ∷ text) h) refl

strip_plain : (text : Text) → All IsPlain text → strip text ≡ text
unfolding strip
strip_plain text h = rw (drop_spaces_plain text h) (drop_last_spaces_plain text h)

-- A text that does not go on with a digit.
abbrev EndsDigits : Text → Type 0
EndsDigits [] = Unit {0}
EndsDigits (c ∷ _) = is_digit c ≡ false

is_digit_of : (c : ℕ) → IsDigit c → is_digit c ≡ true
unfolding is_digit
is_digit_of c h = ground arith

span_digits_append :
    (ds rest : Text) → All IsDigit ds → EndsDigits rest → span_digits (ds ++ rest) ≡ (ds, rest)
unfolding span_digits
span_digits_append [] [] h e = refl
span_digits_append [] (c ∷ rest) h e = rw e refl
span_digits_append (d ∷ ds) rest (digit, h) e =
    let yes : is_digit d ≡ true = is_digit_of d digit in
    rw (yes, span_digits_append ds rest h e) refl

digit_value-char : (ds : List ℕ) → map digit_value (map digit_char ds) ≡ ds
unfolding digit_value digit_char
digit_value-char [] = refl
digit_value-char (d ∷ ds) =
    ap₂ (λ (x : ℕ) (xs : List ℕ). x ∷ xs) (omega arith) (digit_value-char ds)

digits-IsDigit : (ds : List ℕ) → All (λ d. d < 10) ds → All IsDigit (map digit_char ds)
unfolding digit_char
digits-IsDigit [] h = tt
digits-IsDigit (d ∷ ds) (small, h) = (omega (arith, small), digits-IsDigit ds h)

decimal-IsDigit : (n : ℕ) → All IsDigit (decimal n)
unfolding decimal
decimal-IsDigit zero = omega arith
decimal-IsDigit (suc n) = digits-IsDigit (digits 10 (suc n)) (digits-small 10 (omega arith) (suc n))

decimal_value : (n : ℕ) → from_digits 10 0 (map digit_value (decimal n)) ≡ n
unfolding decimal from_digits digit_value
decimal_value zero = refl
decimal_value (suc n) =
    rw (digit_value-char (digits 10 (suc n))) (from_digits-digits 10 (omega arith) (suc n))

-- The texts of numbers below a power of ten are short.
length-decimal : (k n : ℕ) → n < 10 ^ suc k → length (decimal n) ≤ suc k
unfolding decimal
length-decimal k zero h = omega arith
length-decimal k (suc n) h = omega (
  arith,
  length-map digit_char (digits 10 (suc n)),
  length-digits_le 10 (omega arith) (suc k) (suc n) h,
)

strip_before-split :
    (c : ℕ) (r : Text) (k : ℕ)
    → (j : ℕ) × (c ∷ r ++ repeat k b'0' ≡ strip_before c r ++ repeat j b'0')
unfolding strip_before repeat
strip_before-split c [] k = elim (Bool-cases (c == b'0')) [
  | inl e ↦ (suc k, rw e (ap (λ (x : ℕ). x ∷ repeat k b'0') ((==_iff c b'0').0 e)))
  | inr e ↦ (k, rw e refl)
]
strip_before-split c (d ∷ rest) k = (k, refl)

-- What `rstrip` takes off is zeros.
rstrip_zeros-split : (text : Text) → (k : ℕ) × (text ≡ rstrip_zeros text ++ repeat k b'0')
unfolding rstrip_zeros repeat
rstrip_zeros-split [] = (0, refl)
rstrip_zeros-split (c ∷ text) =
    let (k, e) = rstrip_zeros-split text in
    let (j, q) = strip_before-split c (rstrip_zeros text) k in (j, ap (λ (t : Text). c ∷ t) e ∙ q)

-- `ljust` restores the zeros that `rstrip` took.
ljust-rstrip_zeros : (text : Text) → ljust (length text) (rstrip_zeros text) ≡ text
unfolding ljust
ljust-rstrip_zeros text =
    let (k, e) = rstrip_zeros-split text in
    let count : length text - length (rstrip_zeros text) ≡ k = omega (
      arith,
      ap length e,
      length-append (rstrip_zeros text) (repeat k b'0'),
      length-repeat k b'0',
    ) in
    ap (λ (n : ℕ). rstrip_zeros text ++ repeat n b'0') count ∙ sym e

rstrip_zeros-IsDigit : (text : Text) → All IsDigit text → All IsDigit (rstrip_zeros text)
rstrip_zeros-IsDigit text h =
    let (k, e) = rstrip_zeros-split text in
    All-append_left IsDigit (rstrip_zeros text) (repeat k b'0') (subst (All IsDigit) e h)

repeat-IsDigit : (n : ℕ) → All IsDigit (repeat n b'0')
unfolding repeat
repeat-IsDigit zero = tt
repeat-IsDigit (suc n) = (omega arith, repeat-IsDigit n)

-- `f"{n:0{size}d}"` of a number that fits.
padded-IsDigit : (size n : ℕ) → All IsDigit (padded size n)
unfolding padded
padded-IsDigit size n =
    let zeros = size - length (decimal n) in
    All-append IsDigit (repeat zeros b'0') (decimal n) (repeat-IsDigit zeros) (decimal-IsDigit n)

length-padded : (k n : ℕ) → n < 10 ^ suc k → length (padded (suc k) n) ≡ suc k
unfolding padded
length-padded k n h =
    let zeros = suc k - length (decimal n) in
    omega (
      arith,
      length-append (repeat zeros b'0') (decimal n),
      length-repeat zeros b'0',
      length-decimal k n h,
    )

zeros_value :
    (n : ℕ) (text : Text)
    → from_digits 10 0 (map digit_value (repeat n b'0' ++ text))
      ≡ from_digits 10 0 (map digit_value text)
unfolding from_digits digit_value repeat
zeros_value zero text = refl
zeros_value (suc n) text = zeros_value n text

padded_value : (size n : ℕ) → from_digits 10 0 (map digit_value (padded size n)) ≡ n
unfolding padded
padded_value size n = zeros_value (size - length (decimal n)) (decimal n) ∙ decimal_value n

int_of_short :
    (text : Text) (n : ℕ)
    → length text ≤ 20
    → from_digits 10 0 (map digit_value text) ≡ n
    → int_of text ≡ ok n
unfolding int_of
int_of_short text n short e =
    let fits : ltb 4300 (length text) ≡ false = ground arith in rw fits (ap ok e)

All-IsPlain : (text : Text) → All IsDigit text → All IsPlain text
All-IsPlain [] h = tt
All-IsPlain (c ∷ text) (d, h) = (IsDigit-IsPlain c d, All-IsPlain text h)

join_fraction-IsPlain :
    (whole frac : Text)
    → All IsDigit whole
    → All IsDigit frac
    → All IsPlain (join_fraction whole frac)
unfolding join_fraction is_space
join_fraction-IsPlain whole [] w f = All-IsPlain whole w
join_fraction-IsPlain whole (c ∷ frac) w f =
    All-append IsPlain whole (b'.' ∷ c ∷ frac) (All-IsPlain whole w)
      (refl, All-IsPlain (c ∷ frac) f)

some_digit : (n : ℕ) → 1 ≤ length (decimal n)
unfolding decimal
some_digit zero = omega arith
some_digit (suc n) = omega (
  arith,
  length-map digit_char (digits 10 (suc n)),
  ap length (digits_step 10 (omega arith) (suc n) (omega arith)),
  length-append (digits 10 (suc n / 10)) (suc n % 10 ∷ []),
)

match_amount-join :
    (whole frac : Text)
    → 1 ≤ length whole
    → length frac ≤ 6
    → All IsDigit whole
    → All IsDigit frac
    → match_amount (join_fraction whole frac) ≡ some (whole, frac)
unfolding match_amount match_fraction join_fraction is_digit
match_amount-join whole [] one_digit few w f =
    let all : span_digits whole ≡ (whole, []) =
      ap span_digits (sym (append-nil whole)) ∙ span_digits_append whole [] w tt in
    let yes : leb 1 (length whole) ≡ true = ground arith in rw (all, yes) refl
match_amount-join whole (c ∷ frac) one_digit few w f =
    let all = span_digits_append whole (b'.' ∷ c ∷ frac) w refl in
    let rest : span_digits (c ∷ frac) ≡ (c ∷ frac, []) =
      ap span_digits (sym (append-nil (c ∷ frac))) ∙ span_digits_append (c ∷ frac) [] f tt in
    let yes : leb 1 (length whole) ≡ true = ground arith in
    let many : leb 1 (length (c ∷ frac)) ≡ true = ground arith in
    let fits : leb (length (c ∷ frac)) 6 ≡ true = ground arith in
    rw (all, yes, match_fraction, rest, many, fits)
      (ap (λ (r : Text × Text). some (r.0, c ∷ frac)) all)

-- The fraction that `format_amount` writes, and what `parse_amount` makes of it.
record IsFraction (frac : Text) (value : ℕ) : Type 0 where
  few : length frac ≤ 6
  valid : All IsDigit frac
  read : int_of (ljust 6 frac) ≡ ok value

padded-IsFraction : (n : ℕ) → n < coin → IsFraction (padded 6 n) n
unfolding ljust repeat
padded-IsFraction n h =
    let size = length-padded 5 n h in
    record {
      few = omega (arith, size);
      valid = padded-IsDigit 6 n;
      read =
          rw (size, append-nil (padded 6 n))
            (int_of_short (padded 6 n) n (omega (arith, size)) (padded_value 6 n));
    }

stripped-IsFraction : (n : ℕ) → n < coin → IsFraction (rstrip_zeros (padded 6 n)) n
stripped-IsFraction n h =
    let size = length-padded 5 n h in
    let (k, e) = rstrip_zeros-split (padded 6 n) in
    record {
      few =
          omega
            (arith, size, ap length e, length-append (rstrip_zeros (padded 6 n)) (repeat k b'0'));
      valid = rstrip_zeros-IsDigit (padded 6 n) (padded-IsDigit 6 n);
      read =
          subst (λ m. int_of (ljust m (rstrip_zeros (padded 6 n))) ≡ ok n) size
            (rw (ljust-rstrip_zeros (padded 6 n))
              (int_of_short (padded 6 n) n (omega (arith, size)) (padded_value 6 n)));
    }

parse_join :
    (whole frac : ℕ) (text : Text)
    → IsFraction text frac
    → whole * coin + frac ≤ max_amount
    → parse_amount (join_fraction (decimal whole) text) ≡ ok (whole * coin + frac)
unfolding parse_amount
parse_join whole frac text f h =
    let digits_whole = decimal-IsDigit whole in
    let short = length-decimal 18 whole (omega (arith, h)) in
    rw
      (
        parse_amount,
        strip_plain (join_fraction (decimal whole) text)
            (join_fraction-IsPlain (decimal whole) text digits_whole f.valid),
        match_amount-join (decimal whole) text (some_digit whole) f.few digits_whole f.valid,
        int_of_short (decimal whole) whole (omega (arith, short)) (decimal_value whole),
        f.read,
      )
      (ground (arith, h))

-- parse_amount reads what format_amount writes of an amount from 0 to MAX_AMOUNT, with all decimals
-- or without trailing zeros, as the same amount.
pub parse_amount-format_amount :
    (units : ℕ) (fixed : Bool)
    → units ≤ max_amount
    → parse_amount (format_amount (pos units) fixed) ≡ ok units
unfolding format_amount format_units
parse_amount-format_amount units true h =
    parse_join (units / coin) (units % coin) (padded 6 (units % coin))
      (padded-IsFraction (units % coin) (omega arith)) (omega (arith, h))
    ∙ ap ok {x = units / coin * coin + units % coin} {y = units} (omega arith)
parse_amount-format_amount units false h =
    parse_join (units / coin) (units % coin) (rstrip_zeros (padded 6 (units % coin)))
      (stripped-IsFraction (units % coin) (omega arith)) (omega (arith, h))
    ∙ ap ok {x = units / coin * coin + units % coin} {y = units} (omega arith)
