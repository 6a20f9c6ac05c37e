-- ===== src/Amounts.antt =====
-- core/amounts.py: amounts as texts. A text is the list of its code points.
pub mod RoundTrip
mod Examples
use tal_cash.Base.{
  Bool, Option, Result, [], bind, err, if◌then◌else◌, leb, length, ltb, map, none, ok, raise_if,
  some, suc, value_error, zero, ℕ, ◌%◌, ◌&&◌, ◌*◌, ◌++◌, ◌+◌, ◌-◌, ◌/◌, ◌==◌, ◌||◌, ◌∷◌, ◌⨟◌,
}
use tal_cash.Base.Digits.{digits, from_digits}
use tal_cash.Base.Int.{negsuc, pos, ℤ}
use tal_cash.Base58.{Text, repeat}
use tal_cash.Params.{coin, decimals, max_amount}

-- `str.isspace` of one character, as `str.strip` uses it.
unfoldable pub is_space : ℕ → Bool
is_space c =
    (leb 9 c && leb c 13)
    || (leb 28 c && leb c 32)
    || (c == 133)
    || (c == 160)
    || (c == 5760)
    || (leb 8192 c && leb c 8202)
    || (c == 8232)
    || (c == 8233)
    || (c == 8239)
    || (c == 8287)
    || (c == 12288)

unfoldable pub drop_spaces : Text → Text
drop_spaces [] = []
drop_spaces (c ∷ text) = if is_space c then drop_spaces text else c ∷ text

unfoldable pub drop_last_spaces : Text → Text
drop_last_spaces [] = []
drop_last_spaces (c ∷ text) = elim (drop_last_spaces text) [
  | [] ↦ if is_space c then [] else c ∷ []
  | d ∷ rest ↦ c ∷ d ∷ rest
]

-- `text.strip()`
unfoldable pub strip : Text → Text
strip text = drop_last_spaces (drop_spaces text)

unfoldable pub is_digit : ℕ → Bool
is_digit c = leb b'0' c && leb c b'9'

-- `[0-9]*` from the front, and what follows.
unfoldable pub span_digits : Text → Text × Text
span_digits [] = ([], [])
span_digits (c ∷ text) =
    let rest = span_digits text in if is_digit c then (c ∷ rest.0, rest.1) else ([], c ∷ text)

-- The groups of `_AMOUNT_RE`; an absent second group is the empty text.
unfoldable pub match_fraction : Text → Text → Option (Text × Text)
match_fraction whole [] = some (whole, [])
match_fraction whole (c ∷ text) =
    let (frac, rest) = span_digits text in
    if c == b'.' && leb 1 (length frac) && leb (length frac) decimals && length rest == 0
    then some (whole, frac)
    else none

unfoldable pub match_amount : Text → Option (Text × Text)
match_amount text =
    let (whole, rest) = span_digits text in
    if leb 1 (length whole) then match_fraction whole rest else none

-- The limit on the digits that `int` reads.
abbrev pub max_str_digits : ℕ
max_str_digits = 4300

unfoldable pub digit_value : ℕ → ℕ
digit_value c = c - b'0'

-- `int(text)` of ASCII digits
unfoldable pub int_of : Text → Result ℕ
int_of text =
    if ltb max_str_digits (length text)
    then err value_error
    else ok (from_digits 10 0 (map digit_value text))

-- `text.ljust(size, "0")`
unfoldable pub ljust : ℕ → Text → Text
ljust size text = text ++ repeat (size - length text) b'0'

unfoldable pub parse_amount : Text → Result ℕ
parse_amount text = elim (match_amount (strip text)) [
  | none ↦ err value_error
  | some (whole, frac) ↦ bind (int_of whole) λ w.
      bind (int_of (ljust decimals frac))
        λ f. let units = w * coin + f in raise_if (ltb max_amount units) value_error ⨟ ok units
]

unfoldable pub digit_char : ℕ → ℕ
digit_char d = b'0' + d

-- `str(n)`
unfoldable pub decimal : ℕ → Text
decimal zero = b'0' ∷ []
decimal (suc n) = map digit_char (digits 10 (suc n))

-- `f"{n:0{size}d}"`
unfoldable pub padded : ℕ → ℕ → Text
padded size n = let text = decimal n in repeat (size - length text) b'0' ++ text

-- A character before a text that is stripped.
unfoldable pub strip_before : ℕ → Text → Text
strip_before c [] = if c == b'0' then [] else c ∷ []
strip_before c (d ∷ rest) = c ∷ d ∷ rest

-- `text.rstrip("0")`
unfoldable pub rstrip_zeros : Text → Text
rstrip_zeros [] = []
rstrip_zeros (c ∷ text) = strip_before c (rstrip_zeros text)

unfoldable pub join_fraction : Text → Text → Text
join_fraction whole [] = whole
join_fraction whole (c ∷ frac) = whole ++ b'.' ∷ c ∷ frac

-- `format_amount` of an amount that is not negative.
unfoldable pub format_units : ℕ → Bool → Text
format_units units fixed =
    let frac = padded decimals (units % coin) in
    join_fraction (decimal (units / coin)) (if fixed then frac else rstrip_zeros frac)

unfoldable pub format_amount : ℤ → Bool → Text
format_amount (pos units) fixed = format_units units fixed
format_amount (negsuc n) fixed = b'-' ∷ format_units (suc n) fixed
