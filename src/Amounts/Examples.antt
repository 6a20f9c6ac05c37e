-- ===== src/Amounts/Examples.antt =====
-- Tests of core/amounts.py and its theorem at a concrete amount.
use tal_cash.Amounts.{
  decimal, digit_char, digit_value, drop_last_spaces, drop_spaces, format_amount, format_units,
  int_of, is_digit, is_space, join_fraction, ljust, match_amount, match_fraction, padded,
  parse_amount, rstrip_zeros, span_digits, strip, strip_before,
}
use tal_cash.Amounts.RoundTrip.{parse_amount-format_amount}
use tal_cash.Base.{arith, err, false, ok, refl, true, value_error, ◌≡◌}
use tal_cash.Base.Digits.{digits_on, from_digits}
use tal_cash.Base.Int.{negsuc, pos}
use tal_cash.Base58.{codes, repeat}
use tal_cash.Toy.{toy_crypto}

format_values :
    (format_amount (pos 12_500_000) false ≡ codes "12.5")
    × (format_amount (pos 12_500_000) true ≡ codes "12.500000")
    × (format_amount (negsuc 999_999) false ≡ codes "-1")
unfolding format_amount format_units padded decimal digits_on rstrip_zeros strip_before
    join_fraction repeat digit_char
format_values = (refl, refl, refl)

parse_values :
    (parse_amount (codes " 12.5 ") ≡ ok 12_500_000)
    × (parse_amount (codes "1.2345678") ≡ err value_error)
    × (parse_amount (codes "-1") ≡ err value_error)
    × (parse_amount (codes "9223372036854.775808") ≡ err value_error)
unfolding parse_amount strip drop_spaces drop_last_spaces is_space match_amount match_fraction
    span_digits is_digit int_of digit_value ljust repeat from_digits
parse_values = (refl, refl, refl, refl)

parse_amount-format_amount_example :
    parse_amount (format_amount (pos 12_500_000) false) ≡ ok 12_500_000
parse_amount-format_amount_example = parse_amount-format_amount 12_500_000 false (omega arith)
