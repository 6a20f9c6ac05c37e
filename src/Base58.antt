-- ===== src/Base58.antt =====
-- crypto/base58.py. A text is the list of its code points; a character outside the alphabet raises
-- `ValueError`.
pub mod Octets
pub mod RoundTrip
pub mod Sound
pub mod Length
mod Examples
use Prim.Native.Char.{code}
use Prim.Native.String.{String}
use tal_cash.Base.{
  Bytes, List, Option, Result, [], bind, err, if◌then◌else◌, length, map, none, ok, some, suc,
  value_error, zero, ℕ, ◌*◌, ◌++◌, ◌+◌, ◌-◌, ◌/◌, ◌==◌, ◌∷◌,
}
use tal_cash.Base.Digits.{digits}
use tal_cash.Encoding.{from_bytes, to_bytes}

abbrev pub Text : Type 0
Text = List ℕ

-- The code points of an ASCII text.
abbrev pub codes : String → Text
codes String.[] = []
codes (String.◌∷◌ c s) = code c ∷ codes s

unfoldable pub alphabet : Text
alphabet = codes "123456789ABCDEFGHJKLMNPQRSTUVWXYZabcdefghijkmnopqrstuvwxyz"

-- `ALPHABET[i]`; a text of no characters is not indexed.
unfoldable pub char_at : Text → ℕ → ℕ
char_at [] i = 0
char_at (c ∷ cs) zero = c
char_at (c ∷ cs) (suc i) = char_at cs i

-- `_INDEX`
unfoldable pub index_from : ℕ → ℕ → Text → Option ℕ
index_from i char [] = none
index_from i char (c ∷ cs) = if c == char then some i else index_from (suc i) char cs

unfoldable pub index_of : ℕ → Option ℕ
unfolding alphabet index_from
index_of char = index_from 0 char alphabet

-- `data.lstrip(x)` for one byte or character.
unfoldable pub lstrip : ℕ → List ℕ → List ℕ
lstrip x [] = []
lstrip x (y ∷ ys) = if y == x then lstrip x ys else y ∷ ys

unfoldable pub repeat : ℕ → ℕ → List ℕ
repeat zero x = []
repeat (suc n) x = x ∷ repeat n x

unfoldable pub b58encode : Bytes → Text
b58encode octets =
    let number = from_bytes octets in
    let leading_zeros = length octets - length (lstrip 0 octets) in
    repeat leading_zeros b'1' ++ map (char_at alphabet) (digits 58 number)

-- The loop of `b58decode`.
unfoldable pub decode_number : ℕ → Text → Result ℕ
decode_number number [] = ok number
decode_number number (char ∷ text) = elim (index_of char) [
  | none ↦ err value_error
  | some i ↦ decode_number (number * 58 + i) text
]

-- `number.bit_length()`
abbrev pub bit_length : ℕ → ℕ
bit_length number = length (digits 2 number)

unfoldable pub b58decode : Text → Result Bytes
b58decode text = bind (decode_number 0 text) λ number.
    let leading_ones = length text - length (lstrip b'1' text) in
    let body = if number == 0 then [] else to_bytes ((bit_length number + 7) / 8) number in
    ok (repeat leading_ones 0 ++ body)
