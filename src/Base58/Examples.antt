-- ===== src/Base58/Examples.antt =====
-- Tests of crypto/base58.py and the theorems about it at concrete texts.
use tal_cash.Base.{Bytes, IsBytes, [], arith, err, ok, refl, value_error, ◌∷◌, ◌≡◌}
use tal_cash.Base.Digits.{digits_on}
use tal_cash.Base58.{
  alphabet, b58decode, b58encode, char_at, codes, decode_number, index_of, lstrip, repeat,
}
use tal_cash.Base58.RoundTrip.{b58decode-b58encode}
use tal_cash.Base58.Sound.{b58encode-b58decode}
use tal_cash.Encoding.{from_bytes, from_bytes_acc, to_bytes}

abbrev octets : Bytes
octets = 0 ∷ 0 ∷ 40 ∷ 127 ∷ 180 ∷ 205 ∷ []

-- The test vector of Bitcoin's base58.
encode_value : b58encode octets ≡ codes "11233QC4"
unfolding b58encode from_bytes alphabet char_at digits_on lstrip repeat from_bytes_acc
encode_value = refl

zero_refused : b58decode (codes "10") ≡ err value_error
unfolding b58decode decode_number index_of
zero_refused = refl

octets-IsBytes : IsBytes octets
octets-IsBytes = omega arith

b58decode-b58encode_example : b58decode (b58encode octets) ≡ ok octets
b58decode-b58encode_example = b58decode-b58encode octets octets-IsBytes

decode_value : b58decode (codes "11233QC4") ≡ ok octets
unfolding b58decode decode_number index_of repeat lstrip digits_on to_bytes
decode_value = refl

b58encode-b58decode_example : b58encode octets ≡ codes "11233QC4"
b58encode-b58decode_example = b58encode-b58decode (codes "11233QC4") octets decode_value
