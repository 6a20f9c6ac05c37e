-- ===== src/Address/Examples.antt =====
-- The theorems about crypto/address.py at concrete texts, with the stand-in hash.
use tal_cash.Address.{
  checksum, decode_address, encode_address, encode_ascii, is_ascii, payload_of, starts_with,
}
use tal_cash.Address.RoundTrip.{decode_address-encode_address, encode_address-decode_address}
use tal_cash.Base.{
  Bytes, IsBytes, [], arith, bind, bytes_eq, err, ok, refl, true, value_error, ◌∷◌, ◌≡◌,
}
use tal_cash.Base.Digits.{digits_on}
use tal_cash.Base58.{
  Text, alphabet, b58decode, b58encode, char_at, codes, decode_number, index_of, lstrip, repeat,
}
use tal_cash.Crypto.{is_known_payload, zero_bytes}
use tal_cash.Encoding.{from_bytes, to_bytes}
use tal_cash.Toy.{get_ok, toy-Sha256Laws, toy_crypto, toy_sha256}

abbrev payload : Bytes
payload = 0 ∷ 7 ∷ zero_bytes 19

abbrev prefix : Text
prefix = codes "tr"

text : Text
unfolding encode_address checksum encode_ascii is_ascii b58encode from_bytes alphabet char_at
    digits_on lstrip repeat is_known_payload to_bytes toy_sha256
text = get_ok [] (encode_address payload prefix)

payload-IsBytes : IsBytes payload
payload-IsBytes = omega arith

prefix_ascii : is_ascii prefix ≡ true
unfolding is_ascii
prefix_ascii = refl

payload_known : is_known_payload payload ≡ true
unfolding is_known_payload
payload_known = refl

decode_address-encode_address_example :
    bind (encode_address payload prefix) (λ t. decode_address t prefix) ≡ ok payload
decode_address-encode_address_example =
    decode_address-encode_address payload prefix toy-Sha256Laws prefix_ascii payload-IsBytes
      payload_known

text_read : decode_address text prefix ≡ ok payload
unfolding text decode_address payload_of starts_with b58decode decode_number index_of bytes_eq
text_read = refl

encode_address-decode_address_example : encode_address payload prefix ≡ ok text
encode_address-decode_address_example = encode_address-decode_address text prefix payload text_read

-- A prefix that is not ASCII has no checksum.
other_letters_refused : encode_address payload (233 ∷ []) ≡ err value_error
unfolding encode_address checksum encode_ascii is_ascii is_known_payload
other_letters_refused = refl

-- One network's address is none of another.
other_prefix_refused : decode_address text (codes "tt") ≡ err value_error
unfolding text decode_address starts_with
other_prefix_refused = refl
