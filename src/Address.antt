-- ===== src/Address.antt =====
-- crypto/address.py: text addresses. A text is a list of code points.
pub mod RoundTrip
mod Examples
use tal_cash.Base.{
  Bool, Bytes, Result, [], bind, bytes_eq, drop, err, false, length, ltb, not, ok, raise_if, take,
  true, value_error, ℕ, ◌&&◌, ◌++◌, ◌+◌, ◌==◌, ◌∷◌, ◌⨟◌,
}
use tal_cash.Base58.{Text, b58decode, b58encode}
use tal_cash.Crypto.{Crypto, checksum_size, is_known_payload, payload_size, sha256}

abbrev pub max_base58_length : ℕ
max_base58_length = 40

-- `text.startswith(prefix)`
unfoldable pub starts_with : Text → Text → Bool
starts_with text [] = true
starts_with [] (p ∷ prefix) = false
starts_with (c ∷ text) (p ∷ prefix) = c == p && starts_with text prefix

unfoldable pub is_ascii : Text → Bool
is_ascii [] = true
is_ascii (x ∷ text) = ltb x 128 && is_ascii text

-- `text.encode("ascii")`; its `UnicodeEncodeError` is a `ValueError`.
unfoldable pub encode_ascii : Text → Result Bytes
encode_ascii text = raise_if (not (is_ascii text)) value_error ⨟ ok text

module _ ⦃c : Crypto⦄ where
  -- `_checksum`
  unfoldable pub checksum : Text → Bytes → Result Bytes
  checksum prefix payload =
      bind (encode_ascii prefix)
        λ octets. ok (take checksum_size (sha256 (sha256 (octets ++ payload))))

  unfoldable pub encode_address : Bytes → Text → Result Text
  encode_address payload prefix =
      raise_if (not (is_known_payload payload)) value_error
      ⨟ bind (checksum prefix payload) λ sum. ok (prefix ++ b58encode (payload ++ sum))

  -- `decode_address` from the test of `len(raw)` on.
  unfoldable pub payload_of : Text → Bytes → Result Bytes
  payload_of prefix octets =
      raise_if (not (length octets == payload_size + checksum_size)) value_error
      ⨟ bind (checksum prefix (take payload_size octets)) λ sum.
        raise_if (not (bytes_eq (drop payload_size octets) sum)) value_error
        ⨟ raise_if (not (is_known_payload (take payload_size octets))) value_error
        ⨟ ok (take payload_size octets)

  unfoldable pub decode_address : Text → Text → Result Bytes
  decode_address text prefix =
      raise_if (not (starts_with text prefix)) value_error
      ⨟ raise_if (ltb (length prefix + max_base58_length) (length text)) value_error
      ⨟ bind (b58decode (drop (length prefix) text)) (payload_of prefix)

  -- `except ValueError` catches every error of `decode_address`.
  unfoldable pub is_valid_address : Text → Text → Bool
  is_valid_address text prefix = elim (decode_address text prefix) [ ok _ ↦ true | err _ ↦ false ]
