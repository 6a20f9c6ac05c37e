-- ===== src/Address/RoundTrip.antt =====
-- Text addresses: what `decode_address` accepts, and that it reads what `encode_address` writes.
use tal_cash.Address.{
  checksum, decode_address, encode_address, encode_ascii, is_ascii, payload_of, starts_with,
}
use tal_cash.Base.{
  All-append, All-append_left, Bool-cases, Bytes, IsByte, IsBytes, [], ap, ap₂, arith, bind,
  bind-eq-ok, bytes_eq_iff, drop, drop-length-append, false, inl, inr, length, length-append,
  length-take, ltb, ok, refl, subst, sym, take, take-append-drop, take-length-append, true, ℕ, ◌++◌,
  ◌+◌, ◌==◌, ◌∙◌, ◌∷◌, ◌≡◌,
}
use tal_cash.Base58.{Text, b58decode, b58encode}
use tal_cash.Base58.Length.{length-b58encode}
use tal_cash.Base58.RoundTrip.{b58decode-b58encode}
use tal_cash.Base58.Sound.{b58encode-b58decode}
use tal_cash.Crypto.{Crypto, Sha256Laws, checksum_size, is_known_payload, payload_size, sha256}

starts_with-split :
    (text prefix : Text)
    → starts_with text prefix ≡ true
    → text ≡ prefix ++ drop (length prefix) text
unfolding starts_with
starts_with-split text [] h = refl
starts_with-split [] (p ∷ prefix) h = cc
starts_with-split (c ∷ text) (p ∷ prefix) h =
    let rest = starts_with-split text prefix (ground arith) in
    let same : c ≡ p = ground arith in ap₂ (λ (x : ℕ) (xs : Text). x ∷ xs) same rest

starts_with-append : (prefix text : Text) → starts_with (prefix ++ text) prefix ≡ true
unfolding starts_with
starts_with-append [] text = refl
starts_with-append (p ∷ prefix) text = ground (arith, starts_with-append prefix text)

module _ ⦃c : Crypto⦄ where
  -- The checksum under a prefix of ASCII characters.
  abbrev ascii_checksum : Text → Bytes → Bytes
  ascii_checksum prefix payload = take checksum_size (sha256 (sha256 (prefix ++ payload)))

  checksum_ascii :
      (prefix : Text) (payload : Bytes)
      → is_ascii prefix ≡ true
      → checksum prefix payload ≡ ok (ascii_checksum prefix payload)
  unfolding checksum encode_ascii
  checksum_ascii prefix payload ascii = rw ascii refl

  -- What `payload_of` has tested when it returns.
  record Decoded (prefix : Text) (payload octets : Bytes) : Type 0 where
    sum : checksum prefix payload ≡ ok (drop payload_size octets)
    known : is_known_payload payload ≡ true
    first : take payload_size octets ≡ payload

  payload_of-Decoded :
      (prefix : Text) (payload octets : Bytes)
      → payload_of prefix octets ≡ ok payload
      → Decoded prefix payload octets
  unfolding payload_of
  payload_of-Decoded prefix payload octets e =
      let front = take payload_size octets in
      elim (Bool-cases (length octets == payload_size + checksum_size)) [
        | inr other ↦ cc (rw other at e)
        | inl size ↦
            let (sum, e₁, h₁) = bind-eq-ok (checksum prefix front) _ (rw size at e) in
            let same = bytes_eq_iff (drop payload_size octets) sum in
            let first : front ≡ payload = ground arith in
            let tested : drop payload_size octets ≡ sum = same.0 (ground arith) in
            record { sum = cc (e₁, first, tested); known = ground arith; first = first }
      ]

  -- If decode_address accepts a text, encode_address writes its payload, with the same prefix, as
  -- the same text: a payload has one text address.
  pub encode_address-decode_address :
      (text prefix : Text) (payload : Bytes)
      → decode_address text prefix ≡ ok payload
      → encode_address payload prefix ≡ ok text
  unfolding encode_address decode_address
  encode_address-decode_address text prefix payload e =
      let starts : starts_with text prefix ≡ true = ground arith in
      let (octets, read, tested) =
        bind-eq-ok (b58decode (drop (length prefix) text)) (payload_of prefix) (ground arith) in
      let d = payload_of-Decoded prefix payload octets tested in
      rw (d.known, d.sum)
        (ap ok (
          ap (λ (bs : Bytes). prefix ++ b58encode bs)
            (ap (λ (p : Bytes). p ++ drop payload_size octets) (sym d.first)
              ∙ take-append-drop payload_size octets)
          ∙ ap (λ (t : Text). prefix ++ t)
              (b58encode-b58decode (drop (length prefix) text) octets read)
          ∙ sym (starts_with-split text prefix starts)))

  length-ascii_checksum :
      (prefix : Text) (payload : Bytes) → Sha256Laws → length (ascii_checksum prefix payload) ≡ 4
  length-ascii_checksum prefix payload laws =
      let digest = sha256 (sha256 (prefix ++ payload)) in
      omega (arith, length-take 4 digest, laws.digest_size (sha256 (prefix ++ payload)))

  ascii_checksum-IsBytes :
      (prefix : Text) (payload : Bytes) → Sha256Laws → IsBytes (ascii_checksum prefix payload)
  ascii_checksum-IsBytes prefix payload laws =
      let digest = sha256 (sha256 (prefix ++ payload)) in
      All-append_left IsByte (take 4 digest) (drop 4 digest) (
        subst IsBytes (sym (take-append-drop 4 digest))
          (laws.digest_bytes (sha256 (prefix ++ payload))))

  payload_of-append :
      (prefix : Text) (payload sum : Bytes)
      → is_known_payload payload ≡ true
      → length payload ≡ 21
      → length sum ≡ 4
      → checksum prefix payload ≡ ok sum
      → payload_of prefix (payload ++ sum) ≡ ok payload
  unfolding payload_of
  payload_of-append prefix payload sum known size sum_size e =
      let front : take 21 (payload ++ sum) ≡ payload =
        ap (λ (n : ℕ). take n (payload ++ sum)) (sym size) ∙ take-length-append payload sum in
      let back : drop 21 (payload ++ sum) ≡ sum =
        ap (λ (n : ℕ). drop n (payload ++ sum)) (sym size) ∙ drop-length-append payload sum in
      rw (front, back, e) (ground (arith, length-append payload sum, (bytes_eq_iff sum sum).1 refl))

  known-size : (payload : Bytes) → is_known_payload payload ≡ true → length payload ≡ 21
  unfolding is_known_payload
  known-size [] h = cc
  known-size (v ∷ hash) h = ground arith

  -- If SHA-256 gives 32 bytes, then for a list of bytes that is a known payload, encode_address
  -- returns a text under any prefix of ASCII characters and decode_address with that prefix reads
  -- it as the same payload.
  pub decode_address-encode_address :
      (payload : Bytes) (prefix : Text)
      → Sha256Laws
      → is_ascii prefix ≡ true
      → IsBytes payload
      → is_known_payload payload ≡ true
      → bind (encode_address payload prefix) (λ text. decode_address text prefix) ≡ ok payload
  unfolding encode_address decode_address
  decode_address-encode_address payload prefix laws ascii valid known =
      let sum = ascii_checksum prefix payload in
      let summed = checksum_ascii prefix payload ascii in
      let size = known-size payload known in
      let sum_size = length-ascii_checksum prefix payload laws in
      let all_valid =
        All-append IsByte payload sum valid (ascii_checksum-IsBytes prefix payload laws) in
      let text = b58encode (payload ++ sum) in
      let short =
        length-b58encode (payload ++ sum) all_valid
          (omega (arith, length-append payload sum, size, sum_size)) in
      let fits : ltb (length prefix + 40) (length (prefix ++ text)) ≡ false =
        ground (arith, length-append prefix text, short) in
      rw
        (
          known,
          summed,
          starts_with-append prefix text,
          fits,
          drop-length-append prefix text,
          b58decode-b58encode (payload ++ sum) all_valid,
        )
        (payload_of-append prefix payload sum known size sum_size summed)
