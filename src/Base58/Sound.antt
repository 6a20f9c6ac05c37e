-- ===== src/Base58/Sound.antt =====
-- A text that `b58decode` accepts is the one that `b58encode` writes.
use tal_cash.Base.{
  All, Bool-cases, Bytes, List, Option-cases, [], ap, ap₂, arith, bind-eq-ok, if◌then◌else◌, inl,
  inr, length, map, ok, refl, some, subst, suc, sym, ℕ, ◌*◌, ◌++◌, ◌+◌, ◌-◌, ◌/◌, ◌<◌, ◌==◌, ◌∙◌,
  ◌∷◌, ◌≡◌,
}
use tal_cash.Base.Digits.{digits, digits-from_digits, digits_on, from_digits, from_digits-digits}
use tal_cash.Base58.{
  Text, alphabet, b58decode, b58encode, bit_length, char_at, decode_number, index_from, index_of,
  lstrip, repeat,
}
use tal_cash.Base58.Octets.{to_bytes-bit_length}
use tal_cash.Base58.RoundTrip.{
  HasNoLead, b58encode-layout, decode_number-repeat, digits-HasNoLead, lead_count, positive_of,
  split,
}
use tal_cash.Encoding.{to_bytes, written}

index_from_sound :
    (i char : ℕ) (cs : Text) (j : ℕ)
    → index_from i char cs ≡ some j
    → (k : ℕ) × (j ≡ i + k) × (k < length cs) × (char ≡ char_at cs k)
unfolding index_from char_at
index_from_sound i char [] j e = cc
index_from_sound i char (c ∷ cs) j e = elim (Bool-cases (c == char)) [
  | inl same ↦ (0, ground arith, omega arith, ground arith)
  | inr other ↦
      let (k, p, less, q) = index_from_sound (suc i) char cs j (ground arith) in
      (suc k, omega (arith, p), omega (arith, less), q)
]

index_of_sound : (char j : ℕ) → index_of char ≡ some j → (j < 58) × (char ≡ char_at alphabet j)
unfolding index_of alphabet
index_of_sound char j e =
    let (k, p, less, q) = index_from_sound 0 char alphabet j e in
    let same : k ≡ j = omega (arith, p) in (omega (arith, less, p), q ∙ ap (char_at alphabet) same)

-- The digits that `decode_number` reads.
record Read (acc number : ℕ) (text : Text) : Type 0 where
  read : List ℕ
  spelled : text ≡ map (char_at alphabet) read
  small : All (λ d. d < 58) read
  value : number ≡ from_digits 58 acc read

decode_number-Read :
    (acc number : ℕ) (text : Text) → decode_number acc text ≡ ok number → Read acc number text
unfolding decode_number from_digits
decode_number-Read acc number [] e = record { read = []; spelled = refl; small = tt; value = cc e }
decode_number-Read acc number (char ∷ text) e = elim (Option-cases (index_of char)) [
  | inl missing ↦ cc (rw (decode_number, missing) at e)
  | inr (i, found) ↦
      let r = decode_number-Read (acc * 58 + i) number text (rw (decode_number, found) at e) in
      let (small, same) = index_of_sound char i found in
      record {
        read = i ∷ r.read;
        spelled = ap₂ (λ (c : ℕ) (cs : Text). c ∷ cs) same r.spelled;
        small = (small, r.small);
        value = r.value;
      }
]

digits-read :
    (ds : List ℕ) → All (λ d. d < 58) ds → HasNoLead 0 ds → digits 58 (from_digits 58 0 ds) ≡ ds
unfolding from_digits digits_on
digits-read [] small h = refl
digits-read (d ∷ ds) small h = digits-from_digits 58 (omega arith) d ds (positive_of d h) small

HasNoLead-read : (ds : List ℕ) → HasNoLead b'1' (map (char_at alphabet) ds) → HasNoLead 0 ds
unfolding char_at alphabet
HasNoLead-read [] h = tt
HasNoLead-read (d ∷ ds) h = λ e. h (ap (char_at alphabet) e)

decoded :
    (ones n number : ℕ) (octets : Bytes)
    → ones ≡ n
    → ok (
        repeat ones 0
        ++ (if number == 0 then [] else to_bytes ((bit_length number + 7) / 8) number))
      ≡ ok octets
    → octets ≡ repeat n 0 ++ digits 256 number
decoded ones n number octets e written = cc (written, e, to_bytes-bit_length number)

-- If b58decode accepts a text, b58encode writes the bytes as the same text.
pub b58encode-b58decode :
    (text : Text) (octets : Bytes) → b58decode text ≡ ok octets → b58encode octets ≡ text
unfolding b58decode
b58encode-b58decode text octets e =
    let s = split b'1' text in
    let (number, numbered, written) = bind-eq-ok (decode_number 0 text) _ e in
    let r =
      decode_number-Read 0 number s.rest (
        sym (decode_number-repeat s.count s.rest)
        ∙ ap (decode_number 0) (sym s.whole)
        ∙ numbered) in
    let lead = HasNoLead-read r.read (subst (HasNoLead b'1') r.spelled s.lead) in
    let same = ap (digits 58) r.value ∙ digits-read r.read r.small lead in
    let result : octets ≡ repeat s.count 0 ++ digits 256 number =
      decoded (length text - length (lstrip b'1' text)) s.count number octets
        (ap (λ (t : Text). length t - length (lstrip b'1' t)) s.whole
          ∙ lead_count s.count b'1' s.rest s.lead)
        written in
    b58encode-layout octets s.count (digits 256 number) (digits-HasNoLead 256 (omega arith) number)
      result
    ∙ ap (λ (n : ℕ). repeat s.count b'1' ++ map (char_at alphabet) (digits 58 n))
        (from_digits-digits 256 (omega arith) number)
    ∙ ap (λ (ds : List ℕ). repeat s.count b'1' ++ map (char_at alphabet) ds) same
    ∙ ap (λ (t : Text). repeat s.count b'1' ++ t) (sym r.spelled)
    ∙ sym s.whole
