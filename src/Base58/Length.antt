-- ===== src/Base58/Length.antt =====
-- 25 bytes are at most 40 characters, the bound of `decode_address`.
use native.Mathlib.Nat.{pow-le-pow_right}
use tal_cash.Base.{
  All-append_right, Bool-cases, Bytes, IsByte, IsBytes, ap, arith, inl, inr, leb, length,
  length-append, length-map, map, subst, ℕ, ◌+◌, ◌<◌, ◌^◌, ◌≡◌, ◌≤◌,
}
use tal_cash.Base.Digits.{digits, from_digits, length-digits_le}
use tal_cash.Base58.{alphabet, b58encode, char_at, repeat}
use tal_cash.Base58.RoundTrip.{b58encode-layout, from_bytes-from_digits, length-repeat, split}
use tal_cash.Encoding.{from_bytes}
use tal_cash.Encoding.BigEndian.{from_bytes-lt}

-- With `z` leading zeros the number has `25 - z` bytes.
length-25 : (z k n : ℕ) → z + k ≡ 25 → n < 256 ^ k → z + length (digits 58 n) ≤ 40
length-25 z k n e h = elim (Bool-cases (leb z 5)) [
  | inl few ↦
      let up : 256 ^ k ≤ 256 ^ 25 = pow-le-pow_right (omega arith) {j = 25} (omega (arith, e)) in
      ground (arith, few, length-digits_le 58 (omega arith) 35 n (omega (arith, h, up)))
  | inr more ↦ elim (Bool-cases (leb z 14)) [
    | inl some_zeros ↦
        let up : 256 ^ k ≤ 256 ^ 19 =
          pow-le-pow_right (omega arith) {j = 19} (ground (arith, e, more)) in
        ground (arith, some_zeros, length-digits_le 58 (omega arith) 26 n (omega (arith, h, up)))
    | inr many ↦
        let up : 256 ^ k ≤ 256 ^ 10 =
          pow-le-pow_right (omega arith) {j = 10} (ground (arith, e, many)) in
        omega (arith, e, length-digits_le 58 (omega arith) 14 n (omega (arith, h, up)))
  ]
]

pub length-b58encode :
    (octets : Bytes) → IsBytes octets → length octets ≡ 25 → length (b58encode octets) ≤ 40
unfolding from_bytes
length-b58encode octets valid e =
    let s = split 0 octets in
    let body_valid =
      All-append_right IsByte (repeat s.count 0) s.rest (subst IsBytes s.whole valid) in
    let number = from_digits 256 0 s.rest in
    let below : number < 256 ^ length s.rest =
      rw (← from_bytes-from_digits 0 s.rest) (from_bytes-lt s.rest body_valid) in
    rw (b58encode-layout octets s.count s.rest s.lead s.whole) (
      omega (
        arith,
        length-append (repeat s.count b'1') (map (char_at alphabet) (digits 58 number)),
        length-repeat s.count b'1',
        length-map (char_at alphabet) (digits 58 number),
        length-25 s.count (length s.rest) number
            (omega (
              arith,
              e,
              ap length s.whole,
              length-append (repeat s.count 0) s.rest,
              length-repeat s.count 0,
            ))
            below,
      ))
