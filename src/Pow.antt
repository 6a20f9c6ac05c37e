-- ===== src/Pow.antt =====
-- core/pow.py: the proof-of-work test and the search for a nonce.
pub mod Mining
mod Examples
use tal_cash.Base.{
  Bool, Bytes, Option, Result, bind, if◌then◌else◌, leb, length, none, ok, some, suc, take, zero, ℕ,
  ◌++◌, ◌+◌, ◌-◌, ◌^◌,
}
use tal_cash.Block.{BlockHeader, serialize_header}
use tal_cash.Crypto.{Crypto, PowParams}
use tal_cash.Encoding.{from_bytes, to_bytes}

abbrev pub nonce_size : ℕ
nonce_size = 8

module _ ⦃c : Crypto⦄ where
  unfoldable pub pow_hash_bytes : Bytes → PowParams → Bytes
  pow_hash_bytes header_bytes params = c.argon2id header_bytes params

  unfoldable pub pow_hash : BlockHeader → PowParams → Result Bytes
  pow_hash header params =
      bind (serialize_header header) λ octets. ok (pow_hash_bytes octets params)

  unfoldable pub meets_target : BlockHeader → PowParams → Result Bool
  meets_target header params =
      bind (pow_hash header params) λ digest. ok (leb (from_bytes digest) header.target)

  -- The loop of `mine`. `max_attempts` is the number of rounds left.
  unfoldable pub mine_loop : ℕ → Bytes → BlockHeader → PowParams → ℕ → ℕ → Option BlockHeader
  mine_loop zero prefix header params nonce stride = none
  mine_loop (suc attempts) prefix header params nonce stride =
      let rest = mine_loop attempts prefix header params (nonce + stride) stride in
      if leb (2 ^ 64) nonce
      then none
      else if leb (from_bytes (pow_hash_bytes (prefix ++ to_bytes nonce_size nonce) params))
          header.target
      then some (record header { nonce = nonce })
      else rest

  -- `mine` with `max_attempts` given.
  unfoldable pub mine : BlockHeader → PowParams → ℕ → ℕ → ℕ → Result (Option BlockHeader)
  mine header params start_nonce stride max_attempts = bind (serialize_header header) λ octets. ok (
      mine_loop max_attempts (take (length octets - nonce_size) octets) header params start_nonce
        stride)
