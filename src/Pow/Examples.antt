-- ===== src/Pow/Examples.antt =====
-- Tests of core/pow.py and its theorem at a concrete header.
use tal_cash.Base.{arith, false, none, ok, refl, some, true, ℕ, ◌*◌, ◌+◌, ◌<◌, ◌^◌, ◌≡◌, ◌⊎◌}
use tal_cash.Block.{BlockHeader, serialize_header}
use tal_cash.Block.Layout.{FitsHeader}
use tal_cash.Crypto.{PowParams, zero_bytes}
use tal_cash.Encoding.{
  append_part, from_bytes, get_value, to_bytes, uint_bytes, write_fixed, write_uint, written,
}
use tal_cash.Pow.{meets_target, mine, mine_loop, pow_hash_bytes}
use tal_cash.Pow.Mining.{mine_cases}
use tal_cash.Toy.{toy_argon2id, toy_crypto}

-- With the stand-in hash, a header wins when its bytes, read as a number, leave at most 2 modulo 1000.
abbrev easy_header : BlockHeader
easy_header = record {
  version = 1;
  height = 5;
  prev_id = zero_bytes 32;
  merkle_root = zero_bytes 32;
  snapshot_root = zero_bytes 32;
  timestamp = 1_767_225_700;
  target = 2;
  nonce = 0;
}

abbrev pow_params : PowParams
pow_params = record { memory_kib = 8; iterations = 1; salt = zero_bytes 16 }

easy_header-Fits : FitsHeader easy_header
easy_header-Fits = record {
  version = omega arith;
  height = omega arith;
  prev_id = refl;
  merkle_root = refl;
  snapshot_root = refl;
  timestamp = omega arith;
  target = omega arith;
  nonce = omega arith;
  prev_bytes = omega arith;
  merkle_bytes = omega arith;
  snapshot_bytes = omega arith;
}

mine_result : mine easy_header pow_params 0 138 20 ≡ ok (some (record easy_header { nonce = 552 }))
unfolding mine mine_loop pow_hash_bytes serialize_header written write_uint uint_bytes append_part
    write_fixed to_bytes from_bytes toy_argon2id get_value
mine_result = refl

mine_cases_example :
    ((i : ℕ) × (i < 20)
      × (mine easy_header pow_params 0 138 20
          ≡ ok (some (record easy_header { nonce = 0 + i * 138 })))
      × (meets_target (record easy_header { nonce = 0 + i * 138 }) pow_params ≡ ok true)
      × ((j : ℕ)
          → j < i
          → meets_target (record easy_header { nonce = 0 + j * 138 }) pow_params ≡ ok false))
    ⊎ ((mine easy_header pow_params 0 138 20 ≡ ok none)
        × ((j : ℕ)
            → j < 20
            → 0 + j * 138 < 2 ^ 64
            → meets_target (record easy_header { nonce = 0 + j * 138 }) pow_params ≡ ok false))
mine_cases_example = mine_cases easy_header pow_params 0 138 20 easy_header-Fits
