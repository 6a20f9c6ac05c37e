-- ===== src/Toy.antt =====
-- Stand-ins for the code that is not in the repository, for tests: a digest that is the number that the
-- bytes stand for, in 32 bytes, and signatures that any key accepts.
use tal_cash.Base.{
  Bool, Bytes, IsBytes, Result, [], arith, err, ltb, ok, refl, true, ◌%◌, ◌&&◌, ◌∷◌, ◌≡◌,
}
use tal_cash.Crypto.{Crypto, Ed25519Laws, PowParams, Sha256Laws, zero_bytes}
use tal_cash.Encoding.{from_bytes, to_bytes}
use tal_cash.Encoding.BigEndian.{length-to_bytes, to_bytes-IsBytes}

unfoldable pub toy_sha256 : Bytes → Bytes
unfolding to_bytes from_bytes
toy_sha256 m = to_bytes 32 (from_bytes m)

unfoldable pub toy_argon2id : Bytes → PowParams → Bytes
unfolding to_bytes from_bytes
toy_argon2id m _ = to_bytes 32 (from_bytes m % 1000)

instance abbrev pub toy_crypto : Crypto
toy_crypto = record {
  sha256 = toy_sha256;
  public_key = λ _. zero_bytes 32;
  sign = λ _ _. zero_bytes 64;
  verify_signature = λ _ _ _. true;
  argon2id = toy_argon2id;
}

pub toy-Sha256Laws : Sha256Laws
unfolding toy_sha256
toy-Sha256Laws = record {
  digest_size = λ m. length-to_bytes 32 (from_bytes m);
  digest_bytes = λ m. to_bytes-IsBytes 32 (from_bytes m);
}

pub toy-Ed25519Laws : Ed25519Laws
toy-Ed25519Laws = record {
  key_size = λ _ _. refl;
  signature_size = λ _ _ _. refl;
  verifies = λ _ _ _. refl;
}

-- The value of a run that succeeds.
abbrev pub get_ok {ℓ} : {A : Type ℓ} → A → Result A → A
get_ok a (ok b) = b
get_ok a (err e) = a

-- A test of `IsBytes`.
unfoldable pub is_bytes : Bytes → Bool
is_bytes [] = true
is_bytes (b ∷ bs) = ltb b 256 && is_bytes bs

pub is_bytes-IsBytes : (bs : Bytes) → is_bytes bs ≡ true → IsBytes bs
unfolding is_bytes
is_bytes-IsBytes [] h = tt
is_bytes-IsBytes (b ∷ bs) h = ground (arith, is_bytes-IsBytes bs)
