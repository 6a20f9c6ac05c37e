-- ===== src/Crypto.antt =====
-- crypto/keys.py and the binary part of crypto/address.py. hashlib, libsodium and Argon2 are not
-- in the repository: `Crypto` takes what the code calls of them as a parameter.
use tal_cash.Base.{
  Bool, Bytes, IsBytes, [], arith, false, if◌then◌else◌, length, length-take, not, suc, take, true,
  zero, ℕ, ◌&&◌, ◌==◌, ◌||◌, ◌∷◌, ◌≡◌,
}

-- core/params.py, `PowParams`
pub record PowParams : Type 0 where
  pub memory_kib : ℕ
  pub iterations : ℕ
  pub salt : Bytes

pub record Crypto : Type 0 where
  -- `hashlib.sha256(data).digest()`
  pub sha256 : Bytes → Bytes
  -- `bytes(SigningKey(private_key).verify_key)`
  pub public_key : Bytes → Bytes
  -- `SigningKey(private_key).sign(message).signature`
  pub sign : Bytes → Bytes → Bytes
  -- `VerifyKey(public_key).verify(message, signature)` returns, and does not raise
  pub verify_signature : Bytes → Bytes → Bytes → Bool
  -- `pwhash.argon2id.kdf(32, header_bytes, salt, ...)`
  pub argon2id : Bytes → PowParams → Bytes

-- What SHA-256 documents: 32 bytes.
pub record Sha256Laws ⦃c : Crypto⦄ : Type 0 where
  pub digest_size : (m : Bytes) → length (c.sha256 m) ≡ 32
  pub digest_bytes : (m : Bytes) → IsBytes (c.sha256 m)

-- What Ed25519 documents for a seed of 32 bytes: sizes, and a signature of its own key verifies.
pub record Ed25519Laws ⦃c : Crypto⦄ : Type 0 where
  pub key_size :
      (private_key : Bytes) → length private_key ≡ 32 → length (c.public_key private_key) ≡ 32
  pub signature_size :
      (private_key m : Bytes) → length private_key ≡ 32 → length (c.sign private_key m) ≡ 64
  pub verifies :
      (private_key m : Bytes)
      → length private_key ≡ 32
      → c.verify_signature (c.public_key private_key) m (c.sign private_key m) ≡ true

abbrev pub private_key_size : ℕ
private_key_size = 32

abbrev pub public_key_size : ℕ
public_key_size = 32

abbrev pub signature_size : ℕ
signature_size = 64

abbrev pub address_version : ℕ
address_version = 0

abbrev pub payload_size : ℕ
payload_size = 21

abbrev pub checksum_size : ℕ
checksum_size = 4

unfoldable pub is_known_payload : Bytes → Bool
is_known_payload [] = false
is_known_payload (version ∷ hash) =
    length (version ∷ hash) == payload_size && version == address_version

-- `bytes(n)`
abbrev pub zero_bytes : ℕ → Bytes
zero_bytes zero = []
zero_bytes (suc n) = 0 ∷ zero_bytes n

abbrev pub burn_payload : Bytes
burn_payload = zero_bytes payload_size

module _ ⦃c : Crypto⦄ where
  abbrev pub sha256 : Bytes → Bytes
  sha256 = c.sha256

  -- keys.verify
  unfoldable pub verify : Bytes → Bytes → Bytes → Bool
  verify public_key message signature =
      if not (length public_key == public_key_size) || not (length signature == signature_size)
      then false
      else c.verify_signature public_key message signature

  unfoldable pub payload_from_public_key : Bytes → Bytes
  payload_from_public_key public_key = address_version ∷ take 20 (sha256 public_key)

  pub is_known_payload-payload_from_public_key :
      (public_key : Bytes)
      → Sha256Laws
      → is_known_payload (payload_from_public_key public_key) ≡ true
  unfolding is_known_payload payload_from_public_key
  is_known_payload-payload_from_public_key public_key laws =
      ground (arith, length-take 20 (sha256 public_key), laws.digest_size public_key)

  pub length-payload_from_public_key :
      (public_key : Bytes) → Sha256Laws → length (payload_from_public_key public_key) ≡ payload_size
  unfolding payload_from_public_key
  length-payload_from_public_key public_key laws =
      omega (arith, length-take 20 (sha256 public_key), laws.digest_size public_key)
