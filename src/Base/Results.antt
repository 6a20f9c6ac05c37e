-- ===== src/Base/Results.antt =====
-- core/errors.py, and a function that may raise: it returns a `Result`. A `ValidationError` carries
-- its code; its detail text is not modelled.
use mathlib.Core.Logic.{◌⊎◌, inl, inr}
use mathlib.Core.Path.{◌≡◌, refl}
use mathlib.Core.Bool.{Bool, true, false}

-- The codes of `ValidationError`.
pub data Code : Type 0 where
  wrong_network memo_too_large bad_address bad_amount bad_output_count bad_fee : Code
  amount_overflow bad_signature bad_version block_too_large missing_coinbase : Code
  extra_coinbase bad_coinbase_height duplicate_transaction bad_merkle_root : Code
  bad_height bad_prev_id time_too_old time_too_new bad_target bad_pow bad_snapshot_root : Code
  bad_nonce insufficient_funds bad_coinbase_amount balance_overflow : Code
  not_a_transfer already_known fee_too_low nonce_too_low nonce_gap too_many_pending : Code
  replacement_fee_too_low mempool_full fork_below_finality unknown_parent invalid_parent : Code
  bad_genesis known_invalid bad_chunk chunk_not_next : Code

-- `value_error` is a plain `ValueError`, `runtime_error` a `RuntimeError`, `assertion_error` a
-- failed `assert`, `integrity_error` the `IntegrityError` of sqlite3.
pub data Error : Type 0 where
  decode_error value_error overflow_error runtime_error assertion_error key_error : Error
  index_error out_of_fuel : Error
  chunk_error chunk_too_large zlib_error integrity_error stop_iteration type_error : Error
  attribute_error zero_division_error : Error
  validation : Code → Error

pub data Result {ℓ} (A : Type ℓ) : Type ℓ where
  ok : A → Result A
  err : Error → Result A

-- The bind of `Result`; a module that writes `do` blocks names it `>>=`.
abbrev pub bind {ℓ κ} : {A : Type ℓ} {B : Type κ} → Result A → (A → Result B) → Result B
bind (ok a) f = f a
bind (err e) f = err e

-- `if b: raise e`
abbrev pub raise_if : Bool → Error → Result (Unit {0})
raise_if true e = err e
raise_if false e = ok tt

-- One check after another.
infixr 5 ◌⨟◌
abbrev pub ◌⨟◌ {ℓ} : {B : Type ℓ} → Result (Unit {0}) → Result B → Result B
ok _ ⨟ k = k
err e ⨟ k = err e

pub bind-eq-ok {ℓ κ} :
    {A : Type ℓ} {B : Type κ} (m : Result A) (f : A → Result B) {b : B}
    → bind m f ≡ ok b
    → (a : A) × (m ≡ ok a) × (f a ≡ ok b)
bind-eq-ok (ok a) f h = (a, refl, h)
bind-eq-ok (err e) f h = cc

pub raise_if-eq-ok : {u : Unit {0}} (b : Bool) (e : Error) → raise_if b e ≡ ok u → b ≡ false
raise_if-eq-ok true e h = cc
raise_if-eq-ok false e h = refl

pub Result-cases {ℓ} :
    {A : Type ℓ} (r : Result A) → ((a : A) × (r ≡ ok a)) ⊎ ((e : Error) × (r ≡ err e))
Result-cases (ok a) = inl (a, refl)
Result-cases (err e) = inr (e, refl)
