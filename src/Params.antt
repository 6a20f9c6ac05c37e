-- ===== src/Params.antt =====
-- core/params.py and the constants of core/amounts.py.
use tal_cash.Base.{
  Bool, Bytes, Option, [], arith, false, none, some, true, ℕ, ◌*◌, ◌-◌, ◌/◌, ◌<◌, ◌^◌, ◌∷◌, ◌≤◌,
}
use tal_cash.Crypto.{PowParams}

abbrev pub decimals : ℕ
decimals = 6

abbrev pub coin : ℕ
coin = 10 ^ decimals

abbrev pub max_amount : ℕ
max_amount = 2 ^ 63 - 1

-- `target_for`
unfoldable pub target_for : ℕ → ℕ
target_for expected_hashes = 2 ^ 256 / expected_hashes - 1

pub record NetworkParams : Type 0 where
  pub name : Bytes
  pub network_id : ℕ
  pub address_prefix : Bytes
  pub default_port : ℕ
  pub pow : PowParams
  pub pow_limit : ℕ
  pub genesis_target : ℕ
  pub pow_no_retarget : Bool
  pub block_reward : ℕ
  pub target_spacing : ℕ
  pub asert_half_life : ℕ
  pub coinbase_maturity : ℕ
  pub finality_depth : ℕ
  pub chunk_size : ℕ
  pub snapshot_delay : ℕ
  pub chunks_per_mega_chunk : ℕ
  pub max_block_size : ℕ
  pub median_time_span : ℕ
  pub max_future_drift : ℕ
  pub genesis_timestamp : Option ℕ
  pub genesis_message : Bytes
  pub genesis_nonce : Option ℕ
  pub genesis_id : Option Bytes

-- `NetworkParams.__post_init__` raises unless this holds.
pub record IsParams (params : NetworkParams) : Type 0 where
  pub chunk : 2 ≤ params.chunk_size
  pub delay : params.snapshot_delay < params.chunk_size

-- b"TalCash/Argon2/1"
abbrev pub argon2_salt : Bytes
argon2_salt =
    84 ∷ 97 ∷ 108 ∷ 67 ∷ 97 ∷ 115 ∷ 104 ∷ 47 ∷ 65 ∷ 114 ∷ 103 ∷ 111 ∷ 110 ∷ 50 ∷ 47 ∷ 49 ∷ []

abbrev pub argon2_mainnet : PowParams
argon2_mainnet = record { memory_kib = 4096; iterations = 1; salt = argon2_salt }

unfoldable pub mainnet : NetworkParams
unfolding target_for
mainnet = record {
  name = 109 ∷ 97 ∷ 105 ∷ 110 ∷ 110 ∷ 101 ∷ 116 ∷ [];
  network_id = 1;
  address_prefix = 116 ∷ 99 ∷ [];
  default_port = 64184;
  pow = argon2_mainnet;
  pow_limit = target_for 600;
  genesis_target = target_for 18_000;
  pow_no_retarget = false;
  block_reward = 10 * coin;
  target_spacing = 60;
  asert_half_life = 60 * 60;
  coinbase_maturity = 100;
  finality_depth = 100;
  chunk_size = 1440;
  snapshot_delay = 10;
  chunks_per_mega_chunk = 365;
  max_block_size = 1_000_000;
  median_time_span = 11;
  max_future_drift = 5 * 60;
  genesis_timestamp = none;
  genesis_message = [];
  genesis_nonce = none;
  genesis_id = none;
}

abbrev pub testnet_genesis_id : Bytes
testnet_genesis_id =
    106 ∷ 108 ∷ 243 ∷ 250 ∷ 1 ∷ 124 ∷ 193 ∷ 1 ∷ 220 ∷ 139 ∷ 236 ∷ 109 ∷ 236 ∷ 114 ∷ 165 ∷ 128 ∷ 43
    ∷ 55 ∷ 166 ∷ 99 ∷ 122 ∷ 232 ∷ 71 ∷ 180 ∷ 232 ∷ 244 ∷ 38 ∷ 103 ∷ 57 ∷ 182 ∷ 190 ∷ 239 ∷ []

unfoldable pub testnet : NetworkParams
unfolding mainnet
testnet = record mainnet {
  name = 116 ∷ 101 ∷ 115 ∷ 116 ∷ 110 ∷ 101 ∷ 116 ∷ [];
  network_id = 2;
  address_prefix = 116 ∷ 116 ∷ [];
  default_port = 64185;
  genesis_timestamp = some 1_790_314_770;
  genesis_message =
      84 ∷ 97 ∷ 108 ∷ 67 ∷ 97 ∷ 115 ∷ 104 ∷ 32 ∷ 116 ∷ 101 ∷ 115 ∷ 116 ∷ 110 ∷ 101 ∷ 116 ∷ 44 ∷ 32
      ∷ 50 ∷ 53 ∷ 32 ∷ 83 ∷ 101 ∷ 112 ∷ 32 ∷ 50 ∷ 48 ∷ 50 ∷ 54 ∷ [];
  genesis_nonce = some 18_117;
  genesis_id = some testnet_genesis_id;
}

unfoldable pub devnet : NetworkParams
unfolding mainnet
devnet = record mainnet {
  name = 100 ∷ 101 ∷ 118 ∷ 110 ∷ 101 ∷ 116 ∷ [];
  network_id = 4;
  address_prefix = 116 ∷ 100 ∷ [];
  default_port = 64187;
  pow_limit = target_for 10;
  genesis_target = target_for 300;
  target_spacing = 1;
  asert_half_life = 60;
  chunk_size = 60;
  snapshot_delay = 5;
  max_future_drift = 10;
}

abbrev pub regtest_genesis_id : Bytes
regtest_genesis_id =
    202 ∷ 77 ∷ 153 ∷ 80 ∷ 126 ∷ 135 ∷ 155 ∷ 181 ∷ 157 ∷ 40 ∷ 235 ∷ 157 ∷ 74 ∷ 87 ∷ 141 ∷ 84 ∷ 181
    ∷ 200 ∷ 51 ∷ 197 ∷ 213 ∷ 31 ∷ 62 ∷ 142 ∷ 90 ∷ 149 ∷ 215 ∷ 111 ∷ 170 ∷ 99 ∷ 57 ∷ 59 ∷ []

unfoldable pub regtest : NetworkParams
unfolding mainnet
regtest = record mainnet {
  name = 114 ∷ 101 ∷ 103 ∷ 116 ∷ 101 ∷ 115 ∷ 116 ∷ [];
  network_id = 3;
  address_prefix = 116 ∷ 114 ∷ [];
  default_port = 64186;
  pow = record { memory_kib = 8; iterations = 1; salt = argon2_salt };
  pow_limit = target_for 2;
  genesis_target = target_for 2;
  pow_no_retarget = true;
  genesis_timestamp = some 1_767_225_600;
  genesis_message =
      84 ∷ 97 ∷ 108 ∷ 67 ∷ 97 ∷ 115 ∷ 104 ∷ 32 ∷ 114 ∷ 101 ∷ 103 ∷ 116 ∷ 101 ∷ 115 ∷ 116 ∷ [];
  genesis_nonce = some 1;
  genesis_id = some regtest_genesis_id;
}

pub mainnet-IsParams : IsParams mainnet
unfolding mainnet
mainnet-IsParams = omega arith

pub testnet-IsParams : IsParams testnet
unfolding testnet
testnet-IsParams = omega arith

pub regtest-IsParams : IsParams regtest
unfolding regtest
regtest-IsParams = omega arith

pub devnet-IsParams : IsParams devnet
unfolding devnet
devnet-IsParams = omega arith
