-- ===== src/Pow/Mining.antt =====
-- The search of `mine` (core/pow.py): which nonces it tries, and when it stops.
use native.Mathlib.Nat.{mul-le-mul_right}
use tal_cash.Base.{
  Bool, Bool-cases, Bytes, ap, append-nil, append_assoc, arith, false, inl, inr, leb, length,
  length-append, none, ok, refl, some, suc, take, take-length-append, true, zero, ℕ, ◌*◌, ◌++◌, ◌+◌,
  ◌-◌, ◌<◌, ◌^◌, ◌∙◌, ◌≡◌, ◌≤◌, ◌⊎◌,
}
use tal_cash.Block.{BlockHeader}
use tal_cash.Block.Layout.{FitsHeader, header_layout, header_prefix, serialize_header_layout}
use tal_cash.Crypto.{Crypto, PowParams}
use tal_cash.Encoding.{from_bytes, to_bytes}
use tal_cash.Encoding.BigEndian.{length-to_bytes}
use tal_cash.Pow.{meets_target, mine, mine_loop, nonce_size, pow_hash, pow_hash_bytes}

module _ ⦃c : Crypto⦄ where
  -- The test in the loop, of one nonce.
  abbrev wins : Bytes → BlockHeader → PowParams → ℕ → Bool
  wins prefix header params nonce =
      leb (from_bytes (pow_hash_bytes (prefix ++ to_bytes nonce_size nonce) params)) header.target

  module _ (prefix : Bytes) (header : BlockHeader) (params : PowParams) (stride : ℕ) where
    -- The loop stops at the first nonce that wins, the `i`-th.
    record Found (attempts start : ℕ) : Type 0 where
      i : ℕ
      early : i < attempts
      fits : start + i * stride < 2 ^ 64
      returns :
          mine_loop attempts prefix header params start stride
          ≡ some (record header { nonce = start + i * stride })
      win : wins prefix header params (start + i * stride) ≡ true
      before : (j : ℕ) → j < i → wins prefix header params (start + j * stride) ≡ false

    record Failed (attempts start : ℕ) : Type 0 where
      returns : mine_loop attempts prefix header params start stride ≡ none
      all :
          (j : ℕ)
          → j < attempts
          → start + j * stride < 2 ^ 64
          → wins prefix header params (start + j * stride) ≡ false

    next_nonce : (start j : ℕ) → start + suc j * stride ≡ start + stride + j * stride
    next_nonce start j = omega arith

    first_nonce : (start : ℕ) → start + 0 * stride ≡ start
    first_nonce start = omega arith

    -- What holds of the first nonce and of all later ones.
    each_nonce :
        (P : ℕ → Type 0) (start n : ℕ)
        → P start
        → ((k : ℕ) → k < n → P (start + stride + k * stride))
        → (j : ℕ) → j < suc n
        → P (start + j * stride)
    each_nonce P start n p ps zero h = rw (first_nonce start) p
    each_nonce P start n p ps (suc k) h = rw (next_nonce start k) (ps k (omega (arith, h)))

    Found-later :
        (attempts start : ℕ)
        → start < 2 ^ 64
        → wins prefix header params start ≡ false
        → Found attempts (start + stride)
        → Found (suc attempts) start
    unfolding mine_loop
    Found-later attempts start small lost f = record {
      i = suc f.i;
      early = omega (arith, f.early);
      fits = omega (arith, f.fits);
      returns = rw (next_nonce start f.i) (ground (arith, f.returns));
      win = rw (next_nonce start f.i) f.win;
      before = each_nonce (λ n. wins prefix header params n ≡ false) start f.i lost f.before;
    }

    Failed-later :
        (attempts start : ℕ)
        → wins prefix header params start ≡ false
        → Failed attempts (start + stride)
        → Failed (suc attempts) start
    unfolding mine_loop
    Failed-later attempts start lost f = record {
      returns = ground (arith, f.returns);
      all =
          each_nonce (λ n. n < 2 ^ 64 → wins prefix header params n ≡ false) start attempts
            (λ _. lost) f.all;
    }

    mine_loop_cases : (attempts start : ℕ) → Found attempts start ⊎ Failed attempts start
    unfolding mine_loop
    mine_loop_cases zero start =
        inr (record { returns = refl; all = λ j h small. absurd (omega (arith, h)) })
    mine_loop_cases (suc attempts) start = elim (Bool-cases (leb (2 ^ 64) start)) [
      | inl large ↦ inr (record {
        returns = ground arith;
        all = λ j h small. absurd (ground (arith, small, large));
      })
      | inr small ↦ elim (Bool-cases (wins prefix header params start)) [
        | inl won ↦ inl (record {
          i = 0;
          early = omega arith;
          fits = ground (arith, small);
          returns = rw (first_nonce start) (ground (arith, small, won));
          win = rw (first_nonce start) won;
          before = λ j h. absurd (omega (arith, h));
        })
        | inr lost ↦ elim (mine_loop_cases attempts (start + stride)) [
          | inl found ↦ inl (Found-later attempts start (ground (arith, small)) lost found)
          | inr failed ↦ inr (Failed-later attempts start lost failed)
        ]
      ]
    ]

  prefix_layout :
      (header : BlockHeader) (nonce : ℕ)
      → header_layout (record header { nonce = nonce }) ≡ header_prefix header ++ to_bytes 8 nonce
  prefix_layout header nonce = simp (append_assoc, append-nil) refl

  FitsHeader-nonce :
      (header : BlockHeader) (nonce : ℕ)
      → FitsHeader header
      → nonce < 2 ^ 64
      → FitsHeader (record header { nonce = nonce })
  FitsHeader-nonce header nonce f small = record {
    version = f.version;
    height = f.height;
    prev_id = f.prev_id;
    merkle_root = f.merkle_root;
    snapshot_root = f.snapshot_root;
    timestamp = f.timestamp;
    target = f.target;
    nonce = small;
    prev_bytes = f.prev_bytes;
    merkle_bytes = f.merkle_bytes;
    snapshot_bytes = f.snapshot_bytes;
  }

  -- The loop's test is `meets_target` of the header with that nonce.
  meets_target-wins :
      (header : BlockHeader) (params : PowParams) (nonce : ℕ)
      → FitsHeader header
      → nonce < 2 ^ 64
      → meets_target (record header { nonce = nonce }) params
        ≡ ok (wins (header_prefix header) header params nonce)
  unfolding meets_target pow_hash
  meets_target-wins header params nonce f small =
      rw
        (
          serialize_header_layout (record header { nonce = nonce })
              (FitsHeader-nonce header nonce f small),
          prefix_layout header nonce,
        )
        refl

  cut : (xs ys : Bytes) → length ys ≡ 8 → length (xs ++ ys) - nonce_size ≡ length xs
  cut xs ys e = omega (arith, length-append xs ys)

  -- What `mine` cuts off is the nonce.
  prefix_of :
      (header : BlockHeader)
      → FitsHeader header
      → take (length (header_layout header) - nonce_size) (header_layout header)
        ≡ header_prefix header
  prefix_of header fits =
      let e = prefix_layout header header.nonce in
      rw e (
        rw (cut (header_prefix header) (to_bytes 8 header.nonce) (length-to_bytes 8 header.nonce))
          (take-length-append (header_prefix header) (to_bytes 8 header.nonce)))

  earlier :
      (start stride i j : ℕ) → j < i → start + i * stride < 2 ^ 64 → start + j * stride < 2 ^ 64
  earlier start stride i j h small =
      let le : j ≤ i = omega (arith, h) in omega (arith, small, mul-le-mul_right stride le)

  -- For a header whose fields fit, mine with max_attempts given either returns the header with the
  -- first nonce of start, start + stride, ... that meets the target, the i-th with i below
  -- max_attempts, and none before it meets it; or it returns none, and no nonce below 2^64 among
  -- the first max_attempts meets it.
  pub mine_cases :
      (header : BlockHeader) (params : PowParams) (start stride attempts : ℕ)
      → FitsHeader header
      → ((i : ℕ) × (i < attempts)
          × (mine header params start stride attempts
              ≡ ok (some (record header { nonce = start + i * stride })))
          × (meets_target (record header { nonce = start + i * stride }) params ≡ ok true)
          × ((j : ℕ)
              → j < i
              → meets_target (record header { nonce = start + j * stride }) params ≡ ok false))
        ⊎ ((mine header params start stride attempts ≡ ok none)
            × ((j : ℕ)
                → j < attempts
                → start + j * stride < 2 ^ 64
                → meets_target (record header { nonce = start + j * stride }) params ≡ ok false))
  unfolding mine
  mine_cases header params start stride attempts fits =
      elim (mine_loop_cases (header_prefix header) header params stride attempts start) [
        | inl f ↦ inl (
          f.i,
          f.early,
          rw (serialize_header_layout header fits, prefix_of header fits) (ap ok f.returns),
          meets_target-wins header params _ fits f.fits ∙ ap ok f.win,
          λ j h.
              meets_target-wins header params _ fits (earlier start stride f.i j h f.fits)
              ∙ ap ok (f.before j h),
        )
        | inr f ↦ inr (
          rw (serialize_header_layout header fits, prefix_of header fits) (ap ok f.returns),
          λ j h small. meets_target-wins header params _ fits small ∙ ap ok (f.all j h small),
        )
      ]
