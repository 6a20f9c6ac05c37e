-- ===== src/Difficulty/Schedule.antt =====
-- `next_target` (core/difficulty.py) against the schedule that its docstring states.
use native.Mathlib.Nat.{mul-div_cancel}
use tal_cash.Base.{
  Bool-cases, ap, arith, false, inl, inr, ok, refl, suc, ℕ, ◌*◌, ◌+◌, ◌/◌, ◌<◌, ◌^◌, ◌∙◌, ◌≡◌, ◌≤◌,
}
use tal_cash.Base.Int.{
  *ℤ_mono_left, -ℤ_mono_left, /ℤ_mono, negsuc, pos, sub_ℕ, ℤ, ◌*ℤ◌, ◌-ℤ◌, ◌/ℤ◌, ◌≤ℤ◌,
}
use tal_cash.Block.{BlockHeader}
use tal_cash.Difficulty.{
  asert_target, clamp, exponent_of, frac_of, next_target, radix, scaled_target, shift, shifts_of,
  target_of_exponent,
}
use tal_cash.Difficulty.Factor.{asert_factor-zero}
use tal_cash.Difficulty.Monotone.{frac_of-pos, target_of_exponent_mono}
use tal_cash.Params.{NetworkParams}

-- The exponent where the half-life is positive.
abbrev exponent_at : ℤ → ℤ → ℕ → ℕ → ℤ
exponent_at time_delta height_delta spacing half_life =
    (time_delta -ℤ height_delta *ℤ spacing) *ℤ radix /ℤ half_life

exponent_of_at :
    (t h : ℤ) (spacing half_life : ℕ)
    → 0 < half_life
    → exponent_of t h spacing half_life ≡ ok (exponent_at t h spacing half_life)
unfolding exponent_of
exponent_of_at t h spacing half_life life = ground arith

exponent_at_mono :
    (s t h : ℤ) (spacing half_life : ℕ)
    → 0 < half_life
    → s ≤ℤ t
    → exponent_at s h spacing half_life ≤ℤ exponent_at t h spacing half_life
exponent_at_mono s t h spacing half_life pos_life le =
    /ℤ_mono _ _ half_life pos_life (*ℤ_mono_left _ _ radix (-ℤ_mono_left s t (h *ℤ spacing) le))

-- With a positive half-life and an easiest target of at least 1, next_target returns a target for
-- each of two parents at one height, and the one with the later timestamp gives the next block a
-- target at least as easy.
pub next_target_mono :
    (params : NetworkParams) (genesis parent later : BlockHeader)
    → 0 < params.asert_half_life
    → 1 ≤ params.pow_limit
    → later.height ≡ parent.height
    → parent.timestamp ≤ later.timestamp
    → (target target' : ℕ) × (next_target params genesis parent ≡ ok target)
      × (next_target params genesis later ≡ ok target')
      × (target ≤ target')
unfolding next_target asert_target
next_target_mono params genesis parent later life limit height time =
    elim (Bool-cases params.pow_no_retarget) [
      | inl fixed ↦ rw fixed (params.genesis_target, params.genesis_target, refl, refl, omega arith)
      | inr moving ↦
          let early = sub_ℕ parent.timestamp genesis.timestamp in
          let late = sub_ℕ later.timestamp genesis.timestamp in
          let up = sub_ℕ parent.height genesis.height in
          let spacing = params.target_spacing in
          let half = params.asert_half_life in
          rw
            (
              moving,
              height,
              exponent_of_at early up spacing half life,
              exponent_of_at late up spacing half life,
            )
            (
              target_of_exponent genesis.target params.pow_limit
                  (exponent_at early up spacing half),
              target_of_exponent genesis.target params.pow_limit (exponent_at late up spacing half),
              refl,
              refl,
              target_of_exponent_mono genesis.target params.pow_limit _ _ limit
                  (exponent_at_mono early late up spacing half life (ground arith)),
            )
    ]

sub_ℕ_add : (a b c : ℕ) → c ≡ a + b → sub_ℕ c a ≡ pos b
sub_ℕ_add a b c h = ground arith

sub_ℕ_less : (a b c : ℕ) → a ≡ c + suc b → sub_ℕ c a ≡ negsuc b
sub_ℕ_less a b c h = ground arith

pos-*ℤ : (a k : ℕ) → pos a *ℤ k ≡ pos (a * k)
unfolding ◌*ℤ◌
pos-*ℤ a k = ground arith

pos--ℤ : (a b : ℕ) → pos a -ℤ pos b ≡ sub_ℕ a b
unfolding ◌-ℤ◌
pos--ℤ a b = ground arith

-- The exponent of a parent at height `anchor_height + d`, by how far its time is from the schedule.
exponent_on :
    (anchor_time anchor_height d spacing half_life time : ℕ) (off : ℤ)
    → sub_ℕ (time) anchor_time -ℤ pos (d * spacing) ≡ off
    → exponent_at
        (sub_ℕ time anchor_time)
        (sub_ℕ (anchor_height + d) anchor_height)
        spacing
        half_life
      ≡ off *ℤ radix /ℤ half_life
exponent_on anchor_time anchor_height d spacing half_life time off e =
    rw (sub_ℕ_add anchor_height d (anchor_height + d) refl, pos-*ℤ d spacing, e)

-- At the scheduled time of its height, `k` half-lives late, a parent has the exponent `k * 65536`.
exponent_behind :
    (anchor_time anchor_height d spacing half_life k : ℕ)
    → 0 < half_life
    → exponent_at
        (sub_ℕ (anchor_time + d * spacing + k * half_life) anchor_time)
        (sub_ℕ (anchor_height + d) anchor_height)
        spacing
        half_life
      ≡ pos (k * radix)
unfolding ◌/ℤ◌
exponent_behind anchor_time anchor_height d spacing half_life k life =
    exponent_on anchor_time anchor_height d spacing half_life _ (pos (k * half_life)) (
      rw
        (
          sub_ℕ_add anchor_time (d * spacing + k * half_life)
              (anchor_time + d * spacing + k * half_life) (omega arith),
          pos--ℤ,
        )
        (sub_ℕ_add (d * spacing) (k * half_life) _ refl))
    ∙ rw (pos-*ℤ (k * half_life) radix) (
        ap pos (
          ap (λ (x : ℕ). x / half_life) {x = k * half_life * radix} {y = k * radix * half_life}
            (omega arith)
          ∙ mul-div_cancel (k * radix) life))

shifts_of_whole : (k : ℕ) → shifts_of (pos (k * radix)) ≡ pos k
unfolding shifts_of ◌/ℤ◌
shifts_of_whole k = ap pos {x = k * radix / radix} {y = k} (omega arith)

frac_of_whole : (k : ℕ) → frac_of (pos (k * radix)) ≡ 0
frac_of_whole k = omega (arith, frac_of-pos (k * radix))

scaled_behind : (anchor k : ℕ) → scaled_target anchor (pos (k * radix)) ≡ anchor * 2 ^ k
unfolding scaled_target shift
scaled_behind anchor k = rw (shifts_of_whole k, frac_of_whole k, asert_factor-zero) (omega arith)

target_behind :
    (anchor pow_limit k : ℕ)
    → k ≤ 256
    → target_of_exponent anchor pow_limit (pos (k * radix)) ≡ clamp pow_limit (anchor * 2 ^ k)
unfolding target_of_exponent
target_behind anchor pow_limit k small =
    rw (shifts_of_whole k, scaled_behind anchor k) (ground arith)

-- Where the target moves and the half-life is positive: when the parent is k half-lives (at most
-- 256) behind the ideal schedule, next_target is the genesis target times 2 to the k, clamped to
-- the network's limits.
pub next_target_behind :
    (params : NetworkParams) (genesis parent : BlockHeader) (d k : ℕ)
    → params.pow_no_retarget ≡ false
    → 0 < params.asert_half_life
    → k ≤ 256
    → parent.height ≡ genesis.height + d
    → parent.timestamp ≡ genesis.timestamp + d * params.target_spacing + k * params.asert_half_life
    → next_target params genesis parent ≡ ok (clamp params.pow_limit (genesis.target * 2 ^ k))
unfolding next_target asert_target
next_target_behind params genesis parent d k moving life small height time =
    rw
      (
        moving,
        height,
        time,
        exponent_of_at
            (sub_ℕ (genesis.timestamp + d * params.target_spacing + k * params.asert_half_life)
              genesis.timestamp)
            (sub_ℕ (genesis.height + d) genesis.height) params.target_spacing params.asert_half_life
            life,
        exponent_behind genesis.timestamp genesis.height d params.target_spacing
            params.asert_half_life k life,
      )
      (ap ok (target_behind genesis.target params.pow_limit k small))
