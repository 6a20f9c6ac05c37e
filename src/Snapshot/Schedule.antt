-- ===== src/Snapshot/Schedule.antt =====
-- Which snapshot a header commits to: the last one that is old enough.
use native.Mathlib.Nat.{div-mul-le_self, lt-div-mul-add, mul-le-mul_right, mul-mod_left}
use tal_cash.Base.{
  Bool-cases, ap, arith, false, if◌then◌else◌, inl, inr, leb, ltb, none, refl, some, true, ℕ, ◌*◌,
  ◌+◌, ◌-◌, ◌/◌, ◌<◌, ◌∙◌, ◌≡◌, ◌≤◌, ◌⊎◌,
}
use tal_cash.Base.Int.{◌/ℤ◌}
use tal_cash.Params.{IsParams, NetworkParams}
use tal_cash.Snapshot.{is_snapshot_point, snapshot_height}

-- The snapshot after `q` finished chunks.
chunk_end : (c d h q : ℕ) → 2 ≤ c → d ≤ h → q ≡ (h - d) / c → (q * c ≤ h - d) × (h - d < q * c + c)
chunk_end c d h q large le e = (
  omega (arith, div-mul-le_self (h - d) c, ap (λ (x : ℕ). x * c) e),
  omega (arith, lt-div-mul-add {a = h - d} {b = c} (omega (arith, large)), ap (λ (x : ℕ). x * c) e),
)

snapshot_height-late :
    (height q : ℕ) (params : NetworkParams)
    → params.snapshot_delay ≤ height
    → q ≡ (height - params.snapshot_delay) / params.chunk_size
    → snapshot_height height params ≡ (if ltb q 1 then none else some (q * params.chunk_size - 1))
unfolding snapshot_height ◌/ℤ◌
snapshot_height-late height q params late e =
    let yes : leb params.snapshot_delay height ≡ true = ground arith in rw (yes, ← e) (ground arith)

snapshot_height-early :
    (height : ℕ) (params : NetworkParams)
    → height < params.snapshot_delay
    → snapshot_height height params ≡ none
unfolding snapshot_height ◌/ℤ◌
snapshot_height-early height params early =
    let no : leb params.snapshot_delay height ≡ false = ground arith in rw no (ground arith)

none_finished : (q : ℕ) → ltb q 1 ≡ true → q ≡ 0
none_finished q h = ground arith

some_finished : (q : ℕ) → ltb q 1 ≡ false → 1 ≤ q
some_finished q h = ground arith

-- For parameters that __post_init__ accepts, snapshot_height gives none and the height is below
-- chunk_size + snapshot_delay, or it gives the height s of a snapshot point with s + 1 +
-- snapshot_delay <= height < s + 1 + snapshot_delay + chunk_size, the last one that is old enough.
pub snapshot_height_cases :
    (height : ℕ) (params : NetworkParams)
    → IsParams params
    → ((snapshot_height height params ≡ none)
        × (height < params.chunk_size + params.snapshot_delay))
      ⊎ ((s : ℕ) × (snapshot_height height params ≡ some s)
          × (is_snapshot_point s params ≡ true)
          × (s + 1 + params.snapshot_delay ≤ height)
          × (height < s + 1 + params.snapshot_delay + params.chunk_size))
unfolding is_snapshot_point
snapshot_height_cases height params valid = elim (Bool-cases (leb params.snapshot_delay height)) [
  | inr early ↦
      let less : height < params.snapshot_delay = ground (arith, early) in
      inl (snapshot_height-early height params less, omega (arith, less))
  | inl late ↦
      let le : params.snapshot_delay ≤ height = ground (arith, late) in
      let q = (height - params.snapshot_delay) / params.chunk_size in
      let (from, to) =
        chunk_end params.chunk_size params.snapshot_delay height q valid.chunk le refl in
      let e = snapshot_height-late height q params le refl in
      elim (Bool-cases (ltb q 1)) [
        | inl first ↦ inl (
          e ∙ rw first refl,
          omega (arith, to, ap (λ (x : ℕ). x * params.chunk_size) (none_finished q first), le),
        )
        | inr finished ↦
            let more : params.chunk_size ≤ q * params.chunk_size =
              omega (arith, mul-le-mul_right params.chunk_size (some_finished q finished)) in
            let end : q * params.chunk_size - 1 + 1 ≡ q * params.chunk_size =
              omega (arith, valid.chunk, more) in
            inr (
              q * params.chunk_size - 1,
              e ∙ rw finished refl,
              rw (end, mul-mod_left q params.chunk_size) refl,
              omega (arith, end, from, le),
              omega (arith, end, to, le),
            )
      ]
]
