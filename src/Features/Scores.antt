-- ===== src/Features/Scores.antt =====
-- The range of the scores of backend/internal/features/calc.go.
use maelstromhub.Prelude.{◌≡◌, false, ◌⊎◌, inl, inr, arith, ℕ, Bool-cases}
use maelstromhub.Float
use maelstromhub.Float.{Float, num, ◌≼◌, ◌≺◌}
use maelstromhub.Float.Laws.{IsOrdered}
use maelstromhub.Float.Order
use maelstromhub.Float.Extrema.{min_cases, max_cases, min_nan, max_nan}
use maelstromhub.Models.{Feature}
use maelstromhub.Features.{Input, calculate}
use maelstromhub.Features.Stats.{clamp}

module _ {ℓ} {F : Type ℓ} ⦃d : Float F⦄ where
  -- between 0 and 100, or NaN
  abbrev pub IsScore : F → Type 0
  IsScore s = (d.le s s ≡ false) ⊎ ((num 0 ≼ s) × (s ≼ num 100))

  abbrev pub ScoresInRange : Feature F → Type 0
  ScoresInRange f =
      IsScore f.liquidity_score
      × IsScore f.oi_anomaly_score
      × IsScore f.volume_anomaly_score
      × IsScore f.momentum_score
      × IsScore f.funding_anomaly_score
      × IsScore f.execution_quality_score

module _ {ℓ} {F : Type ℓ} ⦃d : Float F⦄ (laws : IsOrdered F) where
  open d use {neg, inf, nan, decimal, eq, lt, le}
  open laws use {
    lt-eq, eq-eq, nan_le, refl_of_le, le_trans, decimal_mono, decimal_finite, neg_inf_bottom,
    neg_inf_lt,
  }

  -- `math.Min(100, v)` bounds and is bounded like its arguments
  min_bounds :
      (v b : F)
      → v ≼ v
      → let m = Float.min (num 100) v in (m ≼ num 100) × (m ≼ v) × (b ≼ v → b ≼ num 100 → b ≼ m)
  min_bounds v b hv =
      let hundred = decimal_mono 100 100 0 (omega arith) in
      ground (
        arith,
        hundred,
        min_cases laws (num 100) v hundred hv,
        neg_inf_bottom v hv,
        neg_inf_bottom (num 100) hundred,
        le_trans b v (neg inf),
        le_trans b (num 100) (neg inf),
      )

  -- `clamp` keeps to its range, and to every bound that its argument has in that range.
  pub clamp_bounds :
      (v b : F)
      → v ≼ v
      → (num 0 ≼ clamp v)
        × (clamp v ≼ num 100)
        × (v ≼ b → num 0 ≼ b → clamp v ≼ b)
        × (b ≼ v → b ≼ num 100 → b ≼ clamp v)
  unfolding clamp
  clamp_bounds v b hv =
      let m = Float.min (num 100) v in
      let (low, below, above) = min_bounds v b hv in
      let zero_real = decimal_mono 0 0 0 (omega arith) in
      let finite = Order.not_le_of_lt laws (num 100) inf (decimal_finite 100 0 (omega arith)) in
      ground (
        arith,
        below,
        above,
        low,
        finite,
        zero_real,
        decimal_mono 0 100 0,
        max_cases laws (num 0) m zero_real (refl_of_le m (num 100) low).0,
        le_trans m v b,
        le_trans inf m (num 100),
        le_trans inf (num 0) (num 100),
        le_trans b m (num 0),
      )

  clamp_nan : (v : F) → le v v ≡ false → le (clamp v) (clamp v) ≡ false
  unfolding clamp
  clamp_nan v h =
      let bottom = Order.not_le_of_lt laws (neg inf) (num 100) (
        Order.lt_of_lt_le laws (neg inf) (num 0) (num 100) neg_inf_lt
          (decimal_mono 0 100 0 (omega arith))) in
      let top = Order.not_le_of_lt laws (num 0) inf (decimal_finite 0 0 (omega arith)) in
      rw (min_nan laws (num 100) v bottom h, max_nan laws (num 0) nan top (nan_le nan)) (nan_le nan)

  pub clamp-IsScore : (v : F) → IsScore (clamp v)
  clamp-IsScore v = elim (Bool-cases (le v v)) [
    | inl real ↦ let (low, high, _, _) = clamp_bounds v v real in inr (low, high)
    | inr no_number ↦ inl (clamp_nan v no_number)
  ]

  -- Each of the six scores of `Calculate` is between 0 and 100 or is NaN, whatever the candles, the
  -- snapshots and the spread are.
  pub calculate_scores :
      (now updated : ℕ) (input : Input F) → ScoresInRange (calculate now updated input)
  unfolding calculate
  calculate_scores now updated input = (
    clamp-IsScore _,
    clamp-IsScore _,
    clamp-IsScore _,
    clamp-IsScore _,
    clamp-IsScore _,
    clamp-IsScore _,
  )
