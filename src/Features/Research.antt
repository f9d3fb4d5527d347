-- ===== src/Features/Research.antt =====
-- The range of the research score of backend/internal/features/calc.go.
use maelstromhub.Prelude.{ℕ, ◌+◌, ◌≤◌, ◌<◌, ◌^◌, ◌≡◌, arith}
use maelstromhub.Float.{Float, num, ◌≼◌}
use maelstromhub.Float.Laws.{IsOrdered, IsArithmetic, IsPercentage}
use maelstromhub.Float.Order
use maelstromhub.Models.{Feature}
use maelstromhub.Features.{research_score}

module _ {ℓ} {F : Type ℓ} ⦃d : Float F⦄ where
  -- from 0 to a whole number
  abbrev pub IsUpTo : ℕ → F → Type 0
  IsUpTo n x = (num 0 ≼ x) × (x ≼ num n)

module _ {ℓ} {F : Type ℓ} ⦃d : Float F⦄ (order : IsOrdered F) (laws : IsArithmetic F)
    (percent : IsPercentage F) where
  open d use {add, mul, inf, decimal}
  open order use {le_trans, decimal_finite, decimal_mono, decimal_pos}
  open laws use {mul_mono, mul_nonneg, add_mono, add_grows}
  open percent use {mul_comm, num_add, ten_percent, fifteen_percent, twenty_percent, quarter}

  share-IsUpTo :
      (n : ℕ) (s : F)
      → 0 < n
      → n < 2 ^ 63
      → mul (decimal n 2) (num 100) ≡ num n
      → IsUpTo 100 s
      → IsUpTo n (mul (decimal n 2) s)
  share-IsUpTo n s some small exact (low, high) =
      let w = decimal n 2 in
      let w_low = Order.le_of_lt order (num 0) w (decimal_pos n 2 some small (omega arith)) in
      let w_finite = decimal_finite n 2 small in
      let finite = decimal_finite 100 0 (omega arith) in
      let below : mul s w ≼ mul (num 100) w =
        mul_mono s (num 100) w low high finite w_low w_finite in
      (
        mul_nonneg w s w_low w_finite low (Order.lt_of_le_lt order s (num 100) inf high finite),
        rw (mul_comm s w, mul_comm (num 100) w, exact) at below,
      )

  sum-IsUpTo :
      (m n : ℕ) (x y : F) → m + n ≤ 2 ^ 53 → IsUpTo m x → IsUpTo n y → IsUpTo (m + n) (add x y)
  sum-IsUpTo m n x y small (low, high) (low', high') =
      let below = add_mono x (num m) y (num n) low high low' high' in
      (le_trans (num 0) x (add x y) low (add_grows x y low low'), rw (num_add m n small) at below)

  -- If the six scores lie between 0 and 100, so does the research score: the weights add up to 1, and no
  -- rounding of their products and sums leads out of the range.
  pub research_score-IsUpTo :
      (f : Feature F)
      → IsUpTo 100 f.liquidity_score
      → IsUpTo 100 f.oi_anomaly_score
      → IsUpTo 100 f.volume_anomaly_score
      → IsUpTo 100 f.momentum_score
      → IsUpTo 100 f.funding_anomaly_score
      → IsUpTo 100 f.execution_quality_score
      → IsUpTo 100 (research_score f)
  unfolding research_score
  research_score-IsUpTo f liquidity oi volume momentum funding execution =
      let share = λ (n : ℕ) (s : F). share-IsUpTo n s in
      sum-IsUpTo 90 10 _ _ (omega arith)
        (sum-IsUpTo 80 10 _ _ (omega arith)
          (sum-IsUpTo 65 15 _ _ (omega arith)
            (sum-IsUpTo 45 20 _ _ (omega arith)
              (sum-IsUpTo 25 20 _ _ (omega arith)
                (share 25 _ (omega arith) (omega arith) quarter liquidity)
                (share 20 _ (omega arith) (omega arith) twenty_percent oi))
              (share 20 _ (omega arith) (omega arith) twenty_percent volume))
            (share 15 _ (omega arith) (omega arith) fifteen_percent momentum))
          (share 10 _ (omega arith) (omega arith) ten_percent funding))
        (share 10 _ (omega arith) (omega arith) ten_percent execution)
