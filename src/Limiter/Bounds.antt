-- ===== src/Limiter/Bounds.antt =====
-- The bounds of the bucket of backend/internal/limiter/weighted.go.
pub mod Wait
use maelstromhub.Prelude.{ℕ, ◌^◌, ◌<◌, List, [], ◌∷◌, String, All, arith}
use maelstromhub.Prelude.Int.{ℤ, pos, negsuc, pos_part, ◌≤ℤ◌}
use maelstromhub.Float.{Float, num, of_int, ◌≼◌}
use maelstromhub.Float.Laws.{IsOrdered, IsArithmetic}
use maelstromhub.Float.Order
use maelstromhub.Limiter.{Config, Weighted, default_capacity, since, new, refill, record_request}
use maelstromhub.Limiter.Steps.{
  Readings, Action, request, look, enter, leave, try, poll, perform, run,
}

module _ {ℓ} {F : Type ℓ} ⦃d : Float F⦄ where
  pub record IsBounded (l : Weighted F) : Type 0 where
    pub positive : 0 < l.capacity
    pub exact : l.capacity < 2 ^ 53
    pub nonneg : num 0 ≼ l.tokens
    pub capped : l.tokens ≼ num l.capacity

-- a weight is not negative
abbrev pub IsCharge : Action → Type 0
IsCharge (try endpoint w now) = pos 0 ≤ℤ w
IsCharge (request endpoint latency failed status now) = Unit
IsCharge (look now) = Unit
IsCharge enter = Unit
IsCharge leave = Unit

module _ {ℓ} {F : Type ℓ} ⦃d : Float F⦄ (order : IsOrdered F) (laws : IsArithmetic F) where
  open d use {add, sub, mul, div, lt, le, inf, seconds}
  open order use {refl_of_le, le_trans, decimal_mono, decimal_finite, num_lt}
  open laws use {add_grows, sub_shrinks, mul_nonneg, div_nonneg, seconds_nonneg}

  -- what a refill adds is not negative
  gain_nonneg :
      (c now last : ℕ) → c < 2 ^ 53 → num 0 ≼ div (mul (seconds (since now last)) (num c)) (num 60)
  gain_nonneg c now last h =
      let passed = seconds_nonneg (since now last) (omega arith) in
      div_nonneg _ _
        (mul_nonneg _ _ passed.0 passed.1 (decimal_mono 0 c 0 (omega arith))
          (decimal_finite c 0 (omega arith)))
        (num_lt 0 60 (omega arith) (omega arith)) (decimal_finite 60 0 (omega arith))

  pub refill-IsBounded : (now : ℕ) (l : Weighted F) → IsBounded l → IsBounded (refill now l)
  unfolding refill
  refill-IsBounded now l h =
      let gain = div (mul (seconds (since now l.last_refill)) (num l.capacity)) (num 60) in
      let grows = add_grows l.tokens gain h.nonneg (gain_nonneg _ now l.last_refill h.exact) in
      let full : F = num l.capacity in
      ground (
        arith,
        grows,
        le_trans (num 0) l.tokens (add l.tokens gain) h.nonneg grows,
        decimal_mono 0 l.capacity 0,
        decimal_mono l.capacity l.capacity 0,
        refl_of_le l.tokens (add l.tokens gain) grows,
        Order.le_of_not_lt order full (add l.tokens gain),
      )

  num_nonneg : (w : ℤ) → pos 0 ≤ℤ w → d.decimal 0 0 ≼ of_int w
  num_nonneg (pos n) h = decimal_mono 0 n 0 (omega arith)
  num_nonneg (negsuc n) h = absurd (omega arith)

  pub poll-IsBounded :
      (endpoint : String) (w : ℤ) (now : Readings) (l : Weighted F)
      → pos 0 ≤ℤ w
      → IsBounded l
      → IsBounded (poll endpoint w now l).0
  unfolding poll
  poll-IsBounded endpoint w now l hw h =
      let l' = refill now.refill_at l in
      let h' = refill-IsBounded now.refill_at l h in
      let finite =
        Order.lt_of_le_lt order l'.tokens (num l'.capacity) inf h'.capped
          (decimal_finite l'.capacity 0 (omega (arith, h'))) in
      ground (
        arith,
        h',
        sub_shrinks l'.tokens (of_int w) (num_nonneg w hw),
        finite,
        le_trans (sub l'.tokens (of_int w)) l'.tokens (num l'.capacity),
      )

  pub perform-IsBounded :
      (a : Action) (l : Weighted F) → IsCharge a → IsBounded l → IsBounded (perform a l)
  unfolding perform record_request
  perform-IsBounded (request e t f s now) l c h = ground arith
  perform-IsBounded (look now) l c h = refill-IsBounded now l h
  perform-IsBounded enter l c h = ground arith
  perform-IsBounded leave l c h = ground arith
  perform-IsBounded (try e w now) l c h = poll-IsBounded e w now l c h

  -- Whatever steps the goroutines make, in whatever order, and whatever the clock shows, a bucket that
  -- is between empty and full stays there. The weights charged are not negative.
  pub run-IsBounded :
      (actions : List Action) (l : Weighted F)
      → All IsCharge actions
      → IsBounded l
      → IsBounded (run actions l)
  unfolding run
  run-IsBounded [] l c h = h
  run-IsBounded (a ∷ actions) l c h =
      run-IsBounded actions (perform a l) c.1 (perform-IsBounded a l c.0 h)

  -- A limiter just made is full.
  pub new-IsBounded :
      (cfg : Config) (now : ℕ)
      → pos_part cfg.capacity_per_minute < 2 ^ 53
      → IsBounded {F = F} (new cfg now)
  unfolding new
  new-IsBounded cfg now h =
      let c = default_capacity cfg.capacity_per_minute in
      ground (arith, decimal_mono 0 c 0, decimal_mono c c 0)
