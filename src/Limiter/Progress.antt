-- ===== src/Limiter/Progress.antt =====
-- When `Wait` of backend/internal/limiter/weighted.go gets through: a minute after the last refill.
use maelstromhub.Prelude.{ℕ, ◌*◌, ◌^◌, ◌≤◌, ◌<◌, ◌≡◌, true, List, ◌∷◌, String, All, arith, ap, ◌∙◌}
use maelstromhub.Prelude.Int.{ℤ, pos, ◌≤ℤ◌}
use maelstromhub.Prelude.Dict.{read}
use maelstromhub.Float.{Float, num, of_int, ◌≼◌}
use maelstromhub.Float.Laws.{IsOrdered, IsArithmetic}
use maelstromhub.Float.Order
use maelstromhub.Limiter.{Weighted, since, minute, refill, up}
use maelstromhub.Limiter.Steps.{Action, poll, run}
use maelstromhub.Limiter.Bounds.{IsBounded, IsCharge, run-IsBounded}
use maelstromhub.Limiter.Wait.{
  Round, ok, is_granted, wait_loop, leave_queue, wait_queued, charge, wait,
}
use maelstromhub.Limiter.Starvation.{capacity-run}

module _ {ℓ} {F : Type ℓ} ⦃d : Float F⦄ where
  abbrev pub Fits : ℤ → Weighted F → Type 0
  Fits w l = d.le (of_int w) (num l.capacity) ≡ true

  -- the round reads the clock a minute after the last refill, when the endpoint's pause is over
  pub record IsDue (endpoint : String) (r : Round) (l : Weighted F) : Type 0 where
    pub rested : minute ≤ since r.now.refill_at l.last_refill
    pub unpaused : read 0 endpoint l.paused_until ≤ r.now.check_at

  pause-refill :
      (endpoint : String) (now : ℕ) (l : Weighted F)
      → read 0 endpoint (refill now l).paused_until ≡ read 0 endpoint l.paused_until
  unfolding refill
  pause-refill endpoint now l = ground arith

module _ {ℓ} {F : Type ℓ} ⦃d : Float F⦄ (order : IsOrdered F) (laws : IsArithmetic F) where
  open d use {add, mul, div, lt, le, seconds}
  open order use {refl_of_le, le_trans, decimal_mono, decimal_finite, num_lt}
  open laws use {
    add_grows_right, mul_mono, mul_nonneg, div_mono, div_nonneg, num_mul, num_div, seconds_whole,
    seconds_nonneg,
  }

  gain_full :
      (c n : ℕ)
      → 60 * c ≤ 2 ^ 53
      → minute ≤ n
      → n < 2 ^ 63
      → (num 0 ≼ div (mul (seconds n) (num c)) (num 60))
        × (num c ≼ div (mul (seconds n) (num c)) (num 60))
  gain_full c n small long top =
      let passed = seconds_nonneg n top in
      let c_nonneg = decimal_mono 0 c 0 (omega arith) in
      let c_finite = decimal_finite c 0 (omega arith) in
      let sixty = num_lt 0 60 (omega arith) (omega arith) in
      let sixty_finite = decimal_finite 60 0 (omega arith) in
      let product = mul_nonneg _ _ passed.0 passed.1 c_nonneg c_finite in
      let sixty_times : mul (d.decimal 60 0) (d.decimal c 0) ≡ d.decimal (c * 60) 0 =
        num_mul 60 c small ∙ ap (λ (k : ℕ). d.decimal k 0) (omega arith) in
      let minutes : d.decimal (c * 60) 0 ≼ mul (seconds n) (num c) = rw (← sixty_times) (
        mul_mono (num 60) (seconds n) (num c) (decimal_mono 0 60 0 (omega arith))
          (seconds_whole 60 n (omega arith) top) passed.1 c_nonneg c_finite) in
      let ratio =
        div_mono (num (c * 60)) (mul (seconds n) (num c)) (num 60)
          (decimal_mono 0 (c * 60) 0 (omega arith)) minutes sixty sixty_finite in
      (
        div_nonneg _ _ product sixty sixty_finite,
        rw (num_div c 60 (omega arith) (omega arith)) at ratio,
      )

  refill_full :
      (now : ℕ) (l : Weighted F)
      → IsBounded l
      → 60 * l.capacity ≤ 2 ^ 53
      → minute ≤ since now l.last_refill
      → d.le (num l.capacity) (refill now l).tokens ≡ true
  unfolding refill
  refill_full now l h small long =
      let n = since now l.last_refill in
      let full : F = num l.capacity in
      let gain = div (mul (seconds n) full) (num 60) in
      let (gain_nonneg, gain_full) = gain_full l.capacity n small long (omega arith) in
      let some_time = Order.not_le_of_lt order (num 0) (seconds n) (
        Order.lt_of_lt_le order (num 0) (num 60) (seconds n)
          (num_lt 0 60 (omega arith) (omega arith))
          (seconds_whole 60 n (omega arith) (omega arith))) in
      ground (
        arith,
        some_time,
        decimal_mono l.capacity l.capacity 0,
        le_trans full gain (add l.tokens gain) gain_full
            (add_grows_right l.tokens gain h.nonneg gain_nonneg),
      )

  poll_due :
      (endpoint : String) (w : ℤ) (r : Round) (l : Weighted F)
      → IsBounded l
      → 60 * l.capacity ≤ 2 ^ 53
      → Fits w l
      → IsDue endpoint r l
      → is_granted (poll endpoint w r.now l).1 ≡ true
  unfolding poll
  poll_due endpoint w r l h small fits due =
      let refilled = refill r.now.refill_at l in
      let full = refill_full r.now.refill_at l h small due.rested in
      ground (
        arith,
        due,
        le_trans (of_int w) (num l.capacity) refilled.tokens fits full,
        pause-refill endpoint r.now.refill_at l,
      )

  -- A critical call for a weight up to the capacity gets through at its first round, if that comes a
  -- minute after the last refill and after the endpoint's pause. The bucket is between empty and full
  -- when the call starts, the other weights are not negative, and sixty times the capacity is exact in a
  -- float64.
  pub wait_after_minute :
      (endpoint : String) (w : ℤ) (start : ℕ) (between : List Action) (r : Round)
      (rounds : List Round) (l : Weighted F)
      → pos 1 ≤ℤ w
      → All IsCharge between
      → IsBounded l
      → 60 * l.capacity ≤ 2 ^ 53
      → Fits w l
      → IsDue endpoint r (run between l)
      → (wait endpoint w true start between (r ∷ rounds) l).1 ≡ ok
  unfolding wait charge wait_queued leave_queue wait_loop
  wait_after_minute endpoint w start between r rounds l hw c h small fits due =
      let entered = run between l in
      let queued = record entered { queue_depth = up entered.queue_depth } in
      let same = capacity-run between l in
      let h' = run-IsBounded order laws between l c h in
      let h'' : IsBounded queued = ground (arith, h') in
      let fits' : Fits w queued = rw same fits in
      let due' : IsDue endpoint r queued = ground (arith, due) in
      ground (arith, poll_due endpoint w r queued h'' (rw same small) fits' due')
