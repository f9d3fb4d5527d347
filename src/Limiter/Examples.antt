-- ===== src/Limiter/Examples.antt =====
-- The theorems about backend/internal/limiter/weighted.go at concrete limiters, over thousandths.
use maelstromhub.Prelude.{ℕ, ◌+◌, ◌*◌, ◌≡◌, refl, true, false, List, [], ◌∷◌, arith}
use maelstromhub.Prelude.Int.{pos}
use maelstromhub.Prelude.Dict.{read, lookup, insert}
use maelstromhub.Float.Fixed.{
  Fixed, fixed_float, fixed_le, fixed_add, fixed_neg, fixed_mul, fixed_div, fixed_decimal,
  fixed_seconds, fixed_ceil, fixed_trunc,
}
use maelstromhub.Float.Fixed.Laws.{Fixed-IsOrdered, Fixed-IsArithmetic}
use maelstromhub.Limiter.{
  Config, Weighted, second, minute, new, refill, budget, next_cooldown, record_request,
}
use maelstromhub.Limiter.Steps.{
  Readings, Action, request, look, enter, leave, try, poll, perform, run,
}
use maelstromhub.Limiter.Wait.{
  Round, ok, deferred, pending, is_granted, wait, wait_loop, wait_queued, leave_queue, charge,
  reserve,
}
use maelstromhub.Limiter.Bounds.{IsBounded, new-IsBounded, run-IsBounded}
use maelstromhub.Limiter.Cooldown.{backoff, cooldown-run}
use maelstromhub.Limiter.Pause.{paused_run}
use maelstromhub.Limiter.Metrics.{metrics, shown, metrics-run}
use maelstromhub.Limiter.Starvation.{wait_oversized}
use maelstromhub.Limiter.Queue.{wait-queue_depth}
use maelstromhub.Limiter.Progress.{wait_after_minute}

abbrev small : Config
small = record { capacity_per_minute = pos 10; endpoint_weights = ("x", pos 9) ∷ [] }

abbrev fresh : Weighted Fixed
fresh = new small 0

abbrev at : ℕ → Readings
at t = record { refill_at = t; check_at = t; until_at = t }

abbrev quiet : ℕ → Round
quiet t = record { now = at t; others = look t ∷ []; done = false }

abbrev stop : ℕ → Round
stop t = record { now = at t; others = enter ∷ leave ∷ []; done = true }

abbrev steps : List Action
steps =
    try "x" (pos 9) (at 5)
    ∷ request "x" 1_000_000 false 429 5
    ∷ request "y" 2_000_000 true 0 6
    ∷ look second
    ∷ request "x" 1_000_000 true 500 (11 * second)
    ∷ request "x" 1_000_000 false 429 (12 * second)
    ∷ []

-- the first test of weighted_test.go: nine of ten tokens are taken, and the next call is put off
defers_when_low :
    let (after, outcome) = wait "x" (pos 9) true 0 [] (quiet 0 ∷ []) fresh in
    (outcome ≡ ok) × ((wait "x" (pos 1) false 0 [] [] after).1 ≡ deferred)
unfolding wait wait_queued wait_loop leave_queue charge reserve poll refill budget new read lookup
    fixed_le fixed_add fixed_neg fixed_mul fixed_div fixed_decimal fixed_seconds fixed_ceil
    fixed_trunc run perform
defers_when_low = (refl, refl)

-- the second one: a 429 is counted, and pauses the endpoint for ten seconds
pauses_after_429 :
    let l = record_request "recentTrades" 1_000_000 false 429 7 fresh in
    (l.count_429 ≡ 1) × (read 0 "recentTrades" l.paused_until ≡ 7 + 10 * second)
unfolding record_request new read lookup insert next_cooldown
pauses_after_429 = (refl, refl)

fresh-IsBounded : IsBounded fresh
fresh-IsBounded = new-IsBounded Fixed-IsOrdered Fixed-IsArithmetic small 0 (omega arith)

run-IsBounded_example : IsBounded (run steps fresh)
run-IsBounded_example =
    run-IsBounded Fixed-IsOrdered Fixed-IsArithmetic steps fresh (omega arith) fresh-IsBounded

cooldown-run_example : read 0 "x" (run steps fresh).cooldowns ≡ 20 * second
unfolding backoff
cooldown-run_example = cooldown-run Fixed small 0 "x" steps

-- the third 429 in a row pauses the endpoint for forty seconds
paused_run_example :
    is_granted
      (poll "x" (pos 1) (at (59 * second)) (
        run
          (look (30 * second) ∷ [])
          (record_request "x" 1_000_000 false 429 (20 * second) (run steps fresh)))).1
    ≡ false
unfolding backoff
paused_run_example =
    paused_run Fixed small 0 "x" steps 1_000_000 false (20 * second) (look (30 * second) ∷ [])
      (pos 1) (at (59 * second)) (tt, tt) (omega arith)

wait_oversized_example :
    (wait "x" (pos 11) true 0 [] (quiet minute ∷ quiet (5 * minute) ∷ []) fresh).1 ≡ pending
unfolding new fixed_le fixed_decimal
wait_oversized_example =
    wait_oversized Fixed-IsOrdered Fixed-IsArithmetic "x" (pos 11) 0 []
      (quiet minute ∷ quiet (5 * minute) ∷ []) fresh (omega arith) tt
      (((tt, tt), refl), (((tt, tt), refl), tt)) fresh-IsBounded refl

wait-queue_depth_example :
    (wait "x" (pos 11) true 0 [] (quiet 0 ∷ stop second ∷ []) fresh).0.queue_depth ≡ 0
unfolding wait wait_queued wait_loop leave_queue charge poll refill new read lookup fixed_le
    fixed_add fixed_mul fixed_div fixed_decimal fixed_seconds run perform
wait-queue_depth_example =
    wait-queue_depth "x" (pos 11) true 0 [] (quiet 0 ∷ stop second ∷ []) fresh (omega arith) refl
      (refl, (refl, tt)) (λ e. cc)

wait_after_minute_example :
    (wait "x" (pos 10) true 0 (try "x" (pos 10) (at 0) ∷ []) (quiet minute ∷ []) fresh).1 ≡ ok
unfolding new run perform poll refill read lookup fixed_le fixed_add fixed_neg fixed_mul fixed_div
    fixed_decimal fixed_seconds
wait_after_minute_example =
    wait_after_minute Fixed-IsOrdered Fixed-IsArithmetic "x" (pos 10) 0
      (try "x" (pos 10) (at 0) ∷ []) (quiet minute) [] fresh (omega arith) (omega arith)
      fresh-IsBounded (omega arith) refl (record { rested = omega arith; unpaused = omega arith })

metrics-run_example :
    let l = run steps fresh in
    let m = (metrics (13 * second) (14 * second) l).1 in
    (read 0 "x" m.requests_by_endpoint ≡ 3)
    × (read 0 "x" m.failures_by_endpoint ≡ 3)
    × (m.count_429 ≡ 2)
    × (lookup "x" m.paused_endpoints ≡ shown (14 * second) (read 0 "x" l.paused_until))
metrics-run_example = metrics-run Fixed small 0 "x" steps (13 * second) (14 * second)
