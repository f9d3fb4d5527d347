-- ===== src/Limiter/Gate.antt =====
-- Which calls of `Wait` (backend/internal/limiter/weighted.go) are put off.
use maelstromhub.Prelude.{ℕ, ◌≡◌, ◌≢◌, ◌↔◌, Bool, false, List, [], ◌∷◌, String, arith}
use maelstromhub.Prelude.Int.{ℤ, ◌≤ℤ◌}
use maelstromhub.Float.{Float}
use maelstromhub.Limiter.{Weighted, refill, budget}
use maelstromhub.Limiter.Steps.{Action, poll, run}
use maelstromhub.Limiter.Wait.{
  Round, Waited, ok, deferred, cancelled, pending, wait_loop, leave_queue, wait_queued, reserve,
  charge, wait,
}

module _ {ℓ} {F : Type ℓ} ⦃d : Float F⦄ where
  wait_loop-ne-deferred :
      (e : String) (w : ℤ) (rounds : List Round) (l : Weighted F)
      → (wait_loop e w rounds l).1 ≢ deferred
  unfolding wait_loop
  wait_loop-ne-deferred e w [] l = ground arith
  wait_loop-ne-deferred e w (r ∷ rounds) l =
      ground (arith, wait_loop-ne-deferred e w rounds (run r.others (poll e w r.now l).0))

  leave_queue-ne-deferred :
      (s : Weighted F × Waited) → s.1 ≢ deferred → (leave_queue s).1 ≢ deferred
  unfolding leave_queue
  leave_queue-ne-deferred (l, ok) h = h
  leave_queue-ne-deferred (l, deferred) h = h
  leave_queue-ne-deferred (l, cancelled) h = h
  leave_queue-ne-deferred (l, pending) h = h

  wait_queued-ne-deferred :
      (e : String) (w : ℤ) (rounds : List Round) (l : Weighted F)
      → (wait_queued e w rounds l).1 ≢ deferred
  unfolding wait_queued
  wait_queued-ne-deferred e w rounds l =
      leave_queue-ne-deferred _ (wait_loop-ne-deferred e w rounds _)

  -- A call is put off exactly when it is not critical and the whole tokens left after a refill are at
  -- most the reserve. It then changes nothing but that refill: no token is taken and the queue is left
  -- alone.
  pub wait_deferred :
      (endpoint : String) (w : ℤ) (critical : Bool) (start : ℕ) (between : List Action)
      (rounds : List Round) (l : Weighted F)
      → let result = wait endpoint w critical start between rounds l in
        ((result.1 ≡ deferred) ↔ ((critical ≡ false) × ((budget start l).1 ≤ℤ reserve l)))
        × ((result.1 ≡ deferred) ↔ (result ≡ (refill start l, deferred)))
  unfolding wait budget
  wait_deferred endpoint w critical start between rounds l =
      let w' = charge endpoint w l in
      let here = wait_queued-ne-deferred endpoint w' rounds (run between l) in
      let there = wait_queued-ne-deferred endpoint w' rounds (run between (refill start l)) in
      ground (arith, here, there)
