-- ===== src/Limiter/Queue.antt =====
-- The queue depth of backend/internal/limiter/weighted.go, over the calls of `Wait`.
use maelstromhub.Prelude.{
  ℕ, ◌+◌, ◌-◌, ◌*◌, ◌%◌, ◌^◌, ◌<◌, ◌≡◌, ◌≢◌, refl, Bool, true, false, List, [], ◌∷◌, String, All,
  arith,
}
use maelstromhub.Prelude.Int.{ℤ}
use maelstromhub.Float.{Float}
use maelstromhub.Limiter.{Weighted, refill, record_request, budget, up, down}
use maelstromhub.Limiter.Steps.{
  Readings, Action, request, look, enter, leave, try, poll, perform, run, count,
}
use maelstromhub.Limiter.Wait.{
  Round, Waited, ok, deferred, cancelled, pending, wait_loop, leave_queue, wait_queued, charge,
  wait,
}

abbrev pub is_enter : Action → Bool
is_enter (request e latency failed status now) = false
is_enter (look now) = false
is_enter enter = true
is_enter leave = false
is_enter (try e w now) = false

abbrev pub is_leave : Action → Bool
is_leave (request e latency failed status now) = false
is_leave (look now) = false
is_leave enter = false
is_leave leave = true
is_leave (try e w now) = false

-- as many other calls join the queue as leave it
abbrev pub IsBalanced : List Action → Type 0
IsBalanced actions = count is_enter actions ≡ count is_leave actions

abbrev pub IsBalancedRound : Round → Type 0
IsBalancedRound r = IsBalanced r.others

module _ {ℓ} {F : Type ℓ} ⦃d : Float F⦄ where
  depth-perform :
      (a : Action) (l : Weighted F)
      → l.queue_depth < 2 ^ 64
      → (perform a l).queue_depth
        ≡ (l.queue_depth + count is_enter (a ∷ []) + (2 ^ 64 - 1) * count is_leave (a ∷ []))
          % 2 ^ 64
  unfolding perform record_request refill poll
  depth-perform (request e t f s now) l h = ground arith
  depth-perform (look now) l h = ground arith
  depth-perform enter l h = ground arith
  depth-perform leave l h = ground arith
  depth-perform (try e w now) l h = ground arith

  depth-run :
      (actions : List Action) (l : Weighted F)
      → l.queue_depth < 2 ^ 64
      → (run actions l).queue_depth
        ≡ (l.queue_depth + count is_enter actions + (2 ^ 64 - 1) * count is_leave actions) % 2 ^ 64
  unfolding run
  depth-run [] l h = omega arith
  depth-run (a ∷ actions) l h =
      let step = depth-perform a l h in
      omega (arith, step, depth-run actions (perform a l) (omega (arith, step)))

  depth-balanced :
      (actions : List Action) (l : Weighted F)
      → l.queue_depth < 2 ^ 64
      → IsBalanced actions
      → (run actions l).queue_depth ≡ l.queue_depth
  depth-balanced actions l h b = omega (arith, depth-run actions l h)

  depth-poll :
      (e : String) (w : ℤ) (now : Readings) (l : Weighted F)
      → (poll e w now l).0.queue_depth ≡ l.queue_depth
  unfolding poll refill
  depth-poll e w now l = ground arith

  depth-wait_loop :
      (e : String) (w : ℤ) (rounds : List Round) (l : Weighted F)
      → l.queue_depth < 2 ^ 64
      → All IsBalancedRound rounds
      → (wait_loop e w rounds l).0.queue_depth ≡ l.queue_depth
  unfolding wait_loop
  depth-wait_loop e w [] l h b = refl
  depth-wait_loop e w (r ∷ rounds) l h b =
      let polled = (poll e w r.now l).0 in
      let same = depth-poll e w r.now l in
      let woken = depth-balanced r.others polled (rw same h) b.0 in
      ground (
        arith,
        same,
        woken,
        depth-wait_loop e w rounds (run r.others polled) (rw (woken, same) h) b.1,
      )

  depth-leave_queue :
      (s : Weighted F × Waited)
      → (leave_queue s).1 ≢ pending
      → (leave_queue s).0.queue_depth ≡ down s.0.queue_depth
  unfolding leave_queue
  depth-leave_queue (l, ok) h = refl
  depth-leave_queue (l, deferred) h = refl
  depth-leave_queue (l, cancelled) h = refl
  depth-leave_queue (l, pending) h = absurd (h refl)

  depth-wait_queued :
      (e : String) (w : ℤ) (rounds : List Round) (l : Weighted F)
      → l.queue_depth < 2 ^ 64
      → All IsBalancedRound rounds
      → (wait_queued e w rounds l).1 ≢ pending
      → (wait_queued e w rounds l).0.queue_depth ≡ l.queue_depth
  unfolding wait_queued
  depth-wait_queued e w rounds l h b returned =
      let entered = record l { queue_depth = up l.queue_depth } in
      omega (
        arith,
        depth-leave_queue (wait_loop e w rounds entered) returned,
        depth-wait_loop e w rounds entered (omega arith) b,
      )

  depth-refill : (now : ℕ) (l : Weighted F) → (refill now l).queue_depth ≡ l.queue_depth
  unfolding refill
  depth-refill now l = ground arith

  -- Whenever `Wait` returns, with whatever outcome, the queue is as deep as it was before the call, if
  -- in each gap that the call leaves to other goroutines as many of them join the queue as leave it.
  pub wait-queue_depth :
      (endpoint : String) (w : ℤ) (critical : Bool) (start : ℕ) (between : List Action)
      (rounds : List Round) (l : Weighted F)
      → l.queue_depth < 2 ^ 64
      → IsBalanced between
      → All IsBalancedRound rounds
      → (wait endpoint w critical start between rounds l).1 ≢ pending
      → (wait endpoint w critical start between rounds l).0.queue_depth ≡ l.queue_depth
  unfolding wait budget
  wait-queue_depth endpoint w critical start between rounds l h b bs returned =
      let w' = charge endpoint w l in
      let looked = refill start l in
      let fits = depth-refill start l in
      let here = depth-balanced between l h b in
      let there = depth-balanced between looked (rw fits h) b in
      ground (
        arith,
        fits,
        here,
        there,
        depth-wait_queued endpoint w' rounds (run between l) (rw here h) bs,
        depth-wait_queued endpoint w' rounds (run between looked) (rw (there, fits) h) bs,
      )
