-- ===== src/Limiter/Wait.antt =====
-- `Wait` of backend/internal/limiter/weighted.go: the gate for requests that can be put off, then a
-- loop that ends when the tokens cover the weight or the context is done.
--
-- The loop runs over a list of rounds. A round holds what the environment decides: the clock, the
-- steps of other goroutines while this one sleeps, and whether the context is done when it wakes.
-- `pending` is a call that has not returned when the list ends.
use maelstromhub.Prelude.{ℕ, Bool, true, false, not, ◌&&◌, List, [], ◌∷◌, String, if◌then◌else◌}
use maelstromhub.Prelude.Int.{ℤ, pos, leb_ℤ}
use maelstromhub.Float.{Float, num}
use maelstromhub.Limiter.{Weighted, up, down, weight, budget}
use maelstromhub.Limiter.Steps.{Readings, Polled, granted, paused, short, Action, poll, run}

pub record Round : Type 0 where
  pub now : Readings
  pub others : List Action
  pub done : Bool

pub data Waited : Type 0 where
  ok : Waited
  deferred : Waited  -- `ErrDeferred`
  cancelled : Waited  -- `ctx.Err()`
  pending : Waited

abbrev pub is_granted : Polled → Bool
is_granted granted = true
is_granted (paused _) = false
is_granted short = false

module _ {ℓ} {F : Type ℓ} ⦃d : Float F⦄ where
  open d use {mul, ceil, trunc, decimal}

  unfoldable pub wait_loop : String → ℤ → List Round → Weighted F → Weighted F × Waited
  wait_loop endpoint w [] l = (l, pending)
  wait_loop endpoint w (r ∷ rounds) l =
      let (polled, outcome) = poll endpoint w r.now l in
      let woken = run r.others polled in
      let rest = wait_loop endpoint w rounds woken in
      if is_granted outcome then (polled, ok) else if r.done then (woken, cancelled) else rest

  -- `int(math.Ceil(float64(l.capacity)*0.08))`
  unfoldable pub reserve : Weighted F → ℤ
  reserve l = trunc (ceil (mul (num l.capacity) (decimal 8 2)))

  -- the deferred `l.queueDepth--`, once the call returns
  unfoldable pub leave_queue : Weighted F × Waited → Weighted F × Waited
  leave_queue (l, pending) = (l, pending)
  leave_queue (l, ok) = (record l { queue_depth = down l.queue_depth }, ok)
  leave_queue (l, deferred) = (record l { queue_depth = down l.queue_depth }, deferred)
  leave_queue (l, cancelled) = (record l { queue_depth = down l.queue_depth }, cancelled)

  -- from `l.queueDepth++` to the end
  unfoldable pub wait_queued : String → ℤ → List Round → Weighted F → Weighted F × Waited
  wait_queued endpoint w rounds l =
      leave_queue (wait_loop endpoint w rounds (record l { queue_depth = up l.queue_depth }))

  -- the weight that `Wait` charges
  unfoldable pub charge : String → ℤ → Weighted F → ℤ
  charge endpoint w l = if leb_ℤ w (pos 0) then weight l endpoint (pos 0) else w

  -- `Wait`: `start` is the reading of `Budget`, and `between` what other goroutines do from there to
  -- `l.queueDepth++`.
  unfoldable pub wait :
      String → ℤ → Bool → ℕ → List Action → List Round → Weighted F → Weighted F × Waited
  wait endpoint w critical start between rounds l =
      let (looked, left) = budget start l in
      let w' = charge endpoint w l in
      let first = if critical then l else looked in
      if not critical && leb_ℤ left (reserve l)
      then (first, deferred)
      else wait_queued endpoint w' rounds (run between first)
