-- ===== src/Limiter/Starvation.antt =====
-- `Wait` of backend/internal/limiter/weighted.go for a weight above the capacity.
use maelstromhub.Prelude.{ℕ, ◌≡◌, refl, true, false, List, [], ◌∷◌, String, All, arith}
use maelstromhub.Prelude.Int.{ℤ, pos, ◌≤ℤ◌}
use maelstromhub.Float.{Float, num, of_int}
use maelstromhub.Float.Laws.{IsOrdered, IsArithmetic}
use maelstromhub.Float.Order
use maelstromhub.Limiter.{Weighted, refill, record_request, up}
use maelstromhub.Limiter.Steps.{
  Readings, Action, request, look, enter, leave, try, poll, perform, run,
}
use maelstromhub.Limiter.Bounds.{
  IsBounded, IsCharge, refill-IsBounded, poll-IsBounded, run-IsBounded,
}
use maelstromhub.Limiter.Wait.{
  Round, pending, is_granted, wait_loop, leave_queue, wait_queued, charge, wait,
}

module _ {ℓ} {F : Type ℓ} ⦃d : Float F⦄ where
  capacity-perform : (a : Action) (l : Weighted F) → (perform a l).capacity ≡ l.capacity
  unfolding perform record_request refill poll
  capacity-perform (request e t f s now) l = ground arith
  capacity-perform (look now) l = ground arith
  capacity-perform enter l = refl
  capacity-perform leave l = refl
  capacity-perform (try e w now) l = ground arith

  pub capacity-run :
      (actions : List Action) (l : Weighted F) → (run actions l).capacity ≡ l.capacity
  unfolding run
  capacity-run [] l = refl
  capacity-run (a ∷ actions) l = rw (capacity-run actions (perform a l)) (capacity-perform a l)

  capacity-refill : (now : ℕ) (l : Weighted F) → (refill now l).capacity ≡ l.capacity
  unfolding refill
  capacity-refill now l = ground arith

  capacity-poll :
      (e : String) (w : ℤ) (now : Readings) (l : Weighted F)
      → (poll e w now l).0.capacity ≡ l.capacity
  unfolding poll refill
  capacity-poll e w now l = ground arith

-- the other goroutines' weights are not negative, and the context is not done
abbrev pub IsQuiet : Round → Type 0
IsQuiet r = All IsCharge r.others × (r.done ≡ false)

module _ {ℓ} {F : Type ℓ} ⦃d : Float F⦄ where
  -- the weight is more than a full bucket
  abbrev pub IsOversized : ℤ → Weighted F → Type 0
  IsOversized w l = d.lt (num l.capacity) (of_int w) ≡ true

module _ {ℓ} {F : Type ℓ} ⦃d : Float F⦄ (order : IsOrdered F) (laws : IsArithmetic F) where
  open d use {le}

  poll_oversized :
      (e : String) (w : ℤ) (now : Readings) (l : Weighted F)
      → IsBounded l
      → IsOversized w l
      → is_granted (poll e w now l).1 ≡ false
  unfolding poll
  poll_oversized e w now l h big =
      let l' = refill now.refill_at l in
      let h' = refill-IsBounded order laws now.refill_at l h in
      let short = Order.not_le_of_lt order l'.tokens (of_int w) (
        Order.lt_of_le_lt order l'.tokens (num l'.capacity) (of_int w) h'.capped
          (rw (capacity-refill now.refill_at l) big)) in
      ground (arith, short)

  wait_loop_oversized :
      (e : String) (w : ℤ) (rounds : List Round) (l : Weighted F)
      → pos 0 ≤ℤ w
      → All IsQuiet rounds
      → IsBounded l
      → IsOversized w l
      → (wait_loop e w rounds l).1 ≡ pending
  unfolding wait_loop
  wait_loop_oversized e w [] l hw q h big = refl
  wait_loop_oversized e w (r ∷ rounds) l hw q h big =
      let polled = (poll e w r.now l).0 in
      let woken = run r.others polled in
      let h' =
        run-IsBounded order laws r.others polled q.0.0
          (poll-IsBounded order laws e w r.now l hw h) in
      rw (poll_oversized e w r.now l h big, q.0.1)
        (wait_loop_oversized e w rounds woken hw q.1 h'
          (rw (capacity-run r.others polled, capacity-poll e w r.now l) big))

  -- A critical request whose weight is more than the capacity waits as long as its context lives: no
  -- clock, no step of another goroutine and no number of rounds lets it through. The other weights are
  -- not negative, and the bucket is between empty and full to begin with.
  pub wait_oversized :
      (endpoint : String) (w : ℤ) (start : ℕ) (between : List Action) (rounds : List Round)
      (l : Weighted F)
      → pos 1 ≤ℤ w
      → All IsCharge between
      → All IsQuiet rounds
      → IsBounded l
      → IsOversized w l
      → (wait endpoint w true start between rounds l).1 ≡ pending
  unfolding wait charge wait_queued leave_queue
  wait_oversized endpoint w start between rounds l hw c q h big =
      let entered = run between l in
      let h' = run-IsBounded order laws between l c h in
      let queued = record entered { queue_depth = up entered.queue_depth } in
      let h'' : IsBounded queued = ground (arith, h') in
      let big' : IsOversized w queued = rw (capacity-run between l) big in
      ground (arith, wait_loop_oversized endpoint w rounds queued (omega arith) q h'' big')
