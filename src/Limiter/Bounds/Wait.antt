-- ===== src/Limiter/Bounds/Wait.antt =====
-- That `Wait` of backend/internal/limiter/weighted.go keeps the bucket between empty and full.
use maelstromhub.Prelude.{
  ℕ, Bool, true, false, not, ◌&&◌, List, [], ◌∷◌, String, All, Bool-cases, inl, inr, if◌then◌else◌,
}
use maelstromhub.Prelude.Int.{ℤ, pos, ◌≤ℤ◌, leb_ℤ}
use maelstromhub.Float.{Float}
use maelstromhub.Float.Laws.{IsOrdered, IsArithmetic}
use maelstromhub.Limiter.{Weighted, budget}
use maelstromhub.Limiter.Steps.{Action, enter, leave, poll, run, perform}
use maelstromhub.Limiter.Wait.{
  Round, Waited, ok, deferred, cancelled, pending, is_granted, wait_loop, reserve, leave_queue,
  wait_queued, charge, wait,
}
use maelstromhub.Limiter.Bounds.{
  IsBounded, IsCharge, refill-IsBounded, poll-IsBounded, perform-IsBounded, run-IsBounded,
}

-- No other goroutine charges a negative weight in the round.
abbrev pub IsTame : Round → Type 0
IsTame r = All IsCharge r.others

module _ {ℓ} {F : Type ℓ} ⦃d : Float F⦄ (order : IsOrdered F) (laws : IsArithmetic F) where
  wait_loop-IsBounded :
      (endpoint : String) (w : ℤ) (rounds : List Round) (l : Weighted F)
      → pos 0 ≤ℤ w
      → All IsTame rounds
      → IsBounded l
      → IsBounded (wait_loop endpoint w rounds l).0
  unfolding wait_loop
  wait_loop-IsBounded endpoint w [] l hw tame h = h
  wait_loop-IsBounded endpoint w (r ∷ rounds) l hw (t, tame) h =
      let (polled, outcome) = poll endpoint w r.now l in
      let h' = poll-IsBounded order laws endpoint w r.now l hw h in
      let h'' = run-IsBounded order laws r.others polled t h' in
      elim (Bool-cases (is_granted outcome)) [
        | inl granted ↦ rw granted h'
        | inr refused ↦ elim (Bool-cases r.done) [
          | inl over ↦ rw (refused, over) h''
          | inr on ↦
              rw (refused, on)
                (wait_loop-IsBounded endpoint w rounds (run r.others polled) hw tame h'')
        ]
      ]

  leave_queue-IsBounded : (p : Weighted F × Waited) → IsBounded p.0 → IsBounded (leave_queue p).0
  unfolding leave_queue perform
  leave_queue-IsBounded (l, ok) h = perform-IsBounded order laws leave l tt h
  leave_queue-IsBounded (l, deferred) h = perform-IsBounded order laws leave l tt h
  leave_queue-IsBounded (l, cancelled) h = perform-IsBounded order laws leave l tt h
  leave_queue-IsBounded (l, pending) h = h

  wait_queued-IsBounded :
      (endpoint : String) (w : ℤ) (rounds : List Round) (l : Weighted F)
      → pos 0 ≤ℤ w
      → All IsTame rounds
      → IsBounded l
      → IsBounded (wait_queued endpoint w rounds l).0
  unfolding wait_queued perform
  wait_queued-IsBounded endpoint w rounds l hw tame h =
      leave_queue-IsBounded _ (
        wait_loop-IsBounded endpoint w rounds _ hw tame (perform-IsBounded order laws enter l tt h))

  first-IsBounded :
      (critical : Bool) (start : ℕ) (l : Weighted F)
      → IsBounded l
      → IsBounded (if critical then l else (budget start l).0)
  unfolding budget
  first-IsBounded true start l h = h
  first-IsBounded false start l h = refill-IsBounded order laws start l h

  -- A call of `Wait` leaves the bucket between empty and full, whatever its outcome.
  pub wait-IsBounded :
      (endpoint : String) (w : ℤ) (critical : Bool) (start : ℕ) (between : List Action)
      (rounds : List Round) (l : Weighted F)
      → pos 0 ≤ℤ charge endpoint w l
      → All IsCharge between
      → All IsTame rounds
      → IsBounded l
      → IsBounded (wait endpoint w critical start between rounds l).0
  unfolding wait
  wait-IsBounded endpoint w critical start between rounds l hw tame_between tame h =
      let (looked, left) = budget start l in
      let first = if critical then l else looked in
      let h' = first-IsBounded critical start l h in
      elim (Bool-cases (not critical && leb_ℤ left (reserve l))) [
        | inl off ↦ rw off h'
        | inr on ↦ rw on (
            wait_queued-IsBounded endpoint (charge endpoint w l) rounds (run between first) hw tame
              (run-IsBounded order laws between first tame_between h'))
      ]
