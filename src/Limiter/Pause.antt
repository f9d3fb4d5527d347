-- ===== src/Limiter/Pause.antt =====
-- The pause of an endpoint after a 429 (backend/internal/limiter/weighted.go).
use text.Mathlib.TextEquality.{eq_iff}
use maelstromhub.Prelude.{
  ℕ, suc, ◌+◌, ◌*◌, ◌≤◌, ◌<◌, ◌≡◌, Bool, false, List, [], ◌∷◌, String, All, arith,
}
use maelstromhub.Prelude.Int.{ℤ}
use maelstromhub.Prelude.Dict.{read, read-insert}
use maelstromhub.Float.{Float}
use maelstromhub.Limiter.{Config, Weighted, minute, new, refill, next_cooldown, record_request}
use maelstromhub.Limiter.Steps.{
  Readings, Action, request, look, enter, leave, try, poll, perform, run,
}
use maelstromhub.Limiter.Wait.{is_granted}
use maelstromhub.Limiter.Cooldown.{
  count_429s, backoff, backoff-le, next_cooldown-backoff, le-next_cooldown, next_cooldown-le,
  cooldown-run,
}

-- the requests are recorded at `t` or later
abbrev pub IsAfter : ℕ → Action → Type 0
IsAfter t (request e latency failed status now) = t ≤ now
IsAfter t (look now) = Unit
IsAfter t enter = Unit
IsAfter t leave = Unit
IsAfter t (try e w now) = Unit

module _ {ℓ} {F : Type ℓ} ⦃d : Float F⦄ where
  -- the endpoint's pause reaches `t + c`, and its cooldown is between `c` and five minutes
  pub record IsPaused (endpoint : String) (t c : ℕ) (l : Weighted F) : Type 0 where
    pub reaches : t + c ≤ read 0 endpoint l.paused_until
    pub grown : c ≤ read 0 endpoint l.cooldowns
    pub capped : read 0 endpoint l.cooldowns ≤ 5 * minute

  pub perform-IsPaused :
      (endpoint : String) (t c : ℕ) (a : Action) (l : Weighted F)
      → IsAfter t a
      → IsPaused endpoint t c l
      → IsPaused endpoint t c (perform a l)
  unfolding perform record_request refill poll
  perform-IsPaused endpoint t c (request e latency f s now) l h p =
      let next = next_cooldown (read 0 e l.cooldowns) in
      ground (
        arith,
        p,
        eq_iff e endpoint,
        read-insert 0 e endpoint next l.cooldowns,
        read-insert 0 e endpoint (now + next) l.paused_until,
        le-next_cooldown (read 0 e l.cooldowns),
        next_cooldown-le (read 0 e l.cooldowns),
      )
  perform-IsPaused endpoint t c (look now) l h p = ground (arith, p)
  perform-IsPaused endpoint t c enter l h p = ground (arith, p)
  perform-IsPaused endpoint t c leave l h p = ground (arith, p)
  perform-IsPaused endpoint t c (try e w now) l h p = ground (arith, p)

  pub run-IsPaused :
      (endpoint : String) (t c : ℕ) (actions : List Action) (l : Weighted F)
      → All (IsAfter t) actions
      → IsPaused endpoint t c l
      → IsPaused endpoint t c (run actions l)
  unfolding run
  run-IsPaused endpoint t c [] l h p = p
  run-IsPaused endpoint t c (a ∷ actions) l h p =
      run-IsPaused endpoint t c actions (perform a l) h.1 (perform-IsPaused endpoint t c a l h.0 p)

  pub IsPaused-start :
      (endpoint : String) (latency : ℕ) (failed : Bool) (t : ℕ) (l : Weighted F)
      → read 0 endpoint l.cooldowns ≤ 5 * minute
      → IsPaused endpoint t
          (next_cooldown (read 0 endpoint l.cooldowns))
          (record_request endpoint latency failed 429 t l)
  unfolding record_request
  IsPaused-start endpoint latency failed t l h =
      let next = next_cooldown (read 0 endpoint l.cooldowns) in
      ground (
        arith,
        eq_iff endpoint endpoint,
        read-insert 0 endpoint endpoint next l.cooldowns,
        read-insert 0 endpoint endpoint (t + next) l.paused_until,
        next_cooldown-le (read 0 endpoint l.cooldowns),
      )

  pub poll-IsPaused :
      (endpoint : String) (w : ℤ) (t c : ℕ) (now : Readings) (l : Weighted F)
      → IsPaused endpoint t c l
      → now.check_at < t + c
      → is_granted (poll endpoint w now l).1 ≡ false
  unfolding poll refill
  poll-IsPaused endpoint w t c now l p h = ground (arith, p)

module _ {ℓ} (F : Type ℓ) ⦃d : Float F⦄ where
  -- Take any run of a new limiter, then a 429 of an endpoint recorded at the time `t`, then any steps
  -- whose requests are recorded no earlier. Until the cooldown has passed since `t`, no `Wait` for the
  -- endpoint is let through. The cooldown is `backoff` of the number of the endpoint's 429s.
  pub paused_run :
      (cfg : Config) (start : ℕ) (endpoint : String) (before : List Action) (latency : ℕ)
      (failed : Bool) (t : ℕ) (after : List Action) (w : ℤ) (now : Readings)
      → All (IsAfter t) after
      → now.check_at < t + backoff (suc (count_429s endpoint before))
      → let fresh : Weighted F = new cfg start in
        let limited = record_request endpoint latency failed 429 t (run before fresh) in
        is_granted (poll endpoint w now (run after limited)).1 ≡ false
  paused_run cfg start endpoint before latency failed t after w now h early =
      let l = run {F = F} before (new cfg start) in
      let k = count_429s endpoint before in
      let e : read 0 endpoint l.cooldowns ≡ backoff k = cooldown-run F cfg start endpoint before in
      poll-IsPaused endpoint w t (next_cooldown (read 0 endpoint l.cooldowns)) now _
        (run-IsPaused endpoint t _ after _ h
          (IsPaused-start endpoint latency failed t l (rw e (backoff-le k))))
        (rw (e, next_cooldown-backoff k) early)
