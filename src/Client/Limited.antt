-- ===== src/Client/Limited.antt =====
-- The client (backend/internal/hyperliquid/client.go) over the limiter that the server gives it
-- (backend/internal/limiter/weighted.go): what the retries of one call cost, and when they are sent.
use text.Mathlib.TextEquality.{eq_iff}
use maelstromhub.Prelude.{
  ℕ, zero, suc, ◌+◌, ◌*◌, ◌%◌, ◌^◌, ◌≤◌, ◌<◌, ◌≡◌, refl, Bool, true, false, Option, List, String,
  arith, ◌∙◌, ap,
}
use maelstromhub.Prelude.Int.{ℤ}
use maelstromhub.Prelude.Dict.{read, read-insert}
use maelstromhub.Float.{Float}
use maelstromhub.Limiter.{Weighted, second, up, next_cooldown, weight, record_request}
use maelstromhub.Limiter.Steps.{Readings, Action, request, perform, poll}
use maelstromhub.Limiter.Wait.{Round, Waited, ok, deferred, cancelled, pending, is_granted, wait}
use maelstromhub.Limiter.Cooldown.{backoff, backoff-le, next_cooldown-backoff, ten_seconds}
use maelstromhub.Limiter.Pause.{IsPaused, IsPaused-start, perform-IsPaused, poll-IsPaused}
use maelstromhub.Client.{
  Bytes, answer, Outcome, value, error, is_error, do_info, Attempt, RateLimiter, Admission,
  admitted, rejected, waiting, Ended, returned, info, noted, retry, cancelled as stopped,
}
use maelstromhub.Client.Retry.{records, EndsWith, info_attempts, retry_continue, retry_value}

-- what the environment of one `Wait` decides
pub record Gap : Type 0 where
  pub start : ℕ
  pub between : List Action
  pub rounds : List Round

abbrev pub admission : Waited → Admission
admission ok = admitted
admission deferred = rejected
admission cancelled = rejected
admission pending = waiting

module _ {ℓ} {F : Type ℓ} ⦃d : Float F⦄ where
  abbrev pub wait_in : String → ℤ → Bool → Gap → Weighted F → Weighted F × Admission
  wait_in endpoint w critical gap l =
      let (l', outcome) = wait endpoint w critical gap.start gap.between gap.rounds l in
      (l', admission outcome)

  -- `*limiter.Weighted` as the client's `RateLimiter`
  abbrev pub weighted_limiter : RateLimiter (Weighted F) Gap
  weighted_limiter = record { wait = wait_in; weight = weight; note = record_request }

module _ {ℓ κ} {F : Type ℓ} ⦃d : Float F⦄ {A : Type κ} (decode : Bytes → Option A)
    (endpoint : String) (attempts : ℕ → Attempt) where
  noted_effect :
      (n : ℕ) (l : Weighted F)
      → let l' = noted weighted_limiter decode endpoint attempts n l in
        (l'.tokens ≡ l.tokens) × (read 0 endpoint l'.requests ≡ up (read 0 endpoint l.requests))
  unfolding record_request
  noted_effect n l = ground (
    arith,
    eq_iff endpoint endpoint,
    read-insert 0 endpoint endpoint (up (read 0 endpoint l.requests)) l.requests,
  )

  pub records_effect :
      (count n : ℕ) (l : Weighted F)
      → read 0 endpoint l.requests < 2 ^ 64
      → let l' = records weighted_limiter decode endpoint attempts count n l in
        (l'.tokens ≡ l.tokens)
        × (read 0 endpoint l'.requests ≡ (read 0 endpoint l.requests + count) % 2 ^ 64)
  unfolding records
  records_effect zero n l h = (refl, omega arith)
  records_effect (suc count) n l h =
      let (same, more) = noted_effect n l in
      let (same', more') =
        records_effect count (suc n) (noted weighted_limiter decode endpoint attempts n l)
          (omega (arith, more)) in
      (same' ∙ same, omega (arith, more, more'))

  -- The tokens pay for one request, however many are sent: a call that the limiter lets pass counts up to
  -- four requests of the endpoint, and takes no token beyond those that `Wait` took.
  pub info_charges_once :
      (critical : Bool) (additional : ℤ) (gap : Gap) (l l' : Weighted F)
      → wait_in endpoint (weight l endpoint additional) critical gap l ≡ (l', admitted)
      → read 0 endpoint l'.requests < 2 ^ 64
      → let after =
          (info (weighted_limiter {F = F}) decode endpoint attempts critical additional gap l).0 in
        (m : ℕ) × EndsWith decode attempts 3 0 m
        × (after.tokens ≡ l'.tokens)
        × (read 0 endpoint after.requests ≡ (read 0 endpoint l'.requests + suc m) % 2 ^ 64)
  info_charges_once critical additional gap l l' pass small =
      let (m, ends, same) =
        info_attempts weighted_limiter decode endpoint attempts critical additional gap l l' pass in
      let (tokens, requests) = records_effect (suc m) 0 l' small in
      (
        m,
        ends,
        ap (λ (p : Weighted F × Ended A). p.0.tokens) same ∙ tokens,
        ap (λ (p : Weighted F × Ended A). read 0 endpoint p.0.requests) same ∙ requests,
      )

  noted_429 :
      (l : Weighted F) {body : Bytes}
      → (attempts 0).exchange ≡ answer 429 body
      → noted weighted_limiter decode endpoint attempts 0 l
        ≡ record_request endpoint (attempts 0).latency true 429 (attempts 0).recorded_at l
  unfolding do_info
  noted_429 l limited = rw limited

  retry_second :
      (last : Outcome A) (l : Weighted F) {body : Bytes} {status : ℕ} {v : A}
      → (attempts 0).exchange ≡ answer 429 body
      → (attempts 0).interrupted ≡ false
      → do_info decode (attempts 1).exchange ≡ (status, value v)
      → retry weighted_limiter decode endpoint attempts 4 0 last l ≡ (
        noted weighted_limiter decode endpoint attempts 1
            (noted weighted_limiter decode endpoint attempts 0 l),
        value v,
      )
  unfolding do_info
  retry_second last l limited slept found =
      retry_continue weighted_limiter decode endpoint attempts 3 0 last l (rw (limited, slept))
      ∙ retry_value weighted_limiter decode endpoint attempts 2 1 _ _ found

  second_pause :
      (l : Weighted F) (k : ℕ) {body : Bytes}
      → (attempts 0).exchange ≡ answer 429 body
      → read 0 endpoint l.cooldowns ≡ backoff k
      → (attempts 0).recorded_at ≤ (attempts 1).recorded_at
      → IsPaused endpoint (attempts 0).recorded_at (backoff (suc k)) (
          noted weighted_limiter decode endpoint attempts 1
            (noted weighted_limiter decode endpoint attempts 0 l))
  unfolding perform
  second_pause l k limited cool later =
      let a = attempts 0 in
      let b = attempts 1 in
      let (status, outcome) = do_info decode b.exchange in
      let first = record_request endpoint a.latency true 429 a.recorded_at l in
      let start = IsPaused-start endpoint a.latency true a.recorded_at l (rw cool (backoff-le k)) in
      rw (noted_429 l limited, ← next_cooldown-backoff, ← cool)
        (perform-IsPaused endpoint a.recorded_at (next_cooldown (read 0 endpoint l.cooldowns))
          (request endpoint b.latency (is_error outcome) status b.recorded_at) first later start)

  -- A call does not keep the pause that its own 429 sets. If its first request is answered by 429 and its
  -- second by a value, the call returns that value, and leaves the limiter in a state where, until ten
  -- seconds after the 429, any `Wait` for the endpoint finds it paused. The endpoint's cooldown is one
  -- that a run of the limiter leaves, and the clock does not go back between the two answers.
  pub retry_in_pause :
      (critical : Bool) (additional : ℤ) (gap : Gap) (l l' : Weighted F) (body : Bytes) (status : ℕ)
      (v : A) (k : ℕ) (w : ℤ) (now : Readings)
      → wait_in endpoint (weight l endpoint additional) critical gap l ≡ (l', admitted)
      → (attempts 0).exchange ≡ answer 429 body
      → (attempts 0).interrupted ≡ false
      → do_info decode (attempts 1).exchange ≡ (status, value v)
      → read 0 endpoint l'.cooldowns ≡ backoff k
      → (attempts 0).recorded_at ≤ (attempts 1).recorded_at
      → now.check_at < (attempts 0).recorded_at + 10 * second
      → let (after, result) =
          info (weighted_limiter {F = F}) decode endpoint attempts critical additional gap l in
        (result ≡ returned (value v)) × (is_granted (poll endpoint w now after).1 ≡ false)
  unfolding info
  retry_in_pause critical additional gap l l' body status v k w now pass limited slept found cool
        later early =
      let same = retry_second (error stopped) l' limited slept found in
      let ended : info weighted_limiter decode endpoint attempts critical additional gap l ≡ (
        noted weighted_limiter decode endpoint attempts 1
            (noted weighted_limiter decode endpoint attempts 0 l'),
        returned (value v),
      ) =
        rw pass (ap (λ (p : Weighted F × Outcome A). (p.0, returned p.1)) same) in
      rw ended (
        refl,
        poll-IsPaused endpoint w _ _ now _ (second_pause l' k limited cool later)
            (omega (arith, ten_seconds k)),
      )
