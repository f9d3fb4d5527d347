-- ===== src/Limiter/Metrics.antt =====
-- `Metrics` of backend/internal/limiter/weighted.go: the view of the limiter that the dashboard shows.
use text.Mathlib.TextEquality.{eq_iff}
use maelstromhub.Prelude.{
  ℕ, ◌+◌, ◌%◌, ◌^◌, ◌≡◌, refl, ◌&&◌, Option, none, some, List, [], ◌∷◌, String, arith, ltb,
  if◌then◌else◌,
}
use maelstromhub.Prelude.Int.{ℤ}
use maelstromhub.Prelude.Dict.{Dict, read, lookup, IsMap, insert-IsMap}
use maelstromhub.Float.{Float, num}
use maelstromhub.Limiter.{Config, Weighted, new, refill, next_cooldown, record_request}
use maelstromhub.Limiter.Steps.{Action, request, look, enter, leave, try, poll, perform, run, count}
use maelstromhub.Limiter.Counters.{is_request_of, is_failure_of, is_429, counters_run}

-- The text of a time is left to the library: a paused endpoint has the time itself.
pub record Metrics {ℓ} (F : Type ℓ) : Type ℓ where
  pub requests_by_endpoint : Dict ℕ
  pub failures_by_endpoint : Dict ℕ
  pub latency_by_endpoint : Dict F
  pub count_429 : ℕ
  pub current_budget : ℤ
  pub queue_depth : ℕ
  pub paused_endpoints : Dict ℕ

-- the pauses that are not over
unfoldable pub pauses : ℕ → Dict ℕ → Dict ℕ
pauses now [] = []
pauses now ((endpoint, until) ∷ entries) =
    let rest = pauses now entries in if ltb now until then (endpoint, until) ∷ rest else rest

module _ {ℓ} {F : Type ℓ} ⦃d : Float F⦄ where
  open d use {div, trunc}

  -- the average latencies; a count is positive as an `int64`
  unfoldable pub averages : Dict F → Dict ℕ → Dict F
  averages [] counts = []
  averages ((endpoint, sum) ∷ sums) counts =
      let rest = averages sums counts in
      let n = read 0 endpoint counts in
      if ltb 0 n && ltb n (2 ^ 63) then (endpoint, div sum (num n)) ∷ rest else rest

  -- `Metrics` at its two readings of the clock
  unfoldable pub metrics : ℕ → ℕ → Weighted F → Weighted F × Metrics F
  metrics refill_at now l =
      let l' = refill refill_at l in
      (
        l',
        record {
          requests_by_endpoint = l'.requests;
          failures_by_endpoint = l'.failures;
          latency_by_endpoint = averages l'.latency_sum_ms l'.latency_count;
          count_429 = l'.count_429;
          current_budget = trunc l'.tokens;
          queue_depth = l'.queue_depth;
          paused_endpoints = pauses now l'.paused_until;
        },
      )

-- what `Metrics` shows of a pause that may be over
abbrev pub shown : ℕ → ℕ → Option ℕ
shown now until = if ltb now until then some until else none

pauses-fresh :
    (now : ℕ) (endpoint : String) (m : Dict ℕ)
    → lookup endpoint m ≡ none
    → lookup endpoint (pauses now m) ≡ none
unfolding pauses lookup
pauses-fresh now endpoint [] h = refl
pauses-fresh now endpoint ((first, until) ∷ m) h = ground (arith, pauses-fresh now endpoint m)

lookup-pauses :
    (now : ℕ) (endpoint : String) (m : Dict ℕ)
    → IsMap m
    → lookup endpoint (pauses now m) ≡ shown now (read 0 endpoint m)
unfolding pauses lookup read
lookup-pauses now endpoint [] h = ground arith
lookup-pauses now endpoint ((first, until) ∷ m) (fresh, h) =
    ground
      (arith, eq_iff first endpoint, lookup-pauses now endpoint m h, pauses-fresh now first m fresh)

module _ {ℓ} {F : Type ℓ} ⦃d : Float F⦄ where
  perform-IsMap :
      (a : Action) (l : Weighted F) → IsMap l.paused_until → IsMap (perform a l).paused_until
  unfolding perform record_request refill poll
  perform-IsMap (request e t f s now) l h =
      ground (arith, insert-IsMap e (now + next_cooldown (read 0 e l.cooldowns)) l.paused_until h)
  perform-IsMap (look now) l h = ground arith
  perform-IsMap enter l h = h
  perform-IsMap leave l h = h
  perform-IsMap (try e w now) l h = ground arith

  run-IsMap :
      (actions : List Action) (l : Weighted F)
      → IsMap l.paused_until
      → IsMap (run actions l).paused_until
  unfolding run
  run-IsMap [] l h = h
  run-IsMap (a ∷ actions) l h = run-IsMap actions (perform a l) (perform-IsMap a l h)

  pub refill-view :
      (now : ℕ) (l : Weighted F)
      → let l' = refill now l in
        (l'.requests ≡ l.requests)
        × (l'.failures ≡ l.failures)
        × (l'.count_429 ≡ l.count_429)
        × (l'.paused_until ≡ l.paused_until)
  unfolding refill
  refill-view now l = ground arith

module _ {ℓ} (F : Type ℓ) ⦃d : Float F⦄ where
  -- After any steps from a new limiter, `Metrics` shows of an endpoint how often `Record` was called for it and
  -- how often with a failure, and the number of all 429s, each modulo 2^64; and it shows the endpoint as paused
  -- exactly when its pause is not over, with the end of the pause.
  pub metrics-run :
      (cfg : Config) (start : ℕ) (endpoint : String) (actions : List Action) (refill_at now : ℕ)
      → let fresh : Weighted F = new cfg start in
        let l = run actions fresh in
        let m = (metrics refill_at now l).1 in
        (read 0 endpoint m.requests_by_endpoint ≡ count (is_request_of endpoint) actions % 2 ^ 64)
        × (read 0 endpoint m.failures_by_endpoint ≡ count (is_failure_of endpoint) actions % 2 ^ 64)
        × (m.count_429 ≡ count is_429 actions % 2 ^ 64)
        × (lookup endpoint m.paused_endpoints ≡ shown now (read 0 endpoint l.paused_until))
  unfolding metrics new
  metrics-run cfg start endpoint actions refill_at now =
      let fresh : Weighted F = new cfg start in
      let l = run actions fresh in
      let (requests, failures, count_429, paused) = refill-view refill_at l in
      let (r, f, c) = counters_run F cfg start endpoint actions in
      rw (requests, failures, count_429, paused)
        (r, f, c, lookup-pauses now endpoint l.paused_until (run-IsMap actions fresh tt))
