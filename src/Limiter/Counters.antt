-- ===== src/Limiter/Counters.antt =====
-- The counters that `Metrics` of backend/internal/limiter/weighted.go reports, over the steps of a run.
use text.Mathlib.Text.{◌==◌ as str_eq}
use text.Mathlib.TextEquality.{eq_iff}
use maelstromhub.Prelude.{
  ℕ, ◌+◌, ◌%◌, ◌^◌, ◌≡◌, refl, Bool, false, ◌&&◌, ◌||◌, List, [], ◌∷◌, String, arith, leb, ◌==◌,
  if◌then◌else◌, Bool-cases, inl, inr, ◌∙◌,
}
use maelstromhub.Prelude.Dict.{read, lookup, read-insert}
use maelstromhub.Float.{Float}
use maelstromhub.Limiter.{Config, Weighted, up, new, refill, record_request}
use maelstromhub.Limiter.Steps.{Action, request, look, enter, leave, try, poll, perform, run, count}

abbrev pub is_request_of : String → Action → Bool
is_request_of endpoint (request e latency failed status now) = str_eq e endpoint
is_request_of endpoint (look now) = false
is_request_of endpoint enter = false
is_request_of endpoint leave = false
is_request_of endpoint (try e w now) = false

abbrev pub is_failure_of : String → Action → Bool
is_failure_of endpoint (request e latency failed status now) =
    str_eq e endpoint && (failed || leb 400 status)
is_failure_of endpoint (look now) = false
is_failure_of endpoint enter = false
is_failure_of endpoint leave = false
is_failure_of endpoint (try e w now) = false

abbrev pub is_429 : Action → Bool
is_429 (request e latency failed status now) = status == 429
is_429 (look now) = false
is_429 enter = false
is_429 leave = false
is_429 (try e w now) = false

module _ {ℓ} {F : Type ℓ} ⦃d : Float F⦄ where
  abbrev Counts : (Weighted F → ℕ) → (Action → Bool) → Type ℓ
  Counts f p = (a : Action) (l : Weighted F) → f (perform a l) ≡ (if p a then up (f l) else f l)

  Counts-run :
      (f : Weighted F → ℕ) (p : Action → Bool)
      → Counts f p
      → (actions : List Action) (l : Weighted F) (k : ℕ) → f l ≡ k % 2 ^ 64
      → f (run actions l) ≡ (k + count p actions) % 2 ^ 64
  unfolding run
  Counts-run f p step [] l k h = omega arith
  Counts-run f p step (a ∷ actions) l k h = elim (Bool-cases (p a)) [
    | inl hit ↦ rw hit (
        Counts-run f p step actions (perform a l) (k + 1) (step a l ∙ rw hit (omega arith))
        ∙ omega arith)
    | inr miss ↦
        rw miss (Counts-run f p step actions (perform a l) k (step a l ∙ rw miss h) ∙ omega arith)
  ]

  requests-Counts :
      (endpoint : String) → Counts (λ l. read 0 endpoint l.requests) (is_request_of endpoint)
  unfolding perform record_request refill poll
  requests-Counts endpoint (request e t f s now) l =
      ground
        (arith, eq_iff e endpoint, read-insert 0 e endpoint (up (read 0 e l.requests)) l.requests)
  requests-Counts endpoint (look now) l = ground arith
  requests-Counts endpoint enter l = refl
  requests-Counts endpoint leave l = refl
  requests-Counts endpoint (try e w now) l = ground arith

  failures-Counts :
      (endpoint : String) → Counts (λ l. read 0 endpoint l.failures) (is_failure_of endpoint)
  unfolding perform record_request refill poll
  failures-Counts endpoint (request e t f s now) l =
      ground
        (arith, eq_iff e endpoint, read-insert 0 e endpoint (up (read 0 e l.failures)) l.failures)
  failures-Counts endpoint (look now) l = ground arith
  failures-Counts endpoint enter l = refl
  failures-Counts endpoint leave l = refl
  failures-Counts endpoint (try e w now) l = ground arith

  count_429-Counts : Counts (λ l. l.count_429) is_429
  unfolding perform record_request refill poll
  count_429-Counts (request e t f s now) l = ground arith
  count_429-Counts (look now) l = ground arith
  count_429-Counts enter l = refl
  count_429-Counts leave l = refl
  count_429-Counts (try e w now) l = ground arith

module _ {ℓ} (F : Type ℓ) ⦃d : Float F⦄ where
  -- After any steps from a new limiter, an endpoint's requests are the calls of `Record` for it, its
  -- failures are those with an error or a status from 400 on, and the 429s are counted over all
  -- endpoints; each modulo 2^64.
  pub counters_run :
      (cfg : Config) (start : ℕ) (endpoint : String) (actions : List Action)
      → let fresh : Weighted F = new cfg start in
        let l = run actions fresh in
        (read 0 endpoint l.requests ≡ count (is_request_of endpoint) actions % 2 ^ 64)
        × (read 0 endpoint l.failures ≡ count (is_failure_of endpoint) actions % 2 ^ 64)
        × (l.count_429 ≡ count is_429 actions % 2 ^ 64)
  unfolding new read lookup
  counters_run cfg start endpoint actions =
      let fresh : Weighted F = new cfg start in
      (
        Counts-run (λ l. read 0 endpoint l.requests) (is_request_of endpoint)
              (requests-Counts endpoint) actions fresh 0 refl
            ∙ omega arith,
        Counts-run (λ l. read 0 endpoint l.failures) (is_failure_of endpoint)
              (failures-Counts endpoint) actions fresh 0 refl
            ∙ omega arith,
        Counts-run (λ l. l.count_429) is_429 count_429-Counts actions fresh 0 refl ∙ omega arith,
      )
