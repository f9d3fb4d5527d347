-- ===== src/Api/Health.antt =====
-- The health check of backend/internal/api/router.go with the client and the limiter that it uses.
use text.Mathlib.TextEquality.{eq_iff}
use maelstromhub.Prelude.{
  ◌≢◌, ℕ, suc, ◌+◌, ◌%◌, ◌^◌, ◌<◌, ◌≡◌, ◌↔◌, refl, true, Option, none, some, arith, ap, ◌∙◌,
}
use maelstromhub.Prelude.Int.{pos}
use maelstromhub.Prelude.Dict.{Dict, read}
use maelstromhub.Float.{Float}
use maelstromhub.Limiter.{Weighted, weight}
use maelstromhub.Limiter.Metrics.{metrics, refill-view}
use maelstromhub.Client.{Outcome, value, error, returned, admitted, info}
use maelstromhub.Client.Retry.{EndsWith, verdict, info_attempts, records}
use maelstromhub.Client.Limited.{wait_in, weighted_limiter, records_effect}
use maelstromhub.Client.Requests.{no_nil, ended_error, all_mids, ping}
use maelstromhub.Api.{Libraries, Dependencies, Conditions, ping_error, health_after, health}
use maelstromhub.Api.Bodies.{Health, health_body, write_json}
use maelstromhub.Api.Errors.{overall_iff}

-- The exchange has given the prices, or `null`.
abbrev pub IsAnswered {ℓ} : {A : Type ℓ} → Outcome A → Type 0
IsAnswered (value v) = Unit
IsAnswered (error e) = ⊥

module _ {ℓ} {F : Type ℓ} ⦃d : Float F⦄ where
  -- the report of a health check whose ping ends with `outcome` and leaves the limiter `l`
  report_of :
      (lib : Libraries F) (deps : Dependencies) (c : Conditions)
      (outcome : Outcome (Option (Dict F))) (l : Weighted F)
      → (h : Health F) × (health_after lib deps c
            (ping_error (ended_error (no_nil (returned outcome))))
            l
          ≡ ((metrics c.now c.now' l).0, some (write_json lib.encodes 200 (health_body h))))
        × ((h.status ≡ "ok") ↔ ((c.db_error ≡ none) × (c.redis_error ≡ none)))
        × ((h.hyperliquid ≡ "ok") ↔ IsAnswered outcome)
        × (h.rate_limiter ≡ (metrics c.now c.now' l).1)
  report_of lib deps c (value v) l =
      (_, refl, overall_iff c.db_error c.redis_error, (λ e. tt, λ e. refl), refl)
  report_of lib deps c (error e) l =
      let differs : "stale_or_unavailable" ≢ "ok" =
        ground (arith, eq_iff "stale_or_unavailable" "ok") in
      (_, refl, overall_iff c.db_error c.redis_error, (differs, λ none. absurd none), refl)

  metrics-requests :
      (now now' : ℕ) (l : Weighted F) → (metrics now now' l).1.requests_by_endpoint ≡ l.requests
  unfolding metrics
  metrics-requests now now' l = (refill-view now l).0

  health-ended :
      (lib : Libraries F) (deps : Dependencies) (c : Conditions) (l l' : Weighted F)
      (outcome : Outcome (Option (Dict F)))
      → info weighted_limiter lib.decode_mids "allMids" c.call.attempts true (pos 0) c.call.gap l
        ≡ (l', returned outcome)
      → health lib deps c l
        ≡ health_after lib deps c (ping_error (ended_error (no_nil (returned outcome)))) l'
  unfolding health ping all_mids
  health-ended lib deps c l l' outcome same = rw same refl

  -- A health check whose ping the limiter lets pass answers with the status 200, and with "ok" exactly if both
  -- databases do, whatever the exchange says. It sends the exchange up to four requests, all of which show in the
  -- metrics that it reports; the exchange is called "ok" exactly if the last of them is answered. The count of the
  -- ping's requests so far is below 2^64.
  pub health_pings :
      (lib : Libraries F) (deps : Dependencies) (c : Conditions) (l l' : Weighted F)
      → wait_in "allMids" (weight l "allMids" (pos 0)) true c.call.gap l ≡ (l', admitted)
      → read 0 "allMids" l'.requests < 2 ^ 64
      → (m : ℕ) × (h : Health F) × EndsWith lib.decode_mids c.call.attempts 3 0 m
        × ((health lib deps c l).1 ≡ some (write_json lib.encodes 200 (health_body h)))
        × ((h.status ≡ "ok") ↔ ((c.db_error ≡ none) × (c.redis_error ≡ none)))
        × ((h.hyperliquid ≡ "ok") ↔ IsAnswered (verdict lib.decode_mids c.call.attempts m))
        × (read 0 "allMids" h.rate_limiter.requests_by_endpoint
            ≡ (read 0 "allMids" l'.requests + suc m) % 2 ^ 64)
  health_pings lib deps c l l' pass small =
      let attempts = c.call.attempts in
      let (m, ends, same) =
        info_attempts weighted_limiter lib.decode_mids "allMids" attempts true (pos 0) c.call.gap l
          l' pass in
      let ended = records weighted_limiter lib.decode_mids "allMids" attempts (suc m) 0 l' in
      let (_, counted) = records_effect lib.decode_mids "allMids" attempts (suc m) 0 l' small in
      let (h, answer, ok, exchange, view) =
        report_of lib deps c (verdict lib.decode_mids attempts m) ended in
      let shown : h.rate_limiter.requests_by_endpoint ≡ ended.requests =
        ap (λ v. v.requests_by_endpoint) view ∙ metrics-requests c.now c.now' ended in
      (
        m,
        h,
        ends,
        ap (λ p. p.1) (health-ended lib deps c l ended _ same ∙ answer),
        ok,
        exchange,
        ap (read 0 "allMids") shown ∙ counted,
      )
