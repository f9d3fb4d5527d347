-- ===== src/Api/Budget.antt =====
-- What the requests to backend/internal/api/router.go do to the limiter of the requests to the exchange.
use text.Mathlib.Text.{◌==◌ as str_eq}
use maelstromhub.Prelude.{
  ◌≡◌, ◌≢◌, refl, Bool-cases, ◌||◌, Option, none, some, List, String, ◌⊎◌, inl, inr,
}
use maelstromhub.Float.{Float}
use maelstromhub.Limiter.{Weighted, refill}
use maelstromhub.Limiter.Metrics.{metrics}
use maelstromhub.Ingest.Locks.{Run, World}
use maelstromhub.Store.{Database}
use maelstromhub.Api.{
  Libraries, Dependencies, Conditions, report, ingestion_status, metrics_handler,
}
use maelstromhub.Api.Bodies.{Response}
use maelstromhub.Api.Params.{Query}
use maelstromhub.Api.Routes.{
  Route, health_route, markets_route, flags_route, status_route, metrics_route, detail_route,
  candles_route, route, Request, respond, then_cors, cors, dispatch, serve,
}

module _ {ℓ} {F : Type ℓ} ⦃d : Float F⦄ where
  -- The limiter is as before, or refilled.
  abbrev pub IsSpared : Conditions → Weighted F → Weighted F → Type ℓ
  IsSpared c l after = (after ≡ l) ⊎ (after ≡ refill c.now l)

  report-IsSpared :
      (lib : Libraries F) (deps : Dependencies) (c : Conditions) (found : List Run × Option String)
      (l : Weighted F)
      → IsSpared c l (report lib deps c found l).0
  unfolding metrics
  report-IsSpared lib deps c (runs, none) l = inr refl
  report-IsSpared lib deps c (runs, some e) l = inl refl

  pub respond-IsSpared :
      (lib : Libraries F) (deps : Dependencies) (c : Conditions) (q : Query)
      (w : World (Database F)) (r : Route) (l : Weighted F)
      → r ≢ health_route
      → IsSpared c l (respond lib deps c q w r l).0
  unfolding respond ingestion_status metrics_handler metrics
  respond-IsSpared lib deps c q (t, db) health_route l other = absurd (other refl)
  respond-IsSpared lib deps c q (t, db) markets_route l other = inl refl
  respond-IsSpared lib deps c q (t, db) flags_route l other = inl refl
  respond-IsSpared lib deps c q (t, db) status_route l other = report-IsSpared lib deps c _ l
  respond-IsSpared lib deps c q (t, db) metrics_route l other = inr refl
  respond-IsSpared lib deps c q (t, db) (detail_route coin) l other = inl refl
  respond-IsSpared lib deps c q (t, db) (candles_route coin) l other = inl refl

  then_cors_state : (p : Weighted F × Option (Response F)) → (then_cors p).0 ≡ p.0
  then_cors_state (l, none) = refl
  then_cors_state (l, some answer) = refl

  -- What holds of the limiter before a request, and after the handler of its path, holds after the request.
  module _ {κ} (P : Weighted F → Type κ) (no_route : Request → Response F) (lib : Libraries F)
      (deps : Dependencies) (c : Conditions) (w : World (Database F)) (request : Request)
      (l : Weighted F) (before : P l) where
    dispatch_keeps :
        (found : Option Route)
        → ((r : Route) → found ≡ some r → P (respond lib deps c request.query w r l).0)
        → P (dispatch no_route lib deps c w request found l).0
    dispatch_keeps none h = before
    dispatch_keeps (some r) h =
        elim (Bool-cases (str_eq request.method "GET" || str_eq request.method "HEAD")) [
          | inl get ↦ rw get (h r refl)
          | inr not_get ↦ rw not_get before
        ]

    pub serve_keeps :
        ((r : Route) → route request.path ≡ some r → P (respond lib deps c request.query w r l).0)
        → P (serve no_route lib deps c w request l).0
    unfolding serve cors
    serve_keeps h = elim (Bool-cases (str_eq request.method "OPTIONS")) [
      | inl preflight ↦ rw preflight before
      | inr not_options ↦ rw (not_options, then_cors_state) (dispatch_keeps (route request.path) h)
    ]

  -- Of all requests to the API, only the health check can take tokens of the limiter or have a request recorded in
  -- it: any other request, of whatever method and to whatever path, leaves the limiter as it was or refilled.
  pub serve-IsSpared :
      (no_route : Request → Response F) (lib : Libraries F) (deps : Dependencies) (c : Conditions)
      (w : World (Database F)) (request : Request) (l : Weighted F)
      → route request.path ≢ some health_route
      → IsSpared c l (serve no_route lib deps c w request l).0
  serve-IsSpared no_route lib deps c w request l other =
      serve_keeps (IsSpared c l) no_route lib deps c w request l (inl refl) (λ r found.
        respond-IsSpared lib deps c request.query w r l (λ same. other (rw (found, same) refl)))
