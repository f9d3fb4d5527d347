-- ===== src/Api/Bounds.antt =====
-- That the requests to backend/internal/api/router.go keep the bucket of the limiter between empty and full.
use maelstromhub.Prelude.{true, Bool-cases, Option, none, some, String, inl, inr, sym}
use mathlib.Core.Path.{subst}
use maelstromhub.Prelude.Int.{pos, ◌≤ℤ◌, leb_ℤ}
use maelstromhub.Float.{Float}
use maelstromhub.Float.Laws.{IsOrdered, IsArithmetic}
use maelstromhub.Limiter.{Weighted, weight}
use maelstromhub.Limiter.Metrics.{metrics}
use maelstromhub.Limiter.Wait.{charge}
use maelstromhub.Limiter.Bounds.{IsBounded, refill-IsBounded}
use maelstromhub.Client.{CallError}
use maelstromhub.Client.Bounded.{IsQuiet, info-IsBounded}
use maelstromhub.Client.Requests.{all_mids, ping}
use maelstromhub.Ingest.Locks.{World}
use maelstromhub.Store.{Database}
use maelstromhub.Api.{Libraries, Dependencies, Conditions, health_after, health}
use maelstromhub.Api.Bodies.{Response}
use maelstromhub.Api.Params.{Query}
use maelstromhub.Api.Routes.{Route, health_route, Request, respond, serve}
use maelstromhub.Api.Budget.{IsSpared, respond-IsSpared, serve_keeps}

module _ {ℓ} {F : Type ℓ} ⦃d : Float F⦄ (order : IsOrdered F) (laws : IsArithmetic F) where
  charge_own :
      (endpoint : String) (l : Weighted F)
      → pos 0 ≤ℤ weight l endpoint (pos 0)
      → pos 0 ≤ℤ charge endpoint (weight l endpoint (pos 0)) l
  unfolding charge
  charge_own endpoint l h = elim (Bool-cases (leb_ℤ (weight l endpoint (pos 0)) (pos 0))) [
    | inl low ↦ rw low h
    | inr high ↦ rw high h
  ]

  health_after-IsBounded :
      (lib : Libraries F) (deps : Dependencies) (c : Conditions) (ended : Option (Option CallError))
      (l : Weighted F)
      → IsBounded l
      → IsBounded (health_after lib deps c ended l).0
  unfolding metrics
  health_after-IsBounded lib deps c none l h = h
  health_after-IsBounded lib deps c (some e) l h = refill-IsBounded order laws c.now l h

  health-IsBounded :
      (lib : Libraries F) (deps : Dependencies) (c : Conditions) (l : Weighted F)
      → pos 0 ≤ℤ weight l "allMids" (pos 0)
      → IsQuiet c.call.gap
      → IsBounded l
      → IsBounded (health lib deps c l).0
  unfolding health ping all_mids
  health-IsBounded lib deps c l hw quiet h = health_after-IsBounded lib deps c _ _ (
      info-IsBounded order laws lib.decode_mids "allMids" c.call.attempts true (pos 0) c.call.gap l
        (charge_own "allMids" l hw) quiet h)

  spared-IsBounded :
      (c : Conditions) (l after : Weighted F) → IsBounded l → IsSpared c l after → IsBounded after
  spared-IsBounded c l after h (inl same) = subst IsBounded (sym same) h
  spared-IsBounded c l after h (inr same) =
      subst IsBounded (sym same) (refill-IsBounded order laws c.now l h)

  respond-IsBounded :
      (lib : Libraries F) (deps : Dependencies) (c : Conditions) (q : Query)
      (w : World (Database F)) (r : Route) (l : Weighted F)
      → pos 0 ≤ℤ weight l "allMids" (pos 0)
      → IsQuiet c.call.gap
      → IsBounded l
      → IsBounded (respond lib deps c q w r l).0
  unfolding respond
  respond-IsBounded lib deps c q w health_route l hw quiet h =
      health-IsBounded lib deps c l hw quiet h
  respond-IsBounded lib deps c q w r l hw quiet h =
      spared-IsBounded c l _ h (respond-IsSpared lib deps c q w r l (λ same. cc))

  -- No request to the API, of whatever method and to whatever path, brings the bucket of the limiter out of its bounds,
  -- whatever the clock shows and the exchange answers to the ping of a health check: if it is between empty and
  -- full before, it is after. The weight of the ping is not negative, nor are those that other goroutines
  -- charge while it waits.
  pub serve-IsBounded :
      (no_route : Request → Response F) (lib : Libraries F) (deps : Dependencies) (c : Conditions)
      (w : World (Database F)) (request : Request) (l : Weighted F)
      → pos 0 ≤ℤ weight l "allMids" (pos 0)
      → IsQuiet c.call.gap
      → IsBounded l
      → IsBounded (serve no_route lib deps c w request l).0
  serve-IsBounded no_route lib deps c w request l hw quiet h =
      serve_keeps IsBounded no_route lib deps c w request l h
        (λ r found. respond-IsBounded lib deps c request.query w r l hw quiet h)
