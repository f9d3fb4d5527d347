-- ===== src/Api/Routes.antt =====
-- `routes` and `cors` of backend/internal/api/router.go: which handler answers a request, and the headers that every
-- answer has. What the HTTP library answers to a path without a handler is a parameter.
use text.Mathlib.Text.{◌==◌ as str_eq}
use maelstromhub.Prelude.{◌||◌, Option, none, some, List, [], ◌∷◌, ◌++◌, String, if◌then◌else◌}
use maelstromhub.Float.{Float}
use maelstromhub.Limiter.{Weighted}
use maelstromhub.Ingest.Locks.{World}
use maelstromhub.Store.{Database}
use maelstromhub.Api.{
  Libraries, Dependencies, Conditions, health, markets, market_detail_handler, candles_handler,
  flags, ingestion_status, metrics_handler,
}
use maelstromhub.Api.Bodies.{Response, no_body}
use maelstromhub.Api.Params.{Query}

-- the patterns of `routes`, for the segments of a path
pub data Route : Type 0 where
  health_route markets_route flags_route status_route metrics_route : Route
  detail_route candles_route : String → Route

unfoldable pub route : List String → Option Route
route (a ∷ []) =
    if str_eq a "health"
    then some health_route
    else if str_eq a "metrics"
    then some metrics_route
    else none
route (a ∷ b ∷ []) =
    if str_eq a "api"
    then (if str_eq b "markets"
        then some markets_route
        else if str_eq b "flags"
        then some flags_route
        else none)
    else none
route (a ∷ b ∷ c ∷ []) =
    if str_eq a "api"
    then (if str_eq b "markets"
        then some (detail_route c)
        else if str_eq b "ingestion"
        then (if str_eq c "status" then some status_route else none)
        else none)
    else none
route (a ∷ b ∷ c ∷ e ∷ []) =
    if str_eq a "api"
    then (if str_eq b "markets"
        then (if str_eq e "candles" then some (candles_route c) else none)
        else none)
    else none
route segments = none

pub record Request : Type 0 where
  pub method : String
  pub path : List String  -- the segments, none of them empty
  pub query : Query

abbrev pub cors_headers : List (String × String)
cors_headers =
    ("access-control-allow-origin", "*")
    ∷ ("access-control-allow-methods", "GET,POST,OPTIONS")
    ∷ ("access-control-allow-headers", "content-type")
    ∷ []

abbrev pub with_cors {ℓ} : {F : Type ℓ} → Response F → Response F
with_cors answer = record answer { headers = cors_headers ++ answer.headers }

module _ {ℓ} {F : Type ℓ} ⦃d : Float F⦄ where
  -- what changes nothing in the limiter
  abbrev pub at_once : Response F → Weighted F → Weighted F × Option (Response F)
  at_once answer l = (l, some answer)

  abbrev pub answered : Weighted F × Response F → Weighted F × Option (Response F)
  answered (l, answer) = (l, some answer)

  -- the handler of a route
  unfoldable pub respond :
      Libraries F
      → Dependencies
      → Conditions
      → Query
      → World (Database F)
      → Route
      → Weighted F
      → Weighted F × Option (Response F)
  respond lib deps c q (t, db) health_route l = health lib deps c l
  respond lib deps c q (t, db) markets_route l = at_once (markets lib c q db) l
  respond lib deps c q (t, db) flags_route l = at_once (flags lib c q db) l
  respond lib deps c q (t, db) status_route l =
      answered (ingestion_status lib deps c t.ingestion_runs l)
  respond lib deps c q (t, db) metrics_route l = answered (metrics_handler lib c l)
  respond lib deps c q (t, db) (detail_route coin) l =
      at_once (market_detail_handler lib c coin db) l
  respond lib deps c q (t, db) (candles_route coin) l = at_once (candles_handler lib c coin q db) l

  abbrev pub then_cors : Weighted F × Option (Response F) → Weighted F × Option (Response F)
  then_cors (l, none) = (l, none)
  then_cors (l, some answer) = (l, some (with_cors answer))

  -- `cors` around a handler
  unfoldable pub cors :
      String
      → (Weighted F → Weighted F × Option (Response F))
      → Weighted F
      → Weighted F × Option (Response F)
  cors method next l =
      if str_eq method "OPTIONS"
      then (l, some (with_cors (record { headers = []; status = 204; body = no_body })))
      else then_cors (next l)

  -- the multiplexer: a pattern `GET` also takes the method HEAD
  abbrev pub dispatch :
      (Request → Response F)
      → Libraries F
      → Dependencies
      → Conditions
      → World (Database F)
      → Request
      → Option Route
      → Weighted F
      → Weighted F × Option (Response F)
  dispatch no_route lib deps c w request none l = at_once (no_route request) l
  dispatch no_route lib deps c w request (some r) l =
      if str_eq request.method "GET" || str_eq request.method "HEAD"
      then respond lib deps c request.query w r l
      else at_once (no_route request) l

  -- the handler that `New` gives the server; `logging` only writes to the log
  unfoldable pub serve :
      (Request → Response F)
      → Libraries F
      → Dependencies
      → Conditions
      → World (Database F)
      → Request
      → Weighted F
      → Weighted F × Option (Response F)
  serve no_route lib deps c w request l =
      cors request.method (dispatch no_route lib deps c w request (route request.path)) l
