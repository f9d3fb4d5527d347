-- ===== src/Api/Answers.antt =====
-- Which status the routes of backend/internal/api/router.go answer with, through the multiplexer and `cors`.
pub mod Codes
use Codes.{
  IsSome, IsStatus, IsAnswer, not-IsSome, IsStatus-200, IsStatus-400, IsStatus-500,
  answer_rows-IsAnswer, answered-IsAnswer,
}
use mathlib.Core.Path.{subst}
use text.Mathlib.Text.{◌==◌ as str_eq}
use text.Mathlib.TextEquality.{eq_iff}
use maelstromhub.Prelude.{
  ℕ, ◌≡◌, ◌↔◌, ◌⊎◌, refl, Bool-cases, Option, none, some, List, [], ◌∷◌, ◌++◌, String, inl, inr,
  arith, sym, ap,
}
use maelstromhub.Prelude.Int.{ℤ, pos, negsuc}
use maelstromhub.Float.{Float}
use maelstromhub.Limiter.{Weighted}
use maelstromhub.Client.{CallError}
use maelstromhub.Config.{int_or}
use maelstromhub.Config.Text.{atoi}
use maelstromhub.Ingest.Locks.{Run, World}
use maelstromhub.Store.{Database}
use maelstromhub.Query.Rows.{rows_or, list_flags, candles}
use maelstromhub.Query.Listing.{offset_error, list_markets}
use maelstromhub.Query.Runs.{latest_runs}
use maelstromhub.Api.{
  Libraries, Dependencies, Conditions, health_after, health, answer_rows, markets, flags,
  candles_handler, market_detail_handler, report, ingestion_status, metrics_handler,
}
use maelstromhub.Api.Bodies.{Body, Response, write_json, write_error}
use maelstromhub.Api.Params.{Query, int_param, market_query}
use maelstromhub.Api.Routes.{
  Route, health_route, markets_route, flags_route, status_route, metrics_route, detail_route,
  candles_route, route, Request, respond, cors, cors_headers, serve, then_cors,
}

-- The handler's statement fails: the database refuses it, or it has a negative offset.
abbrev pub Fails : Conditions → Query → Route → Type 0
Fails c q health_route = ⊥
Fails c q markets_route =
    ((e : String) × (c.query_error ≡ some e)) ⊎ ((n : ℕ) × (atoi (q "offset") ≡ some (negsuc n)))
Fails c q flags_route = (e : String) × (c.query_error ≡ some e)
Fails c q status_route = (e : String) × (c.query_error ≡ some e)
Fails c q metrics_route = ⊥
Fails c q (detail_route coin) = ⊥
Fails c q (candles_route coin) = (e : String) × (c.query_error ≡ some e)

-- The route is that of a market without a name.
abbrev pub Nameless : (String → String) → Route → Type 0
Nameless upper (detail_route coin) = upper coin ≡ ""
Nameless upper health_route = ⊥
Nameless upper markets_route = ⊥
Nameless upper flags_route = ⊥
Nameless upper status_route = ⊥
Nameless upper metrics_route = ⊥
Nameless upper (candles_route coin) = ⊥

offset_error_iff :
    (err : Option String) (parsed : Option ℤ)
    → IsSome (offset_error err (int_or (pos 0) parsed))
      ↔ (((e : String) × (err ≡ some e)) ⊎ ((n : ℕ) × (parsed ≡ some (negsuc n))))
offset_error_iff (some e) parsed = (λ h. inl (e, refl), λ h. (e, refl))
offset_error_iff none none =
    (λ h. absurd (not-IsSome h), λ h. elim h [ inl (e, same) ↦ cc | inr (n, same) ↦ cc ])
offset_error_iff none (some (pos m)) =
    (λ h. absurd (not-IsSome h), λ h. elim h [ inl (e, same) ↦ cc | inr (n, same) ↦ cc ])
offset_error_iff none (some (negsuc n)) = (λ h. inr (n, refl), λ h. (_, refl))

module _ {ℓ} {F : Type ℓ} ⦃d : Float F⦄ where
  markets-IsAnswer :
      (lib : Libraries F) (c : Conditions) (q : Query) (db : Database F)
      → IsAnswer (Fails c q markets_route) ⊥ (markets lib c q db)
  unfolding markets list_markets market_query int_param
  markets-IsAnswer lib c q db =
      answer_rows-IsAnswer lib _ _ _ _ (offset_error_iff c.query_error (atoi (q "offset")))

  detail-IsAnswer :
      (lib : Libraries F) (c : Conditions) (coin : String) (db : Database F)
      → IsAnswer ⊥ (lib.upper coin ≡ "") (market_detail_handler lib c coin db)
  unfolding market_detail_handler write_json
  detail-IsAnswer lib c coin db = elim (Bool-cases (str_eq (lib.upper coin) "")) [
    | inl empty ↦ rw empty (refl, IsStatus-400 ⊥ _ (λ f. f) ((eq_iff _ _).0 empty))
    | inr full ↦ rw full (
      refl,
      IsStatus-200 ⊥ _ (λ f. f)
          (λ same. absurd (ground (arith, full, (eq_iff (lib.upper coin) "").1 same))),
    )
  ]

  report-IsAnswer :
      (lib : Libraries F) (deps : Dependencies) (c : Conditions) (err : Option String)
      (runs : List Run) (l : Weighted F)
      → IsAnswer (IsSome err) ⊥ (report lib deps c (rows_or err runs) l).1
  unfolding write_json write_error
  report-IsAnswer lib deps c none runs l = (refl, IsStatus-200 _ ⊥ not-IsSome (λ r. r))
  report-IsAnswer lib deps c (some e) runs l = (refl, IsStatus-500 _ ⊥ (e, refl) (λ r. r))

  health-IsAnswer :
      (lib : Libraries F) (deps : Dependencies) (c : Conditions) (ended : Option (Option CallError))
      (l : Weighted F) (answer : Response F)
      → (health_after lib deps c ended l).1 ≡ some answer
      → IsAnswer ⊥ ⊥ answer
  unfolding write_json
  health-IsAnswer lib deps c none l answer same = cc
  health-IsAnswer lib deps c (some e) l answer same =
      answered-IsAnswer ⊥ ⊥ _ answer (refl, IsStatus-200 ⊥ ⊥ (λ f. f) (λ r. r)) same

  respond-IsAnswer :
      (lib : Libraries F) (deps : Dependencies) (c : Conditions) (q : Query)
      (w : World (Database F)) (r : Route) (l : Weighted F) (answer : Response F)
      → (respond lib deps c q w r l).1 ≡ some answer
      → IsAnswer (Fails c q r) (Nameless lib.upper r) answer
  unfolding respond health flags candles_handler list_flags candles ingestion_status latest_runs
      metrics_handler write_json
  respond-IsAnswer lib deps c q (t, db) health_route l answer same =
      health-IsAnswer lib deps c _ _ answer same
  respond-IsAnswer lib deps c q (t, db) markets_route l answer same =
      answered-IsAnswer _ ⊥ _ answer (markets-IsAnswer lib c q db) same
  respond-IsAnswer lib deps c q (t, db) flags_route l answer same =
      answered-IsAnswer _ ⊥ _ answer (answer_rows-IsAnswer lib _ _ c.query_error _ (λ h. h, λ h. h))
        same
  respond-IsAnswer lib deps c q (t, db) status_route l answer same =
      answered-IsAnswer _ ⊥ _ answer (report-IsAnswer lib deps c c.query_error _ l) same
  respond-IsAnswer lib deps c q (t, db) metrics_route l answer same =
      answered-IsAnswer ⊥ ⊥ _ answer (refl, IsStatus-200 ⊥ ⊥ (λ f. f) (λ r. r)) same
  respond-IsAnswer lib deps c q (t, db) (detail_route coin) l answer same =
      answered-IsAnswer ⊥ _ _ answer (detail-IsAnswer lib c coin db) same
  respond-IsAnswer lib deps c q (t, db) (candles_route coin) l answer same =
      answered-IsAnswer _ ⊥ _ answer (answer_rows-IsAnswer lib _ _ c.query_error _ (λ h. h, λ h. h))
        same

  -- an answer of the server, with the headers of `cors`
  abbrev pub IsServed : Type 0 → Type 0 → Response F → Type 0
  IsServed Failure Refusal answer =
      (answer.headers ≡ cors_headers ++ (("content-type", "application/json") ∷ []))
      × IsStatus Failure Refusal answer.status

  serve-respond :
      (no_route : Request → Response F) (lib : Libraries F) (deps : Dependencies) (c : Conditions)
      (w : World (Database F)) (request : Request) (r : Route) (l : Weighted F)
      → request.method ≡ "GET"
      → route request.path ≡ some r
      → serve no_route lib deps c w request l ≡ then_cors (respond lib deps c request.query w r l)
  unfolding serve cors
  serve-respond no_route lib deps c w request r l get found = rw (get, found) refl

  -- Only the health check may have no answer yet, while its ping waits.
  respond-none :
      (lib : Libraries F) (deps : Dependencies) (c : Conditions) (q : Query)
      (w : World (Database F)) (r : Route) (l : Weighted F)
      → (respond lib deps c q w r l).1 ≡ none
      → r ≡ health_route
  unfolding respond
  respond-none lib deps c q (t, db) health_route l same = refl
  respond-none lib deps c q (t, db) markets_route l same = cc
  respond-none lib deps c q (t, db) flags_route l same = cc
  respond-none lib deps c q (t, db) status_route l same = cc
  respond-none lib deps c q (t, db) metrics_route l same = cc
  respond-none lib deps c q (t, db) (detail_route coin) l same = cc
  respond-none lib deps c q (t, db) (candles_route coin) l same = cc

  -- what the server answers on a route, if it does
  abbrev pub Serves : Libraries F → Conditions → Query → Route → Option (Response F) → Type 0
  Serves lib c q r none = r ≡ health_route
  Serves lib c q r (some answer) = IsServed (Fails c q r) (Nameless lib.upper r) answer

  then_cors-Serves :
      (lib : Libraries F) (c : Conditions) (q : Query) (r : Route)
      (p : Weighted F × Option (Response F))
      → ((a : Response F) → p.1 ≡ some a → IsAnswer (Fails c q r) (Nameless lib.upper r) a)
      → (p.1 ≡ none → r ≡ health_route)
      → Serves lib c q r (then_cors p).1
  then_cors-Serves lib c q r (l, none) answers waits = waits refl
  then_cors-Serves lib c q r (l, some a) answers waits =
      let (headers, status) = answers a refl in (ap (λ hs. cors_headers ++ hs) headers, status)

  -- A `GET` of a known path is answered, but for a health check that waits for the limiter. The answer has the headers
  -- of `cors` and the type of JSON. Its status is 500 exactly if the handler's statement fails: on the lists of
  -- markets, flags and candles and on the status of the ingestion where the database refuses it, and on the list of
  -- markets also for a negative offset. It is 400 exactly on the route of a market whose name is empty, and else it is
  -- 200, on the health check, the metrics and the detail of a market even where the database fails.
  pub serve_status :
      (no_route : Request → Response F) (lib : Libraries F) (deps : Dependencies) (c : Conditions)
      (w : World (Database F)) (request : Request) (r : Route) (l : Weighted F)
      → request.method ≡ "GET"
      → route request.path ≡ some r
      → Serves lib c request.query r (serve no_route lib deps c w request l).1
  serve_status no_route lib deps c w request r l get found =
      let q = request.query in
      let served =
        then_cors-Serves lib c q r (respond lib deps c q w r l)
          (respond-IsAnswer lib deps c q w r l) (respond-none lib deps c q w r l) in
      subst (λ (p : Weighted F × Option (Response F)). Serves lib c q r p.1)
        (sym (serve-respond no_route lib deps c w request r l get found)) served
