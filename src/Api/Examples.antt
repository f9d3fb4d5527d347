-- ===== src/Api/Examples.antt =====
-- The theorems about backend/internal/api/router.go at concrete requests.
use text.Mathlib.Text.{◌==◌ as str_eq}
use maelstromhub.Prelude.{
  ℕ, suc, ◌+◌, ◌%◌, ◌^◌, ◌≡◌, ◌↔◌, refl, true, false, none, some, [], ◌∷◌, leb, arith,
}
use Prim.Native.String.{count}
use maelstromhub.Prelude.Int.{pos, int64, ◌≤ℤ◌, ◌+ℤ◌}
use maelstromhub.Prelude.Dict.{read, lookup, insert}
use maelstromhub.Float.Fixed.{
  Fixed, milli, fixed_float, fixed_le, fixed_add, fixed_neg, fixed_mul, fixed_div, fixed_decimal,
  fixed_seconds, fixed_ceil, fixed_trunc,
}
use maelstromhub.Float.Fixed.Laws.{Fixed-IsOrdered, Fixed-IsArithmetic}
use maelstromhub.Limiter.Bounds.{IsBounded, new-IsBounded}
use maelstromhub.Api.Bounds.{serve-IsBounded}
use maelstromhub.Limiter.{Config, Weighted, new, weight, refill, budget}
use maelstromhub.Limiter.Steps.{Readings, poll, run, perform}
use maelstromhub.Limiter.Wait.{wait, wait_loop, wait_queued, leave_queue, charge, reserve}
use maelstromhub.Client.{answer, Attempt, admitted}
use maelstromhub.Client.Retry.{EndsWith, verdict}
use maelstromhub.Client.Limited.{Gap, wait_in}
use maelstromhub.Client.Requests.{Call}
use maelstromhub.Config.{load}
use maelstromhub.Ingest.Locks
use maelstromhub.Ingest.Locks.{World, Job, Answers, Tables, try_lock, lock_ttl}
use maelstromhub.Store.{Database}
use maelstromhub.Api.{Libraries, Dependencies, Conditions, health, ingestion_status}
use maelstromhub.Api.Bodies.{
  Health, Report, health_body, Response, report_body, text_body, write_json,
}
use maelstromhub.Api.Routes.{Request, markets_route, route, serve}
use maelstromhub.Api.Answers.{Serves, serve_status}
use maelstromhub.Api.Health.{IsAnswered, health_pings}
use maelstromhub.Api.Status.{HasOnly, ended_row, run_reported}

abbrev lib : Libraries Fixed
lib = record {
  upper = λ s. s;
  equal_fold = λ s t. str_eq s t;
  float_param = λ s. milli (pos 0);
  parse_time = λ s. none;
  collate = λ s t. leb (count s) (count t);
  decode_mids = λ bytes. some none;
  encodes = λ body. true;
}

abbrev deps : Dependencies
deps = record { config = load (λ name. ""); scheduler_started = 3; started_at = 5 }

abbrev limited_once : ℕ → Attempt
limited_once i = record {
  exchange = answer 429 [];
  latency = 5;
  recorded_at = 7;
  jitter = 3;
  interrupted = false;
}

abbrev at_start : Readings
at_start = record { refill_at = 0; check_at = 0; until_at = 0 }

abbrev call : Call Gap
call = record {
  attempts = limited_once;
  gap = record {
    start = 0;
    between = [];
    rounds = record { now = at_start; others = []; done = false } ∷ [];
  };
}

abbrev conditions : Conditions
conditions = record {
  db_error = none;
  redis_error = some "connection refused";
  query_error = none;
  flag_errors = λ coin. none;
  failures = record {
    snapshot_error = none;
    feature_error = none;
    candles_error = none;
    flags_error = none;
  };
  call = call;
  now = 7;
  now' = 8;
}

abbrev limits : Config
limits = record { capacity_per_minute = pos 100; endpoint_weights = ("allMids", pos 2) ∷ [] }

abbrev fresh : Weighted Fixed
fresh = new limits 0

abbrev passed : Weighted Fixed
passed = (wait_in "allMids" (pos 2) true call.gap fresh).0

passes : wait_in "allMids" (weight fresh "allMids" (pos 0)) true call.gap fresh ≡ (passed, admitted)
unfolding weight new wait wait_queued wait_loop leave_queue charge reserve poll refill budget read
    lookup fixed_le fixed_add fixed_neg fixed_mul fixed_div fixed_decimal fixed_seconds fixed_ceil
    fixed_trunc run perform insert int64
passes = refl

no_requests : read 0 "allMids" passed.requests ≡ 0
unfolding weight new wait wait_queued wait_loop leave_queue charge reserve poll refill budget read
    lookup fixed_le fixed_add fixed_neg fixed_mul fixed_div fixed_decimal fixed_seconds fixed_ceil
    fixed_trunc run perform insert int64
no_requests = refl

health_pings_example :
    (m : ℕ) × (h : Health Fixed) × EndsWith lib.decode_mids limited_once 3 0 m
    × ((health lib deps conditions fresh).1 ≡ some (write_json lib.encodes 200 (health_body h)))
    × ((h.status ≡ "ok") ↔ ((conditions.db_error ≡ none) × (conditions.redis_error ≡ none)))
    × ((h.hyperliquid ≡ "ok") ↔ IsAnswered (verdict lib.decode_mids limited_once m))
    × (read 0 "allMids" h.rate_limiter.requests_by_endpoint
        ≡ (read 0 "allMids" passed.requests + suc m) % 2 ^ 64)
health_pings_example =
    health_pings lib deps conditions fresh passed passes (omega (arith, no_requests))

abbrev empty : Database Fixed
empty = record {
  markets = [];
  market_snapshots = [];
  candles = [];
  features = [];
  flags = [];
  orderbook_snapshots = [];
  recent_trade_snapshots = [];
  cached = [];
}

abbrev tables : Tables
tables = record { job_locks = []; ingestion_runs = [] }

abbrev job : Job (Database Fixed)
job w = (w, (pos 12, some "timeout"))

abbrev answers : Answers
answers = record {
  now = 5;
  lock_error = none;
  start_error = none;
  id = "r1";
  finishes = true;
  releases = true;
}

takes : (try_lock 5 lock_ttl "candles" []).1 ≡ true
unfolding try_lock lookup
takes = refl

run_reported_example :
    let (after, result) = Locks.run answers "candles" job (tables, empty) in
    (r : Report Fixed) × ((ingestion_status lib deps conditions after.0.ingestion_runs fresh).1
      ≡ write_json lib.encodes 200 (report_body r))
    × HasOnly (ended_row "r1" "candles" result) r.latest_runs
run_reported_example =
    run_reported lib deps conditions fresh answers "candles" job (tables, empty) (λ w. refl)
      (refl, takes) refl refl refl

abbrev not_found : Request → Response Fixed
not_found request = record { headers = []; status = 405; body = text_body "Method Not Allowed\n" }

abbrev check : Request
check = record { method = "GET"; path = "health" ∷ []; query = λ key. "" }

weight_nonneg : pos 0 ≤ℤ weight fresh "allMids" (pos 0)
unfolding weight new read lookup int64 ◌+ℤ◌
weight_nonneg = omega arith

serve-IsBounded_example :
    IsBounded (serve not_found lib deps conditions (tables, empty) check fresh).0
serve-IsBounded_example =
    serve-IsBounded Fixed-IsOrdered Fixed-IsArithmetic not_found lib deps conditions (tables, empty)
      check fresh weight_nonneg (tt, (tt, tt))
      (new-IsBounded Fixed-IsOrdered Fixed-IsArithmetic limits 0 (omega arith))

-- a list of markets behind the offset -1
abbrev listing : Request
listing = record { method = "GET"; path = "api" ∷ "markets" ∷ []; query = λ key. "-1" }

serve_status_example :
    Serves lib conditions listing.query markets_route
      (serve not_found lib deps conditions (tables, empty) listing fresh).1
unfolding route
serve_status_example =
    serve_status not_found lib deps conditions (tables, empty) listing markets_route fresh refl refl
