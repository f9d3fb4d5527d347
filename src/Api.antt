-- ===== src/Api.antt =====
-- backend/internal/api/router.go: the handlers of the HTTP API, with what they answer.
--
-- The HTTP and JSON libraries are not modelled: a request is its method, the segments of its path and its
-- parameters, and the body of a response is the value that is encoded, or nothing where the encoder refuses it. A handler has the store in the state in
-- which its statements find it, and the limiter, which `Metrics` refills and which a ping of the exchange uses.
pub mod Bodies
pub mod Params
pub mod Routes
pub mod Errors
pub mod Answers
pub mod Health
pub mod Status
pub mod Budget
pub mod Bounds
mod Examples
use text.Mathlib.Text.{◌==◌ as str_eq}
use maelstromhub.Prelude.{ℕ, ◌-◌, Bool, Option, none, some, List, [], ◌∷◌, String, if◌then◌else◌}
use maelstromhub.Prelude.Int.{pos}
use maelstromhub.Prelude.Dict.{Dict}
use maelstromhub.Float.{Float}
use maelstromhub.Limiter.{Weighted}
use maelstromhub.Limiter.Metrics.{metrics}
use maelstromhub.Client.{Bytes, CallError, value, error, Ended, returned, blocked}
use maelstromhub.Client.Limited.{Gap, weighted_limiter}
use maelstromhub.Client.Requests.{Call, ping}
use maelstromhub.Config.{Config}
use maelstromhub.Ingest.Locks.{Run, World}
use maelstromhub.Ingest.Start.{scheduler_status}
use maelstromhub.Store.{Database}
use maelstromhub.Query.Rows.{Failures, market_detail, candles, list_flags, week}
use maelstromhub.Query.Listing.{list_markets}
use maelstromhub.Query.Runs.{latest_runs}
use Bodies.{
  Body, health_body, markets_body, detail_body, candles_body, flags_body, report_body, metrics_body,
  error_body, Response, write_json, write_error,
}
use Params.{Query, int_param, time_param, interval_param, market_query}

-- What the handlers call of the libraries: `strings.ToUpper`, `strings.EqualFold`, the number that
-- `strconv.ParseFloat` returns, `time.Parse`, the database's collation of texts, the decoding of prices, and the values that `json.Encoder` accepts.
pub record Libraries {ℓ} (F : Type ℓ) : Type ℓ where
  pub upper : String → String
  pub equal_fold : String → String → Bool
  pub float_param : String → F
  pub parse_time : String → Option ℕ
  pub collate : String → String → Bool
  pub decode_mids : Bytes → Option (Option (Dict F))
  pub encodes : Body F → Bool

-- `Dependencies`, but for the store, the client and the limiter
pub record Dependencies : Type 0 where
  pub config : Config
  pub scheduler_started : ℕ
  pub started_at : ℕ

-- What one request meets: the errors of the two databases' pings, of its statement, of the queries for flags and of
-- those for a market; the call to the exchange; and the two readings of the clock that every handler but two makes.
pub record Conditions : Type 0 where
  pub db_error : Option String
  pub redis_error : Option String
  pub query_error : Option String
  pub flag_errors : String → Option String
  pub failures : Failures
  pub call : Call Gap
  pub now : ℕ
  pub now' : ℕ

-- `overall`
unfoldable pub overall : List String → String
overall [] = "ok"
overall (part ∷ parts) = let rest = overall parts in if str_eq part "ok" then rest else "degraded"

abbrev pub status_unless {ℓ} : {A : Type ℓ} → String → Option A → String
status_unless bad none = "ok"
status_unless bad (some e) = bad

-- the error of a ping that has ended
abbrev pub ping_error : Ended (Option CallError) → Option (Option CallError)
ping_error (returned (value e)) = some e
ping_error (returned (error e)) = some (some e)
ping_error blocked = none

module _ {ℓ} {F : Type ℓ} where
  -- `writeJSON` where the store gives rows, and `writeError` where it fails
  unfoldable pub answer_rows {κ} :
      {A : Type κ} → Libraries F → (A → Body F) → A × Option String → Response F
  answer_rows lib body (rows, none) = write_json lib.encodes 200 (body rows)
  answer_rows lib body (rows, some e) = write_error lib.encodes e

  unfoldable pub flags : Libraries F → Conditions → Query → Database F → Response F
  flags lib c q db =
      answer_rows lib flags_body
        (list_flags c.query_error (lib.upper (q "coin")) (int_param (q "limit") (pos 100)) db)

  unfoldable pub candles_handler :
      Libraries F → Conditions → String → Query → Database F → Response F
  candles_handler lib c coin q db = answer_rows lib candles_body (
      candles c.query_error (lib.upper coin) (interval_param (q "interval"))
        (time_param lib.parse_time (q "from") (c.now - week))
        (time_param lib.parse_time (q "to") c.now') db)

module _ {ℓ} {F : Type ℓ} ⦃d : Float F⦄ where
  -- `health`, once its ping has ended, if it does
  abbrev pub health_after :
      Libraries F
      → Dependencies
      → Conditions
      → Option (Option CallError)
      → Weighted F
      → Weighted F × Option (Response F)
  health_after lib deps c none l = (l, none)
  health_after lib deps c (some ping_error) l =
      let db = status_unless "error" c.db_error in
      let redis = status_unless "error" c.redis_error in
      let (l', view) = metrics c.now c.now' l in
      (
        l',
        some (
            write_json lib.encodes 200 (
              health_body (record {
                status = overall (db ∷ redis ∷ []);
                db = db;
                redis = redis;
                hyperliquid = status_unless "stale_or_unavailable" ping_error;
                scheduler = scheduler_status deps.config deps.scheduler_started;
                started_at = deps.started_at;
                rate_limiter = view;
              }))),
      )

  -- `health`; there is no answer while its ping waits for the limiter
  unfoldable pub health :
      Libraries F → Dependencies → Conditions → Weighted F → Weighted F × Option (Response F)
  health lib deps c l =
      let (l', ended) = ping weighted_limiter lib.decode_mids c.call l in
      health_after lib deps c (ping_error ended) l'

  unfoldable pub markets : Libraries F → Conditions → Query → Database F → Response F
  markets lib c q db = answer_rows lib markets_body (
      list_markets lib.collate lib.equal_fold c.flag_errors c.query_error
        (market_query lib.float_param q) db)

  -- `marketDetail`: `MarketDetail` returns no error.
  unfoldable pub market_detail_handler : Libraries F → Conditions → String → Database F → Response F
  market_detail_handler lib c raw db =
      let coin = lib.upper raw in
      if str_eq coin ""
      then write_json lib.encodes 400 (error_body "coin is required")
      else write_json lib.encodes 200 (detail_body (market_detail c.failures c.now c.now' coin db))

  abbrev pub report :
      Libraries F
      → Dependencies
      → Conditions
      → List Run × Option String
      → Weighted F
      → Weighted F × Response F
  report lib deps c (runs, some e) l = (l, write_error lib.encodes e)
  report lib deps c (runs, none) l =
      let (l', view) = metrics c.now c.now' l in
      (
        l',
        write_json lib.encodes 200 (
            report_body (record {
              scheduler = scheduler_status deps.config deps.scheduler_started;
              latest_runs = runs;
              rate_limiter = view;
              stale_warnings = [];
            })),
      )

  unfoldable pub ingestion_status :
      Libraries F → Dependencies → Conditions → List Run → Weighted F → Weighted F × Response F
  ingestion_status lib deps c runs l =
      report lib deps c (latest_runs lib.collate c.query_error runs) l

  unfoldable pub metrics_handler : Libraries F → Conditions → Weighted F → Weighted F × Response F
  metrics_handler lib c l =
      let (l', view) = metrics c.now c.now' l in
      (l', write_json lib.encodes 200 (metrics_body view))
