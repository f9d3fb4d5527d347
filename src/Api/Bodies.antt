-- ===== src/Api/Bodies.antt =====
-- What the handlers of backend/internal/api/router.go write: the values that are encoded as JSON, and `writeJSON`.
use maelstromhub.Prelude.{ℕ, Bool, List, [], ◌∷◌, String, if◌then◌else◌}
use maelstromhub.Models.{Candle, Flag, MarketRow}
use maelstromhub.Limiter.Metrics.{Metrics}
use maelstromhub.Ingest.Locks.{Run}
use maelstromhub.Ingest.Start.{SchedulerStatus}
use maelstromhub.Query.Rows.{MarketDetail}

-- what `health` reports
pub record Health {ℓ} (F : Type ℓ) : Type ℓ where
  pub status : String
  pub db : String
  pub redis : String
  pub hyperliquid : String
  pub scheduler : SchedulerStatus
  pub started_at : ℕ
  pub rate_limiter : Metrics F

-- what `ingestionStatus` reports
pub record Report {ℓ} (F : Type ℓ) : Type ℓ where
  pub scheduler : SchedulerStatus
  pub latest_runs : List Run
  pub rate_limiter : Metrics F
  pub stale_warnings : List String

-- the value that a handler encodes; an error is the message of the field `error`
pub data Body {ℓ} (F : Type ℓ) : Type ℓ where
  health_body : Health F → Body F
  markets_body : List (MarketRow F) → Body F
  detail_body : MarketDetail F → Body F
  candles_body : List (Candle F) → Body F
  flags_body : List Flag → Body F
  report_body : Report F → Body F
  metrics_body : Metrics F → Body F
  error_body : String → Body F
  text_body : String → Body F  -- a text of the HTTP library
  no_body : Body F
  unencoded : Body F → Body F  -- nothing: the JSON encoder has refused the value

pub record Response {ℓ} (F : Type ℓ) : Type ℓ where
  pub headers : List (String × String)
  pub status : ℕ
  pub body : Body F

module _ {ℓ} {F : Type ℓ} where
  -- `writeJSON`, with the values that the encoder accepts. A number that is NaN or infinite is refused, when the
  -- headers and the status are already written; the error is dropped.
  unfoldable pub write_json : (Body F → Bool) → ℕ → Body F → Response F
  write_json encodes status value = record {
    headers = ("content-type", "application/json") ∷ [];
    status = status;
    body = if encodes value then value else unencoded value;
  }

  -- `writeError`
  unfoldable pub write_error : (Body F → Bool) → String → Response F
  write_error encodes message = write_json encodes 500 (error_body message)
