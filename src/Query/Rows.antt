-- ===== src/Query/Rows.antt =====
-- The queries for one market in backend/internal/store/query.go: `LatestSnapshot`, `LatestFeature`, `Candles`,
-- `ListFlags` and `MarketDetail`.
--
-- A query takes the error of its statement, if there is one; then no row was read. Rows with one time come in
-- an order that the database chooses: here, as they stand in the table.
use text.Mathlib.Text.{◌==◌ as str_eq}
use maelstromhub.Prelude.{
  ℕ, ◌-◌, ◌*◌, Bool, true, ◌&&◌, ◌||◌, Option, none, some, List, [], ◌∷◌, String, leb, ltb, take,
  ◌≡◌, All, Bool-cases, inl, inr, if◌then◌else◌,
}
use maelstromhub.Prelude.Int.{ℤ, pos, leb_ℤ, pos_part}
use maelstromhub.Prelude.Dict.{Dict}
use maelstromhub.Prelude.Sort.{sort_by}
use maelstromhub.Float.{Float, num}
use maelstromhub.Models.{MarketSnapshot, Candle, Feature, Flag}
use maelstromhub.Store.{Database, micros}
use maelstromhub.Query.{suggest_direction}

-- `WHERE p`
unfoldable pub rows_where {ℓ} : {R : Type ℓ} → (R → Bool) → List R → List R
rows_where p [] = []
rows_where p (row ∷ rows) = let rest = rows_where p rows in if p row then row ∷ rest else rest

pub rows_where-passes {ℓ} :
    {A : Type ℓ} (p : A → Bool) (rows : List A) → All (λ r. p r ≡ true) (rows_where p rows)
unfolding rows_where
rows_where-passes p [] = tt
rows_where-passes p (row ∷ rows) = elim (Bool-cases (p row)) [
  | inl hit ↦ rw hit (hit, rows_where-passes p rows)
  | inr miss ↦ rw miss (rows_where-passes p rows)
]

-- `ORDER BY time DESC LIMIT 1`
abbrev pub later {ℓ} : {R : Type ℓ} → (R → ℕ) → R → Option R → Option R
later time row none = some row
later time row (some other) = if ltb (time row) (time other) then some other else some row

unfoldable pub newest {ℓ} : {R : Type ℓ} → (R → ℕ) → List R → Option R
newest time [] = none
newest time (row ∷ rows) = later time row (newest time rows)

-- What a query for one row gives: a pointer and an error. Where it fails, the pointer is to the zero value.
abbrev pub pointer {ℓ} : {R : Type ℓ} → Option String → R → Option R → Option R × Option String
pointer none zero found = (found, none)
pointer (some e) zero found = (some zero, some e)

-- What a query for many rows gives: none where it fails.
abbrev pub rows_or {ℓ} : {R : Type ℓ} → Option String → List R → List R × Option String
rows_or none rows = (rows, none)
rows_or (some e) rows = ([], some e)

-- the limit of `ListFlags`
abbrev pub flag_limit : ℤ → ℕ
flag_limit limit = if leb_ℤ limit (pos 0) then 50 else pos_part limit

-- `ListFlags`
unfoldable pub list_flags {ℓ} :
    {F : Type ℓ} → Option String → String → ℤ → Database F → List Flag × Option String
list_flags err coin limit db =
    let wanted = rows_where (λ (g : Flag). str_eq coin "" || str_eq g.coin coin) db.flags in
    rows_or err (take (flag_limit limit) (sort_by (λ (g h : Flag). leb h.time g.time) wanted))

pub record MarketDetail {ℓ} (F : Type ℓ) : Type ℓ where
  pub latest_snapshot : Option (MarketSnapshot F)
  pub latest_features : Option (Feature F)
  pub recent_flags : List Flag
  pub recent_candles : List (Candle F)
  pub funding_history_summary : Dict F
  pub orderbook_summary : Dict F
  pub trade_summary : Dict F
  pub suggested_research_direction : String

-- The errors of the four queries of `MarketDetail`.
pub record Failures : Type 0 where
  pub snapshot_error : Option String
  pub feature_error : Option String
  pub candles_error : Option String
  pub flags_error : Option String

-- seven days
abbrev pub week : ℕ
week = 7 * 24 * 3600 * 1_000_000_000

module _ {ℓ} {F : Type ℓ} where
  abbrev pub in_range : String → String → ℕ → ℕ → Candle F → Bool
  in_range coin interval start end c =
      (str_eq c.coin coin && str_eq c.interval interval)
      && (leb (micros start) c.time && leb c.time (micros end))

  -- `Candles`
  unfoldable pub candles :
      Option String → String → String → ℕ → ℕ → Database F → List (Candle F) × Option String
  candles err coin interval start end db = rows_or err (
      sort_by (λ a b. leb a.time b.time) (rows_where (in_range coin interval start end) db.candles))

module _ {ℓ} {F : Type ℓ} ⦃d : Float F⦄ where
  abbrev pub zero_snapshot : MarketSnapshot F
  zero_snapshot = record {
    time = 0;
    coin = "";
    mid = num 0;
    mark_px = num 0;
    oracle_px = num 0;
    prev_day_px = num 0;
    day_ntl_vlm = num 0;
    open_interest = num 0;
    funding = num 0;
    premium = num 0;
    raw_ctx = [];
  }

  abbrev pub zero_feature : Feature F
  zero_feature = record {
    time = 0;
    coin = "";
    interval = "";
    return_1h = num 0;
    return_4h = num 0;
    return_24h = num 0;
    volume_vs_7d_avg = num 0;
    volume_z_score = num 0;
    oi_change_1h = num 0;
    oi_change_4h = num 0;
    oi_change_24h = num 0;
    funding_z_score = num 0;
    realized_vol = num 0;
    atr = num 0;
    adx = num 0;
    relative_strength_rank = num 0;
    autocorr_1 = num 0;
    hurst_estimate = num 0;
    spread_bps = num 0;
    liquidity_score = num 0;
    oi_anomaly_score = num 0;
    volume_anomaly_score = num 0;
    momentum_score = num 0;
    funding_anomaly_score = num 0;
    execution_quality_score = num 0;
    research_score = num 0;
    regime_label = "";
    updated_at = 0;
  }

  -- the latest snapshot of a coin, in `LatestSnapshot` and in the joins of the other queries
  unfoldable pub newest_snapshot : String → Database F → Option (MarketSnapshot F)
  newest_snapshot coin db =
      newest (λ s. s.time) (rows_where (λ s. str_eq s.coin coin) db.market_snapshots)

  unfoldable pub newest_feature : String → Database F → Option (Feature F)
  newest_feature coin db = newest (λ f. f.time) (rows_where (λ f. str_eq f.coin coin) db.features)

  unfoldable pub latest_snapshot :
      Option String → String → Database F → Option (MarketSnapshot F) × Option String
  latest_snapshot err coin db = pointer err zero_snapshot (newest_snapshot coin db)

  unfoldable pub latest_feature :
      Option String → String → Database F → Option (Feature F) × Option String
  latest_feature err coin db = pointer err zero_feature (newest_feature coin db)

  abbrev pub suggestion_of : Option (Feature F) → String
  suggestion_of none = ""
  suggestion_of (some f) = suggest_direction f

  -- `MarketDetail` at its two readings of the clock. It returns no error.
  unfoldable pub market_detail : Failures → ℕ → ℕ → String → Database F → MarketDetail F
  market_detail fails start end coin db =
      let features = (latest_feature fails.feature_error coin db).0 in
      record {
        latest_snapshot = (latest_snapshot fails.snapshot_error coin db).0;
        latest_features = features;
        recent_flags = (list_flags fails.flags_error coin (pos 20) db).0;
        recent_candles = (candles fails.candles_error coin "1h" (start - week) end db).0;
        funding_history_summary = [];
        orderbook_summary = [];
        trade_summary = [];
        suggested_research_direction = suggestion_of features;
      }
