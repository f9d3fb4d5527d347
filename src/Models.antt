-- ===== src/Models.antt =====
-- backend/internal/models/types.go: the rows that the parts exchange. A time is a number of nanoseconds
-- since Go's zero time, and raw JSON a list of bytes.
pub mod Decimal
use maelstromhub.Prelude.{ℕ, Bool, List, String}
use maelstromhub.Prelude.Int.{ℤ}

pub record Market : Type 0 where
  pub coin : String
  pub name : String
  pub sz_decimals : ℤ
  pub max_leverage : ℤ
  pub is_active : Bool
  pub raw_meta : List ℕ

pub record MarketSnapshot {ℓ} (F : Type ℓ) : Type ℓ where
  pub time : ℕ
  pub coin : String
  pub mid : F
  pub mark_px : F
  pub oracle_px : F
  pub prev_day_px : F
  pub day_ntl_vlm : F
  pub open_interest : F
  pub funding : F
  pub premium : F
  pub raw_ctx : List ℕ

pub record Candle {ℓ} (F : Type ℓ) : Type ℓ where
  pub time : ℕ
  pub coin : String
  pub interval : String
  pub opening : F
  pub high : F
  pub low : F
  pub close : F
  pub volume : F
  pub raw : List ℕ

pub record Feature {ℓ} (F : Type ℓ) : Type ℓ where
  pub time : ℕ
  pub coin : String
  pub interval : String
  pub return_1h : F
  pub return_4h : F
  pub return_24h : F
  pub volume_vs_7d_avg : F
  pub volume_z_score : F
  pub oi_change_1h : F
  pub oi_change_4h : F
  pub oi_change_24h : F
  pub funding_z_score : F
  pub realized_vol : F
  pub atr : F
  pub adx : F
  pub relative_strength_rank : F
  pub autocorr_1 : F
  pub hurst_estimate : F
  pub spread_bps : F
  pub liquidity_score : F
  pub oi_anomaly_score : F
  pub volume_anomaly_score : F
  pub momentum_score : F
  pub funding_anomaly_score : F
  pub execution_quality_score : F
  pub research_score : F
  pub regime_label : String
  pub updated_at : ℕ

-- The database gives a flag its id and the code leaves the metadata empty.
pub record Flag : Type 0 where
  pub time : ℕ
  pub coin : String
  pub flag_type : String
  pub severity : String
  pub message : String

pub record MarketRow {ℓ} (F : Type ℓ) : Type ℓ where
  pub coin : String
  pub price : F
  pub return_24h : F
  pub volume_24h : F
  pub volume_vs_7d_avg : F
  pub open_interest : F
  pub oi_change_1h : F
  pub oi_change_4h : F
  pub oi_change_24h : F
  pub funding : F
  pub funding_z_score : F
  pub realized_vol : F
  pub adx : F
  pub relative_strength_rank : F
  pub spread_bps : F
  pub research_score : F
  pub regime_label : String
  pub top_flags : List Flag
