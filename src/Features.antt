-- ===== src/Features.antt =====
-- backend/internal/features/calc.go: the features of a market, its research score, its regime and its
-- flags. The statistics are in `Stats`.
pub mod Stats
pub mod Flags
pub mod CrossSection
pub mod Scores
pub mod Ranking
pub mod Research
mod Examples
use maelstromhub.Prelude.{
  ℕ, ◌-◌, ◌*◌, Bool, true, false, not, ◌&&◌, ◌||◌, List, [], ◌∷◌, ◌++◌, String, map, length, ltb,
  if◌then◌else◌,
}
use maelstromhub.Float
use maelstromhub.Float.{Float, num}
use maelstromhub.Models.{Candle, MarketSnapshot, Feature, Flag}
use Stats.{
  is_empty, at, tail, last, avg, std, zscore, ratio, return_n, returns, min_max, clamp, atr, adx,
  autocorr_lag1, hurst,
}

pub record Input {ℓ} (F : Type ℓ) : Type ℓ where
  pub coin : String
  pub interval : String
  pub candles : List (Candle F)
  pub snapshots : List (MarketSnapshot F)
  pub spread_bps : F

module _ {ℓ} {F : Type ℓ} ⦃d : Float F⦄ where
  open d use {decimal, add, sub, mul, div, lt, le, eq, neg, log10, sqrt}

  -- `classify`
  unfoldable pub classify : Feature F → String
  classify f =
      if lt f.execution_quality_score (num 25) || lt f.liquidity_score (num 20)
      then "ignore_low_liquidity"
      else if lt f.realized_vol (decimal 2 2) && lt (decimal 8 1) f.volume_z_score
      then "volatility_breakout_candidate"
      else if lt (decimal 5 2) (Float.abs f.return_24h) && lt (num 20) f.adx
      then "trend_candidate"
      else if lt (decimal 3 2) f.return_4h && lt (num 70) f.relative_strength_rank
      then "momentum_candidate"
      else if lt (num 2) (Float.abs f.funding_z_score) || lt (decimal 12 2) (Float.abs f.return_24h)
      then "mean_reversion_candidate"
      else if lt f.realized_vol (decimal 15 3)
      then "squeeze_candidate"
      else "ignore_choppy"

  -- the weighted sum of the six scores
  unfoldable pub research_score : Feature F → F
  research_score f =
      add
        (add
          (add
            (add
              (add (mul (decimal 25 2) f.liquidity_score) (mul (decimal 20 2) f.oi_anomaly_score))
              (mul (decimal 20 2) f.volume_anomaly_score))
            (mul (decimal 15 2) f.momentum_score))
          (mul (decimal 10 2) f.funding_anomaly_score))
        (mul (decimal 10 2) f.execution_quality_score)

  -- the time of the last candle, or else the clock's
  unfoldable pub feature_time : ℕ → List (Candle F) → ℕ
  feature_time now candles =
      if is_empty candles then now else at now (map (λ c. c.time) candles) (length candles - 1)

  -- the fields that `Calculate` takes from the snapshots, 0 without any
  unfoldable pub with_snapshots : List (MarketSnapshot F) → Feature F → Feature F
  with_snapshots snaps f =
      let ois = map (λ s. s.open_interest) snaps in
      let fundings = map (λ s. s.funding) snaps in
      if is_empty snaps then f else record f {
        oi_change_1h = return_n ois 1;
        oi_change_4h = return_n ois 4;
        oi_change_24h = return_n ois 24;
        funding_z_score =
            zscore (at (num 0) fundings (length snaps - 1))
              (map (λ s. s.funding) (tail snaps (7 * 24)));
      }

  -- the six scores
  unfoldable pub with_scores : List F → Feature F → Feature F
  with_scores volumes f = record f {
    liquidity_score = clamp (
        add (sub (num 100) (mul f.spread_bps (num 5)))
          (mul (log10 (add (num 1) (avg (tail volumes 24)))) (num 8)));
    oi_anomaly_score = clamp (mul (Float.abs f.oi_change_24h) (num 300));
    volume_anomaly_score = clamp (mul (Float.max (num 0) f.volume_z_score) (num 25));
    momentum_score = clamp (mul (Float.abs f.return_24h) (num 500));
    funding_anomaly_score = clamp (mul (Float.abs f.funding_z_score) (num 20));
    execution_quality_score = clamp (sub (num 100) (mul f.spread_bps (num 8)));
  }

  -- the fields that `Calculate` takes from the candles; the others are 0 so far
  unfoldable pub from_candles : ℕ → ℕ → Input F → Feature F
  from_candles now updated input =
      let candles = input.candles in
      let closes = map (λ c. c.close) candles in
      let volumes = map (λ c. c.volume) candles in
      record {
        time = feature_time now candles;
        coin = input.coin;
        interval = input.interval;
        return_1h = return_n closes 1;
        return_4h = return_n closes 4;
        return_24h = return_n closes 24;
        volume_vs_7d_avg = ratio (last volumes) (avg (tail volumes (7 * 24)));
        volume_z_score = zscore (last volumes) (tail volumes (7 * 24));
        oi_change_1h = num 0;
        oi_change_4h = num 0;
        oi_change_24h = num 0;
        funding_z_score = num 0;
        realized_vol = mul (std (returns (tail closes 24))) (sqrt (num 24));
        atr = atr (tail candles 24);
        adx = adx (tail candles 24);
        relative_strength_rank = num 0;
        autocorr_1 = autocorr_lag1 (returns (tail closes 48));
        hurst_estimate = hurst (tail closes 96);
        spread_bps = input.spread_bps;
        liquidity_score = num 0;
        oi_anomaly_score = num 0;
        volume_anomaly_score = num 0;
        momentum_score = num 0;
        funding_anomaly_score = num 0;
        execution_quality_score = num 0;
        research_score = num 0;
        regime_label = "ignore_choppy";
        updated_at = updated;
      }

  abbrev pub rated : Feature F → Feature F
  rated f = record f { research_score = research_score f }

  abbrev pub labelled : Feature F → Feature F
  labelled f = record f { regime_label = classify f }

  -- `Calculate`, with the two readings of the clock
  unfoldable pub calculate : ℕ → ℕ → Input F → Feature F
  unfolding from_candles with_snapshots with_scores
  calculate now updated input = labelled (
      rated (
        with_scores (map (λ c. c.volume) input.candles)
          (with_snapshots input.snapshots (from_candles now updated input))))
