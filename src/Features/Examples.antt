-- ===== src/Features/Examples.antt =====
-- The theorems about backend/internal/features/calc.go at concrete markets, over thousandths.
use maelstromhub.Prelude.{ℕ, ◌+◌, ◌-◌, ◌*◌, ◌≡◌, refl, some, List, [], ◌∷◌, String, get_elem?}
use mathlib.Core.Option
use maelstromhub.Prelude.Int.{pos}
use maelstromhub.Float.Fixed.{Fixed, milli, fixed_float, fixed_le, fixed_decimal}
use maelstromhub.Float.Fixed.Laws.{Fixed-IsOrdered, Fixed-IsArithmetic, Fixed-IsPercentage}
use maelstromhub.Models.{Candle, Feature}
use maelstromhub.Features.{Input, calculate, research_score}
use maelstromhub.Features.CrossSection.{normalize_cross_section}
use maelstromhub.Features.Scores.{ScoresInRange, calculate_scores}
use maelstromhub.Features.Research.{IsUpTo, research_score-IsUpTo}
use maelstromhub.Features.Ranking.{least_liquid_ignored}

abbrev n : ℕ → Fixed
n k = milli (pos (k * 1000))

abbrev candle : ℕ → ℕ → Candle Fixed
candle hour price = record {
  time = hour;
  coin = "BTC";
  interval = "1h";
  opening = n price;
  high = n (price + 2);
  low = n (price - 1);
  close = n (price + 1);
  volume = n (10 * hour);
  raw = [];
}

abbrev input : Input Fixed
input = record {
  coin = "BTC";
  interval = "1h";
  candles = candle 1 100 ∷ candle 2 104 ∷ candle 3 109 ∷ [];
  snapshots = [];
  spread_bps = n 2;
}

calculate_scores_example : ScoresInRange (calculate 9 10 input)
calculate_scores_example = calculate_scores Fixed-IsOrdered 9 10 input

abbrev market : String → Fixed → Feature Fixed
market coin liquidity = record {
  time = 3;
  coin = coin;
  interval = "1h";
  return_1h = n 0;
  return_4h = n 0;
  return_24h = n 0;
  volume_vs_7d_avg = n 1;
  volume_z_score = n 0;
  oi_change_1h = n 0;
  oi_change_4h = n 0;
  oi_change_24h = n 0;
  funding_z_score = n 0;
  realized_vol = n 1;
  atr = n 1;
  adx = n 1;
  relative_strength_rank = n 0;
  autocorr_1 = n 0;
  hurst_estimate = n 0;
  spread_bps = n 2;
  liquidity_score = liquidity;
  oi_anomaly_score = n 0;
  volume_anomaly_score = n 0;
  momentum_score = n 0;
  funding_anomaly_score = n 0;
  execution_quality_score = n 84;
  research_score = n 0;
  regime_label = "ignore_choppy";
  updated_at = 4;
}

abbrev markets : List (Feature Fixed)
markets = market "BTC" (n 99) ∷ market "ETH" (n 95) ∷ market "SOL" (n 97) ∷ []

least_liquid_ignored_example :
    Option.map (λ h. h.regime_label) (get_elem? (normalize_cross_section markets) 1)
    ≡ some "ignore_low_liquidity"
unfolding fixed_le fixed_decimal
least_liquid_ignored_example =
    least_liquid_ignored Fixed-IsOrdered Fixed-IsArithmetic markets 1 0 (market "ETH" (n 95))
      (market "BTC" (n 99)) ((refl, refl), ((refl, refl), ((refl, refl), tt))) refl
      (refl, (refl, (refl, tt))) refl refl

research_score-IsUpTo_example : IsUpTo 100 (research_score (market "BTC" (n 99)))
unfolding fixed_le fixed_decimal
research_score-IsUpTo_example =
    research_score-IsUpTo Fixed-IsOrdered Fixed-IsArithmetic Fixed-IsPercentage
      (market "BTC" (n 99)) (refl, refl) (refl, refl) (refl, refl) (refl, refl) (refl, refl)
      (refl, refl)
