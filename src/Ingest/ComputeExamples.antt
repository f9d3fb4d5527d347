-- ===== src/Ingest/ComputeExamples.antt =====
-- The theorem about `computeFeatures` of backend/internal/ingest/scheduler.go over a concrete database.
use Prim.Native.String.{count}
use maelstromhub.Prelude.{ℕ, ◌*◌, refl, ◌≡◌, Bool, true, none, [], ◌∷◌, String, arith, leb, length}
use maelstromhub.Prelude.Int.{pos}
use maelstromhub.Prelude.Sort.{sort_by, insert_by}
use maelstromhub.Float.Fixed.{Fixed, milli, fixed_float}
use maelstromhub.Models.{Candle}
use maelstromhub.Store.{Database, micros}
use maelstromhub.Query.Coins.{active_coins, listed}
use maelstromhub.Query.Rows.{rows_where}
use maelstromhub.Query.Range.{IsLatest}
use maelstromhub.Ingest.Pipeline.{
  Surroundings, read_for, HasFeature, compute_features_job, compute_features_job-HasFeature,
}

abbrev n : ℕ → Fixed
n k = milli (pos (k * 1000))

abbrev candle : ℕ → Candle Fixed
candle hour = record {
  time = hour * 1000;
  coin = "BTC";
  interval = "1h";
  opening = n 100;
  high = n 110;
  low = n 90;
  close = n 105;
  volume = n (10 * hour);
  raw = [];
}

abbrev stored : Database Fixed
stored = record {
  markets =
      record {
        coin = "BTC";
        name = "BTC";
        sz_decimals = pos 5;
        max_leverage = pos 40;
        is_active = true;
        raw_meta = [];
      }
      ∷ [];
  market_snapshots = [];
  candles = candle 3 ∷ candle 1 ∷ candle 40 ∷ [];
  features = [];
  flags = [];
  orderbook_snapshots = [];
  recent_trade_snapshots = [];
  cached = [];
}

abbrev by_length : String → String → Bool
by_length s t = leb (count s) (count t)

abbrev surroundings : Surroundings
surroundings = record {
  coins_error = none;
  candles_error = λ coin. none;
  start = λ coin. 9_000;
  end = λ coin. 9_000;
  now = λ coin. 9_500;
  updated = λ coin. 9_600;
  stored_at = 10_000;
  feature_errors = λ i. none;
  flag_errors = λ i. none;
}

two_candles : length (read_for surroundings stored "BTC") ≡ 2
unfolding rows_where
two_candles = refl

compute_features_job-HasFeature_example :
    (time : ℕ) × IsLatest time (read_for surroundings stored "BTC")
    × HasFeature ("BTC", "1h", micros time) (compute_features_job by_length surroundings stored).0
unfolding active_coins listed rows_where sort_by insert_by
compute_features_job-HasFeature_example =
    compute_features_job-HasFeature by_length surroundings stored 0 "BTC" refl refl (λ j. refl) refl
      (omega (arith, two_candles))
