-- ===== src/Query/Examples.antt =====
-- The theorems about backend/internal/store/query.go at concrete features and tables.
use Prim.Native.Nat.{min}
use Prim.Native.String.{count}
use maelstromhub.Prelude.Sort.{IsSortedBy}
use mathlib.Core.List.{Perm}
use text.Mathlib.Text.{◌==◌ as str_eq}
use maelstromhub.Prelude.{
  ℕ, ◌+◌, ◌*◌, ◌≡◌, ◌↔◌, ◌≤◌, refl, Bool, true, Option, none, some, List, [], ◌∷◌, ◌++◌, String,
  inl, All, arith, length, leb,
}
use maelstromhub.Prelude.Dict.{Dict, lookup}
use maelstromhub.Prelude.Int.{pos}
use maelstromhub.Float.Fixed.{Fixed, milli, fixed_float}
use maelstromhub.Float.Fixed.Laws.{Fixed-IsOrdered}
use maelstromhub.Models.{Market, MarketSnapshot, Candle, Feature}
use maelstromhub.Ingest.Compute.{Sources, compute_features}
use maelstromhub.Store.{Database, micros, insert_market_snapshots}
use maelstromhub.Store.Batch.{send_batch, exec_loop}
use maelstromhub.Ingest.Mids.{ingest_mids}
use maelstromhub.Query.{suggest_direction}
use maelstromhub.Query.Rows.{newest_snapshot}
use maelstromhub.Query.Mids.{IsBare, ingest_mids-IsBare}
use maelstromhub.Query.Coins.{
  IsCollation, listed, shortlist_limit, shortlist_coins, ranks, score_in, shortlist_coins-best,
}
use maelstromhub.Query.Pool.{IsStuck, all_asking, all_asking-reached, standstill_iff}
use maelstromhub.Query.Listing.{
  MarketQuery, Joined, market_row, precedes, sort_key, page_limit, passes, join_market,
  list_markets,
}
use maelstromhub.Query.Listing.Order.{IsPage, list_markets-IsPage}
use maelstromhub.Query.Rows.{rows_where}
use maelstromhub.Prelude.{map}
use maelstromhub.Query.Listing.Page.{IsWanted, list_markets-IsWanted}
use maelstromhub.Query.Suggestions.{IsReachable, suggestions_of_computed}

abbrev n : ℕ → Fixed
n k = milli (pos (k * 1000))

abbrev quiet_market : Feature Fixed
quiet_market = record {
  time = 3;
  coin = "BTC";
  interval = "1h";
  return_1h = n 0;
  return_4h = n 0;
  return_24h = n 0;
  volume_vs_7d_avg = n 1;
  volume_z_score = n 2;
  oi_change_1h = n 0;
  oi_change_4h = n 0;
  oi_change_24h = n 0;
  funding_z_score = n 0;
  realized_vol = milli (pos 10);
  atr = n 1;
  adx = n 1;
  relative_strength_rank = n 0;
  autocorr_1 = n 0;
  hurst_estimate = n 0;
  spread_bps = n 2;
  liquidity_score = n 90;
  oi_anomaly_score = n 0;
  volume_anomaly_score = n 50;
  momentum_score = n 0;
  funding_anomaly_score = n 0;
  execution_quality_score = n 84;
  research_score = n 0;
  regime_label = "ignore_choppy";
  updated_at = 4;
}

abbrev candle : ℕ → Candle Fixed
candle hour = record {
  time = hour;
  coin = "BTC";
  interval = "1h";
  opening = n 100;
  high = n 110;
  low = n 90;
  close = n (100 + hour);
  volume = n (10 * hour);
  raw = [];
}

abbrev sources : Sources Fixed
sources = record {
  candles = λ coin. candle 1 ∷ candle 2 ∷ candle 9 ∷ [];
  now = λ coin. 9;
  updated = λ coin. 10;
}

abbrev upsert : List (Feature Fixed) → ℕ × Option String
upsert fs = (2, none)

suggestions_of_computed_example :
    All
      (λ f. IsReachable (suggest_direction f))
      (compute_features sources (inl ("BTC" ∷ "ETH" ∷ [])) upsert).upserted
suggestions_of_computed_example =
    suggestions_of_computed Fixed-IsOrdered sources (inl ("BTC" ∷ "ETH" ∷ [])) upsert

abbrev snapshot : ℕ → String → ℕ → MarketSnapshot Fixed
snapshot time coin volume = record {
  time = time;
  coin = coin;
  mid = n 100;
  mark_px = n 100;
  oracle_px = n 100;
  prev_day_px = n 90;
  day_ntl_vlm = n volume;
  open_interest = n 7;
  funding = n 1;
  premium = n 0;
  raw_ctx = [];
}

abbrev market : String → Market
market coin = record {
  coin = coin;
  name = coin;
  sz_decimals = pos 5;
  max_leverage = pos 40;
  is_active = true;
  raw_meta = [];
}

abbrev stored : Database Fixed
stored = record {
  markets = market "BTC" ∷ market "ETH" ∷ [];
  market_snapshots = snapshot 1000 "BTC" 500 ∷ snapshot 2000 "ETH" 300 ∷ [];
  candles = [];
  features = quiet_market ∷ [];
  flags = [];
  orderbook_snapshots = [];
  recent_trade_snapshots = [];
  cached = [];
}

abbrev accepted : ℕ → Option String
accepted i = none

abbrev mids : Dict Fixed
mids = ("BTC", n 101) ∷ ("DOGE", n 2) ∷ []

ingest_mids-IsBare_example :
    (s : MarketSnapshot Fixed) × (newest_snapshot "BTC"
        (ingest_mids 5_000 mids accepted true stored).0
      ≡ some s)
    × (s.time ≡ micros 5_000)
    × IsBare s
unfolding ingest_mids insert_market_snapshots send_batch exec_loop lookup
ingest_mids-IsBare_example =
    ingest_mids-IsBare 5_000 mids accepted true stored "BTC" (n 101) refl
      (omega arith, (omega arith, tt)) refl

-- an order of texts by their length
abbrev by_length : String → String → Bool
by_length s t = leb (count s) (count t)

by_length-IsCollation : IsCollation by_length
by_length-IsCollation = record { total = λ s t. ground arith; trans = λ s t u h k. ground arith }

shortlist_coins-best_example :
    let chosen = (shortlist_coins by_length none (pos 1) stored).0 in
    (length chosen ≡ min (shortlist_limit (pos 1)) (length (listed stored)))
    × (rest : List String) × Perm (chosen ++ rest) (listed stored)
    × IsSortedBy (ranks by_length (score_in stored)) (chosen ++ rest)
shortlist_coins-best_example =
    shortlist_coins-best Fixed-IsOrdered by_length by_length-IsCollation (pos 1) stored

abbrev wanted : MarketQuery Fixed
wanted = record {
  sort = "volume";
  direction = "desc";
  min_volume = n 400;
  min_research_score = n 0;
  regime = "";
  limit = pos 1000;
  offset = pos 0;
}

abbrev same_text : String → String → Bool
same_text s t = str_eq s t

list_markets-IsWanted_example :
    let rows = (list_markets by_length same_text (λ coin. none) none wanted stored).0 in
    (length rows ≤ 200) × All (IsWanted wanted) rows
list_markets-IsWanted_example =
    list_markets-IsWanted by_length same_text (λ coin. none) none wanted stored

standstill_iff_example : IsStuck all_asking ↔ (all_asking ≡ all_asking)
standstill_iff_example = standstill_iff all_asking all_asking-reached

list_markets-IsPage_example :
    (page : List (Joined Fixed)) × (list_markets by_length same_text
        (λ coin. none)
        none
        wanted
        stored
      ≡ (map (market_row (λ coin. none) stored) page, none))
    × IsPage
        (precedes by_length (sort_key "volume") (same_text "desc" "asc"))
        0
        (page_limit (pos 1000))
        (rows_where (passes wanted) (map (join_market stored) stored.markets))
        page
list_markets-IsPage_example =
    list_markets-IsPage Fixed-IsOrdered by_length by_length-IsCollation same_text (λ coin. none)
      wanted stored 0 refl
