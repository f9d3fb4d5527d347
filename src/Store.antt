-- ===== src/Store.antt =====
-- The write methods of backend/internal/store/store.go: each sends a batch of statements, one for each row.
--
-- PostgreSQL keeps times to the microsecond. The ids and the times that it makes up are left out, except for
-- `updated_at` of a feature. What Redis keeps is the last list of snapshots that was set.
pub mod Batch
pub mod Rows
pub mod Keys
pub mod Repeat
mod Examples
use text.Mathlib.Text.{◌==◌ as str_eq}
use maelstromhub.Prelude.{
  ℕ, ◌*◌, ◌/◌, Bool, ◌&&◌, true, false, Option, none, some, List, [], ◌∷◌, ◌++◌, String, ◌==◌,
}
use maelstromhub.Models.{Market, MarketSnapshot, Candle, Feature, Flag}
use maelstromhub.Ingest.Books.{OrderbookSnapshot, RecentTradeSnapshot}
use Batch.{send_batch}
use Rows.{upsert}

pub record Database {ℓ} (F : Type ℓ) : Type ℓ where
  pub markets : List Market
  pub market_snapshots : List (MarketSnapshot F)
  pub candles : List (Candle F)
  pub features : List (Feature F)
  pub flags : List Flag
  pub orderbook_snapshots : List (OrderbookSnapshot F)
  pub recent_trade_snapshots : List (RecentTradeSnapshot F)
  pub cached : List (MarketSnapshot F)

-- a `timestamptz`
abbrev pub micros : ℕ → ℕ
micros time = time / 1000 * 1000

-- `{}` where there is no JSON
abbrev pub json_or_empty : List ℕ → List ℕ
json_or_empty [] = b'{' ∷ b'}' ∷ []
json_or_empty (b ∷ bytes) = b ∷ bytes

-- (coin, time) and (coin, interval, time), the primary keys
abbrev pub same_moment : String × ℕ → String × ℕ → Bool
same_moment (coin, time) (coin', time') = str_eq coin coin' && time == time'

abbrev pub same_bar : String × String × ℕ → String × String × ℕ → Bool
same_bar (coin, interval, time) (coin', interval', time') =
    str_eq coin coin' && (str_eq interval interval' && time == time')

abbrev pub market_key : Market → String
market_key m = m.coin

abbrev pub stored_market : Market → Market
stored_market m = record m { raw_meta = json_or_empty m.raw_meta }

abbrev pub put_market : List Market → Market → List Market
put_market table m = upsert market_key str_eq table (stored_market m)

abbrev pub stored_flag : Flag → Flag
stored_flag g = record g { time = micros g.time }

abbrev pub put_flag : List Flag → Flag → List Flag
put_flag table g = table ++ (stored_flag g ∷ [])

-- What a write method answers: the database, the count and the error.
abbrev pub Written {ℓ} : Type ℓ → Type ℓ
Written F = Database F × (ℕ × Option String)

module _ {ℓ} {F : Type ℓ} where
  abbrev pub snapshot_key : MarketSnapshot F → String × ℕ
  snapshot_key s = (s.coin, s.time)

  abbrev pub candle_key : Candle F → String × String × ℕ
  candle_key c = (c.coin, c.interval, c.time)

  abbrev pub feature_key : Feature F → String × String × ℕ
  feature_key f = (f.coin, f.interval, f.time)

  abbrev pub book_key : OrderbookSnapshot F → String × ℕ
  book_key s = (s.coin, s.time)

  abbrev pub trades_key : RecentTradeSnapshot F → String × ℕ
  trades_key s = (s.coin, s.time)

  abbrev pub stored_snapshot : MarketSnapshot F → MarketSnapshot F
  stored_snapshot s = record s { time = micros s.time; raw_ctx = json_or_empty s.raw_ctx }

  abbrev pub stored_candle : Candle F → Candle F
  stored_candle c = record c { time = micros c.time; raw = json_or_empty c.raw }

  abbrev pub stored_feature : ℕ → Feature F → Feature F
  stored_feature now f = record f { time = micros f.time; updated_at = now }

  abbrev pub stored_book : OrderbookSnapshot F → OrderbookSnapshot F
  stored_book s = record s { time = micros s.time }

  abbrev pub stored_trades : RecentTradeSnapshot F → RecentTradeSnapshot F
  stored_trades s = record s { time = micros s.time }

  -- one statement of each batch
  abbrev pub put_snapshot : List (MarketSnapshot F) → MarketSnapshot F → List (MarketSnapshot F)
  put_snapshot table s = upsert snapshot_key same_moment table (stored_snapshot s)

  abbrev pub put_candle : List (Candle F) → Candle F → List (Candle F)
  put_candle table c = upsert candle_key same_bar table (stored_candle c)

  abbrev pub put_feature : ℕ → List (Feature F) → Feature F → List (Feature F)
  put_feature now table f = upsert feature_key same_bar table (stored_feature now f)

  abbrev pub put_book :
      List (OrderbookSnapshot F) → OrderbookSnapshot F → List (OrderbookSnapshot F)
  put_book table s = upsert book_key same_moment table (stored_book s)

  abbrev pub put_trades :
      List (RecentTradeSnapshot F) → RecentTradeSnapshot F → List (RecentTradeSnapshot F)
  put_trades table s = upsert trades_key same_moment table (stored_trades s)

  unfoldable pub upsert_markets : (ℕ → Option String) → List Market → Database F → Written F
  upsert_markets answers rows db =
      let (table, result) = send_batch put_market answers rows db.markets in
      (record db { markets = table }, result)

  -- the call of Redis, which is made for a batch of some rows that succeeds, and may fail unseen
  abbrev pub cache :
      Bool
      → Option String
      → List (MarketSnapshot F)
      → List (MarketSnapshot F)
      → List (MarketSnapshot F)
  cache is_set (some e) rows old = old
  cache is_set none [] old = old
  cache true none (row ∷ rows) old = row ∷ rows
  cache false none (row ∷ rows) old = old

  unfoldable pub insert_market_snapshots :
      (ℕ → Option String) → Bool → List (MarketSnapshot F) → Database F → Written F
  insert_market_snapshots answers is_set rows db =
      let (table, (count, err)) = send_batch put_snapshot answers rows db.market_snapshots in
      (
        record db { market_snapshots = table; cached = cache is_set err rows db.cached },
        (count, err),
      )

  unfoldable pub upsert_candles : (ℕ → Option String) → List (Candle F) → Database F → Written F
  upsert_candles answers rows db =
      let (table, result) = send_batch put_candle answers rows db.candles in
      (record db { candles = table }, result)

  -- at the database's time `now`
  unfoldable pub upsert_features :
      ℕ → (ℕ → Option String) → List (Feature F) → Database F → Written F
  upsert_features now answers rows db =
      let (table, result) = send_batch (put_feature now) answers rows db.features in
      (record db { features = table }, result)

  unfoldable pub insert_flags : (ℕ → Option String) → List Flag → Database F → Written F
  insert_flags answers rows db =
      let (table, result) = send_batch put_flag answers rows db.flags in
      (record db { flags = table }, result)

  unfoldable pub insert_orderbook_snapshots :
      (ℕ → Option String) → List (OrderbookSnapshot F) → Database F → Written F
  insert_orderbook_snapshots answers rows db =
      let (table, result) = send_batch put_book answers rows db.orderbook_snapshots in
      (record db { orderbook_snapshots = table }, result)

  unfoldable pub insert_recent_trade_snapshots :
      (ℕ → Option String) → List (RecentTradeSnapshot F) → Database F → Written F
  insert_recent_trade_snapshots answers rows db =
      let (table, result) = send_batch put_trades answers rows db.recent_trade_snapshots in
      (record db { recent_trade_snapshots = table }, result)
