-- ===== src/Ingest/Books.antt =====
-- `orderbookSnapshot`, `depthWithin` and `tradeSnapshot` of backend/internal/ingest/scheduler.go, with the
-- rows of backend/internal/hyperliquid/client.go that they read. The raw JSON of a row is left out.
use mathlib.Core.List.{foldl}
use text.Mathlib.Text.{◌==◌ as str_eq}
use maelstromhub.Prelude.{
  ℕ, zero, suc, ◌+◌, ◌*◌, Bool, true, false, ◌&&◌, ◌||◌, List, [], ◌∷◌, String, length, ltb,
  if◌then◌else◌,
}
use maelstromhub.Prelude.Int.{ℤ, pos, negsuc}
use maelstromhub.Float.{Float, num}

pub record BookLevel {ℓ} (F : Type ℓ) : Type ℓ where
  pub px : F
  pub sz : F
  pub n : ℤ

pub record L2Book {ℓ} (F : Type ℓ) : Type ℓ where
  pub coin : String
  pub levels : List (List (BookLevel F))
  pub time : ℤ

pub record Trade {ℓ} (F : Type ℓ) : Type ℓ where
  pub coin : String
  pub side : String
  pub px : F
  pub sz : F
  pub time : ℤ
  pub hash : String

pub record OrderbookSnapshot {ℓ} (F : Type ℓ) : Type ℓ where
  pub time : ℕ
  pub coin : String
  pub best_bid : F
  pub best_ask : F
  pub spread_bps : F
  pub bid_depth_10_bps : F
  pub ask_depth_10_bps : F
  pub bid_depth_50_bps : F
  pub ask_depth_50_bps : F
  pub bid_depth_100_bps : F
  pub ask_depth_100_bps : F
  pub book_imbalance_50_bps : F

pub record RecentTradeSnapshot {ℓ} (F : Type ℓ) : Type ℓ where
  pub time : ℕ
  pub coin : String
  pub trade_count : ℕ
  pub buy_volume : F
  pub sell_volume : F
  pub aggressive_buy_ratio : F
  pub avg_trade_size : F
  pub large_trade_count : ℕ

-- the variables of the loop of `tradeSnapshot`
pub record Tally {ℓ} (F : Type ℓ) : Type ℓ where
  pub now : ℕ
  pub buy : F
  pub sell : F
  pub total_size : F
  pub large : ℕ

-- `if t > 0 { now = time.UnixMilli(t) }`, in nanoseconds since Go's zero time
abbrev pub unix_or : ℕ → ℤ → ℕ
unix_or now (pos zero) = now
unix_or now (pos (suc ms)) = 62_135_596_800 * 1_000_000_000 + suc ms * 1_000_000
unix_or now (negsuc ms) = now

-- `book.Levels[i]`, or no levels
abbrev pub side {ℓ} : {A : Type ℓ} → List (List A) → ℕ → List A
side [] i = []
side (levels ∷ rest) zero = levels
side (levels ∷ rest) (suc i) = side rest i

module _ {ℓ} {F : Type ℓ} ⦃d : Float F⦄ where
  open d use {add, sub, mul, div, lt, le, neg}

  -- the price of the first level, or 0
  abbrev pub best : List (BookLevel F) → F
  best [] = num 0
  best (level ∷ rest) = level.px

  -- how far a price is from the middle, away from the other side
  abbrev pub distance : F → Bool → F → F
  distance mid bid px =
      let apart = mul (div (sub px mid) mid) (num 10_000) in if bid then neg apart else apart

  -- one round of the loop of `depthWithin`
  abbrev pub add_level : F → F → Bool → F → BookLevel F → F
  add_level mid bps bid total level =
      if le (num 0) (distance mid bid level.px) && le (distance mid bid level.px) bps
      then add total (mul level.px level.sz)
      else total

  unfoldable pub depth_within : List (BookLevel F) → F → F → Bool → F
  depth_within levels mid bps bid =
      if le mid (num 0) then num 0 else foldl (add_level mid bps bid) (num 0) levels

  -- `orderbookSnapshot` at a reading of the clock
  unfoldable pub orderbook_snapshot : ℕ → String → L2Book F → OrderbookSnapshot F
  orderbook_snapshot now coin book =
      let bids = side book.levels 0 in
      let asks = side book.levels 1 in
      let best_bid = best bids in
      let best_ask = best asks in
      let mid = div (add best_bid best_ask) (num 2) in
      let bid50 = depth_within bids mid (num 50) true in
      let ask50 = depth_within asks mid (num 50) false in
      record {
        time = unix_or now book.time;
        coin = coin;
        best_bid = best_bid;
        best_ask = best_ask;
        spread_bps =
            if lt (num 0) mid then mul (div (sub best_ask best_bid) mid) (num 10_000) else num 0;
        bid_depth_10_bps = depth_within bids mid (num 10) true;
        ask_depth_10_bps = depth_within asks mid (num 10) false;
        bid_depth_50_bps = bid50;
        ask_depth_50_bps = ask50;
        bid_depth_100_bps = depth_within bids mid (num 100) true;
        ask_depth_100_bps = depth_within asks mid (num 100) false;
        book_imbalance_50_bps =
            if lt (num 0) (add bid50 ask50) then div (sub bid50 ask50) (add bid50 ask50) else num 0;
      }

  abbrev pub is_buy : Trade F → Bool
  is_buy trade = str_eq trade.side "B" || str_eq trade.side "buy"

  -- one round of the loop
  unfoldable pub add_trade : Tally F → Trade F → Tally F
  add_trade t trade = record {
    now = unix_or t.now trade.time;
    buy = if is_buy trade then add t.buy trade.sz else t.buy;
    sell = if is_buy trade then t.sell else add t.sell trade.sz;
    total_size = add t.total_size trade.sz;
    large = if lt (num 10_000) trade.sz then suc t.large else t.large;
  }

  abbrev pub no_trades : ℕ → Tally F
  no_trades now = record { now = now; buy = num 0; sell = num 0; total_size = num 0; large = 0 }

  unfoldable pub trade_snapshot : ℕ → String → List (Trade F) → RecentTradeSnapshot F
  trade_snapshot now coin trades =
      let t = foldl add_trade (no_trades now) trades in
      record {
        time = t.now;
        coin = coin;
        trade_count = length trades;
        buy_volume = t.buy;
        sell_volume = t.sell;
        aggressive_buy_ratio =
            if lt (num 0) (add t.buy t.sell) then div t.buy (add t.buy t.sell) else num 0;
        avg_trade_size =
            if ltb 0 (length trades) then div t.total_size (num (length trades)) else num 0;
        large_trade_count = t.large;
      }
