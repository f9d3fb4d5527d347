-- ===== src/Ingest/Trades.antt =====
-- The summary of the recent trades (backend/internal/ingest/scheduler.go).
use mathlib.Core.List.{foldl}
use maelstromhub.Prelude.{ℕ, ◌+◌, ◌≤◌, List, [], ◌∷◌, String, All, arith, length}
use maelstromhub.Float.{Float, num, ◌≼◌, ◌≺◌}
use maelstromhub.Float.Laws.{IsOrdered, IsArithmetic}
use maelstromhub.Ingest.Books.{Trade, Tally, add_trade, no_trades, trade_snapshot}

module _ {ℓ} {F : Type ℓ} ⦃d : Float F⦄ where
  abbrev pub HasSize : Trade F → Type 0
  HasSize trade = num 0 ≼ trade.sz

  abbrev IsTally : Tally F → Type 0
  IsTally t = (num 0 ≼ t.buy) × (num 0 ≼ t.sell)

  add_trade_large :
      (t : Tally F) (trades : List (Trade F))
      → (foldl add_trade t trades).large ≤ t.large + length trades
  unfolding add_trade
  add_trade_large t [] = omega arith
  add_trade_large t (trade ∷ trades) = ground (arith, add_trade_large (add_trade t trade) trades)

module _ {ℓ} {F : Type ℓ} ⦃d : Float F⦄ (order : IsOrdered F) (laws : IsArithmetic F) where
  open d use {add, div, lt, inf}
  open order use {le_trans, decimal_mono, refl_of_le}
  open laws use {add_grows, div_mono, div_self, div_nonneg}

  add_trade-IsTally :
      (t : Tally F) (trade : Trade F) → IsTally t → HasSize trade → IsTally (add_trade t trade)
  unfolding add_trade
  add_trade-IsTally t trade (b, s) h = ground (
    arith,
    add_grows t.buy trade.sz,
    add_grows t.sell trade.sz,
    le_trans (num 0) t.buy (add t.buy trade.sz),
    le_trans (num 0) t.sell (add t.sell trade.sz),
  )

  trades-IsTally :
      (trades : List (Trade F)) (t : Tally F)
      → IsTally t
      → All HasSize trades
      → IsTally (foldl add_trade t trades)
  trades-IsTally [] t i h = i
  trades-IsTally (trade ∷ trades) t i (h, hs) =
      trades-IsTally trades (add_trade t trade) (add_trade-IsTally t trade i h) hs

  share :
      (b s : F)
      → num 0 ≼ b
      → num 0 ≼ s
      → num 0 ≺ add b s
      → add b s ≺ inf
      → (num 0 ≼ div b (add b s)) × (div b (add b s) ≼ num 1)
  share b s hb hs some_sum finite = (
    div_nonneg b (add b s) hb some_sum finite,
    le_trans _ _ _ (div_mono b (add b s) (add b s) hb (add_grows b s hb hs) some_sum finite)
        (rw (div_self (add b s) some_sum finite) (decimal_mono 1 1 0 (omega arith))),
  )

  -- If no size is negative and the bought and sold sizes add up to a finite number, the ratio of bought size
  -- lies between 0 and 1; the volumes are not negative and at most all trades count as large.
  pub snapshot_ratio :
      (now : ℕ) (coin : String) (trades : List (Trade F))
      → All HasSize trades
      → add (trade_snapshot now coin trades).buy_volume (trade_snapshot now coin trades).sell_volume
        ≺ inf
      → let s = trade_snapshot now coin trades in
        ((num 0 ≼ s.aggressive_buy_ratio) × (s.aggressive_buy_ratio ≼ num 1))
        × ((num 0 ≼ s.buy_volume) × (num 0 ≼ s.sell_volume))
        × (s.large_trade_count ≤ s.trade_count)
  unfolding trade_snapshot
  snapshot_ratio now coin trades h finite =
      let zero_real = decimal_mono 0 0 0 (omega arith) in
      let t = foldl add_trade (no_trades now) trades in
      let (b, s) = trades-IsTally trades (no_trades now) (zero_real, zero_real) h in
      (
        ground (arith, zero_real, decimal_mono 0 1 0, share t.buy t.sell b s),
        (b, s),
        omega (arith, add_trade_large (no_trades now) trades),
      )
