-- ===== src/Query.antt =====
-- `SuggestDirection` of backend/internal/store/query.go: the suggestion that the dashboard shows for a market.
pub mod Suggestions
pub mod Rows
pub mod Latest
pub mod Mids
pub mod Detail
pub mod Coins
pub mod Listing
pub mod Runs
pub mod Range
pub mod Pool
mod Examples
use maelstromhub.Prelude.{Bool, ◌&&◌, ◌||◌, String, if◌then◌else◌}
use maelstromhub.Float.{Float, num}
use maelstromhub.Models.{Feature}

module _ {ℓ} {F : Type ℓ} ⦃d : Float F⦄ where
  open d use {decimal, lt, le, neg}

  -- `abs` of the store
  unfoldable pub abs : F → F
  abs v = if lt v (num 0) then neg v else v

  unfoldable pub suggest_direction : Feature F → String
  suggest_direction f =
      if lt f.execution_quality_score (num 25) || lt (num 15) f.spread_bps
      then "Ignore for now: execution quality poor"
      else if lt (num 20) f.adx
          && (lt (decimal 5 2) f.oi_change_24h && lt (abs f.funding_z_score) (num 1))
      then "Research trend continuation / breakout"
      else if lt (num 2) f.funding_z_score
          && (lt (decimal 5 2) f.return_24h && lt (decimal 5 2) f.oi_change_24h)
      then "Research crowded long / mean reversion"
      else if lt f.realized_vol (decimal 2 2) && lt (decimal 8 1) f.volume_z_score
      then "Research volatility breakout"
      else if lt f.funding_z_score (neg (num 1))
          && (le (num 0) f.return_24h && lt (decimal 3 2) f.oi_change_24h)
      then "Research short squeeze"
      else "Research watchlist candidate; inspect chart structure and liquidity before deeper work"
