-- ===== src/Query/Detail.antt =====
-- What `MarketDetail` of backend/internal/store/query.go shows where a query of it fails.
use maelstromhub.Prelude.{ℕ, ◌≡◌, refl, true, some, String, arith}
use maelstromhub.Float.{Float, num}
use maelstromhub.Float.Laws.{IsOrdered}
use maelstromhub.Store.{Database}
use maelstromhub.Query.{suggest_direction}
use maelstromhub.Query.Rows.{Failures, market_detail, latest_feature, zero_feature}

module _ {ℓ} {F : Type ℓ} ⦃d : Float F⦄ (order : IsOrdered F) where
  open order use {num_lt}

  suggest_direction_of_zero :
      suggest_direction (zero_feature {F = F}) ≡ "Ignore for now: execution quality poor"
  unfolding suggest_direction
  suggest_direction_of_zero =
      let below : d.lt (num 0) (num 25) ≡ true = num_lt 0 25 (omega arith) (omega arith) in
      rw below refl

  -- If the query for the features of a market fails, with whatever error, the details of the market show
  -- features that are all 0 and the suggestion to ignore it, whatever the table has.
  pub market_detail_failed :
      (fails : Failures) (start end : ℕ) (coin : String) (db : Database F) (e : String)
      → fails.feature_error ≡ some e
      → let detail = market_detail fails start end coin db in
        (detail.latest_features ≡ some zero_feature)
        × (detail.suggested_research_direction ≡ "Ignore for now: execution quality poor")
  unfolding market_detail latest_feature
  market_detail_failed fails start end coin db e failed =
      rw failed (refl, suggest_direction_of_zero)
