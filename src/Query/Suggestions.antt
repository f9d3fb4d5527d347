-- ===== src/Query/Suggestions.antt =====
-- Which suggestions (backend/internal/store/query.go) the stored features lead to, and how they agree with the
-- regimes of backend/internal/features/calc.go.
use text.Mathlib.TextEquality.{eq_iff}
use maelstromhub.Prelude.{ℕ, ◌≡◌, false, Option, List, String, All, All-imp, arith, ◌⊎◌}
use maelstromhub.Float.{Float, num}
use maelstromhub.Float.Laws.{IsOrdered}
use maelstromhub.Float.Order
use maelstromhub.Models.{Feature}
use maelstromhub.Features.{classify}
use maelstromhub.Ingest.Compute.{Sources, IsBlind, compute_features, compute_features-IsBlind}
use maelstromhub.Query.{suggest_direction}

-- one of the three suggestions that ask for no rise of the open interest
abbrev pub IsReachable : String → Type 0
IsReachable s =
    (s ≡ "Ignore for now: execution quality poor")
    ⊎ ((s ≡ "Research volatility breakout")
        ⊎ (s
            ≡ "Research watchlist candidate; inspect chart structure and liquidity before deeper work"))

module _ {ℓ} {F : Type ℓ} ⦃d : Float F⦄ where
  -- A market for which a volatility breakout is suggested has that regime too, if it is liquid enough: if its
  -- liquidity score is not below 20.
  breakout_classify :
      (f : Feature F)
      → suggest_direction f ≡ "Research volatility breakout"
      → d.lt f.liquidity_score (num 20) ≡ false
      → classify f ≡ "volatility_breakout_candidate"
  unfolding suggest_direction classify
  breakout_classify f suggested liquid = ground (
    arith,
    eq_iff "Ignore for now: execution quality poor" "Research volatility breakout",
    eq_iff "Research trend continuation / breakout" "Research volatility breakout",
    eq_iff "Research crowded long / mean reversion" "Research volatility breakout",
    eq_iff "Research short squeeze" "Research volatility breakout",
    eq_iff "Research watchlist candidate; inspect chart structure and liquidity before deeper work"
        "Research volatility breakout",
  )

module _ {ℓ} {F : Type ℓ} ⦃d : Float F⦄ (order : IsOrdered F) where
  open d use {decimal, neg, lt, le}
  open order use {decimal_pos, lt-eq}

  suggestion_of_blind : (f : Feature F) → IsBlind f → IsReachable (suggest_direction f)
  unfolding suggest_direction
  suggestion_of_blind f (oi, funding, spread) =
      let five : lt (decimal 5 2) f.oi_change_24h ≡ false = rw (
        oi,
        lt-eq,
        Order.not_le_of_lt order _ _ (decimal_pos 5 2 (omega arith) (omega arith) (omega arith)),
      ) in
      let three : lt (decimal 3 2) f.oi_change_24h ≡ false = rw (
        oi,
        lt-eq,
        Order.not_le_of_lt order _ _ (decimal_pos 3 2 (omega arith) (omega arith) (omega arith)),
      ) in
      ground (arith, five, three)

  -- Whatever the candles are, the features that the scheduler stores never lead to the suggestions of a trend
  -- continuation, of a crowded long or of a short squeeze.
  pub suggestions_of_computed :
      (src : Sources F) (coins : List String ⊎ String)
      (upsert : List (Feature F) → ℕ × Option String)
      → All (λ f. IsReachable (suggest_direction f)) (compute_features src coins upsert).upserted
  suggestions_of_computed src coins upsert =
      All-imp IsBlind (λ f. IsReachable (suggest_direction f)) _ suggestion_of_blind
        (compute_features-IsBlind src coins upsert)
