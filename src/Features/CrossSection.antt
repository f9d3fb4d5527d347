-- ===== src/Features/CrossSection.antt =====
-- `NormalizeCrossSection` and `normalize` of backend/internal/features/calc.go: scores are rescaled over
-- all markets, from 0 for the least to 100 for the greatest.
use maelstromhub.Prelude.{List, map, if◌then◌else◌}
use maelstromhub.Float.{Float, num}
use maelstromhub.Models.{Feature}
use maelstromhub.Features.{rated, labelled}
use maelstromhub.Features.Stats.{min_max, clamp}

module _ {ℓ} {F : Type ℓ} ⦃d : Float F⦄ where
  open d use {sub, mul, div, eq}

  -- the value that is set for `v`
  unfoldable pub rescaled : F → F → F → F
  rescaled low high v =
      if eq high low then num 50 else clamp (mul (div (sub v low) (sub high low)) (num 100))

  -- `normalize`: all values are read before one is set
  unfoldable pub normalize :
      (Feature F → F) → (F → Feature F → Feature F) → List (Feature F) → List (Feature F)
  normalize value set features =
      let (low, high) = min_max (map value features) in
      map (λ f. set (rescaled low high (value f)) f) features

  abbrev pub set_rank : F → Feature F → Feature F
  set_rank v f = record f { relative_strength_rank = v }

  abbrev pub set_liquidity : F → Feature F → Feature F
  set_liquidity v f = record f { liquidity_score = v }

  abbrev pub set_oi : F → Feature F → Feature F
  set_oi v f = record f { oi_anomaly_score = v }

  abbrev pub set_volume : F → Feature F → Feature F
  set_volume v f = record f { volume_anomaly_score = v }

  unfoldable pub normalize_cross_section : List (Feature F) → List (Feature F)
  normalize_cross_section features =
      let ranked = normalize (λ f. f.return_24h) set_rank features in
      let liquid = normalize (λ f. f.liquidity_score) set_liquidity ranked in
      let open_interest = normalize (λ f. f.oi_anomaly_score) set_oi liquid in
      let volumes = normalize (λ f. f.volume_anomaly_score) set_volume open_interest in
      map (λ f. labelled (rated f)) volumes
