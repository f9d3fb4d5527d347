-- ===== src/Ingest/Compute.antt =====
-- `computeFeatures` of backend/internal/ingest/scheduler.go: the features of all active markets, and the
-- flags that they raise.
use maelstromhub.Prelude.{
  ℕ, ◌≡◌, refl, Bool, false, ◌&&◌, Option, none, some, List, [], ◌∷◌, ◌++◌, String, length, ltb,
  if◌then◌else◌, All, All-map, All-append, All-trivial, arith, Bool-cases, ◌⊎◌, inl, inr,
}
use maelstromhub.Float
use maelstromhub.Float.{Float, num, ◌≼◌, ◌≺◌}
use maelstromhub.Float.Laws.{IsOrdered}
use maelstromhub.Float.Order
use maelstromhub.Models.{Candle, Feature, Flag}
use maelstromhub.Features.{
  Input, from_candles, with_snapshots, with_scores, calculate, rated, labelled, research_score,
  classify,
}
use maelstromhub.Features.CrossSection.{normalize, normalize_cross_section}
use maelstromhub.Features.Flags.{flag_when, flag_of, generate_flags}

-- What the store and the clock give: the candles of a coin, none where the query fails, and the two
-- readings that `Calculate` makes.
pub record Sources {ℓ} (F : Type ℓ) : Type ℓ where
  pub candles : String → List (Candle F)
  pub now : String → ℕ
  pub updated : String → ℕ

-- What the job asks the store to write, and what it returns.
pub record Computed {ℓ} (F : Type ℓ) : Type ℓ where
  pub upserted : List (Feature F)
  pub inserted : List Flag
  pub rows : ℕ
  pub err : Option String

-- `InsertFlags` is called unless `UpsertFeatures` fails.
abbrev pub flags_unless : Option String → List Flag → List Flag
flags_unless none flags = flags
flags_unless (some e) flags = []

module _ {ℓ} {F : Type ℓ} ⦃d : Float F⦄ where
  -- the argument of `Calculate`: no snapshots, and a spread of 2
  abbrev pub input_of : String → List (Candle F) → Input F
  input_of coin candles = record {
    coin = coin;
    interval = "1h";
    candles = candles;
    snapshots = [];
    spread_bps = num 2;
  }

  -- the first loop
  unfoldable pub calculated : Sources F → List String → List (Feature F)
  calculated src [] = []
  calculated src (coin ∷ coins) =
      let candles = src.candles coin in
      let rest = calculated src coins in
      if ltb (length candles) 2
      then rest
      else calculate (src.now coin) (src.updated coin) (input_of coin candles) ∷ rest

  -- the second loop
  unfoldable pub all_flags : List (Feature F) → List Flag
  all_flags [] = []
  all_flags (f ∷ fs) = generate_flags f ++ all_flags fs

  abbrev pub failed : String → Computed F
  failed e = record { upserted = []; inserted = []; rows = 0; err = some e }

  -- `computeFeatures`, with the coins or the error of `ActiveCoins`, and what `UpsertFeatures` answers
  unfoldable pub compute_features :
      Sources F → List String ⊎ String → (List (Feature F) → ℕ × Option String) → Computed F
  compute_features src (inr e) upsert = failed e
  compute_features src (inl coins) upsert =
      let out = normalize_cross_section (calculated src coins) in
      let (n, err) = upsert out in
      record { upserted = out; inserted = flags_unless err (all_flags out); rows = n; err = err }

  -- The fields that need a snapshot or a book have the constants that they start from.
  abbrev pub IsBlind : Feature F → Type ℓ
  IsBlind f = (f.oi_change_24h ≡ num 0) × (f.funding_z_score ≡ num 0) × (f.spread_bps ≡ num 2)

  -- The score and the regime are those of the other fields.
  abbrev pub IsConsistent : Feature F → Type ℓ
  IsConsistent f = (f.research_score ≡ research_score f) × (f.regime_label ≡ classify f)

  calculated-IsBlind : (src : Sources F) (coins : List String) → All IsBlind (calculated src coins)
  unfolding calculated calculate from_candles with_snapshots with_scores
  calculated-IsBlind src [] = tt
  calculated-IsBlind src (coin ∷ coins) = elim (Bool-cases (ltb (length (src.candles coin)) 2)) [
    | inl few ↦ rw few (calculated-IsBlind src coins)
    | inr enough ↦ rw enough ((refl, refl, refl), calculated-IsBlind src coins)
  ]

  normalized-IsBlind :
      (fs : List (Feature F)) → All IsBlind fs → All IsBlind (normalize_cross_section fs)
  unfolding normalize_cross_section normalize
  normalized-IsBlind fs h =
      All-map IsBlind IsBlind _ (λ f b. b) _
        (All-map IsBlind IsBlind _ (λ f b. b) _
          (All-map IsBlind IsBlind _ (λ f b. b) _
            (All-map IsBlind IsBlind _ (λ f b. b) _ (All-map IsBlind IsBlind _ (λ f b. b) fs h))))

  pub compute_features-IsBlind :
      (src : Sources F) (coins : List String ⊎ String)
      (upsert : List (Feature F) → ℕ × Option String)
      → All IsBlind (compute_features src coins upsert).upserted
  unfolding compute_features
  compute_features-IsBlind src (inr e) upsert = tt
  compute_features-IsBlind src (inl coins) upsert =
      normalized-IsBlind _ (calculated-IsBlind src coins)

-- the flags that the candles alone can raise
abbrev pub IsPriceFlag : Flag → Type 0
IsPriceFlag g =
    (g.flag_type ≡ "volume_anomaly")
    ⊎ ((g.flag_type ≡ "relative_strength") ⊎ (g.flag_type ≡ "volatility"))

flags_unless-All :
    (err : Option String) (flags : List Flag)
    → All IsPriceFlag flags
    → All IsPriceFlag (flags_unless err flags)
flags_unless-All none flags h = h
flags_unless-All (some e) flags h = tt

module _ {ℓ} {F : Type ℓ} ⦃d : Float F⦄ (f : Feature F) where
  three_flags :
      (volume strength volatility : Bool)
      → All IsPriceFlag (
          flag_when volume
            (flag_of f "volume_anomaly" "high" "Volume is more than 2x above 7d average")
          ++ (flag_when strength (
                flag_of f "relative_strength" "medium"
                  "Strong relative strength with neutral funding")
              ++ flag_when volatility
                  (flag_of f "volatility" "medium" "Volatility compression with volume rising")))
  three_flags volume strength volatility = ground arith

module _ {ℓ} {F : Type ℓ} ⦃d : Float F⦄ where
  -- Every feature that the job writes carries the score and the regime of the fields it is written with: both
  -- are computed again after the scores are rescaled. The order in which they are computed does not matter.
  pub compute_features-IsConsistent :
      (src : Sources F) (coins : List String ⊎ String)
      (upsert : List (Feature F) → ℕ × Option String)
      → All IsConsistent (compute_features src coins upsert).upserted
  unfolding compute_features normalize_cross_section research_score classify
  compute_features-IsConsistent src (inr e) upsert = tt
  compute_features-IsConsistent src (inl coins) upsert =
      All-map (λ (f : Feature F). Unit {0}) (IsConsistent {F = F})
        (λ (f : Feature F). labelled (rated f)) (λ f u. (refl, refl)) _ (All-trivial _)

module _ {ℓ} {F : Type ℓ} ⦃d : Float F⦄ (order : IsOrdered F) where
  open d use {decimal, neg, lt, le}
  open order use {num_lt, decimal_pos, decimal_mono, neg_nonpos, lt-eq, le_trans}

  flags_of_blind : (f : Feature F) → IsBlind f → All IsPriceFlag (generate_flags f)
  unfolding generate_flags
  flags_of_blind f (oi, funding, spread) =
      let anomaly : le (decimal 18 2) f.oi_change_24h ≡ false = rw oi (
        Order.not_le_of_lt order _ _
          (decimal_pos 18 2 (omega arith) (omega arith) (omega arith))) in
      let positive : le (num 2) f.funding_z_score ≡ false =
        rw funding (Order.not_le_of_lt order _ _ (num_lt 0 2 (omega arith) (omega arith))) in
      let negative : lt f.funding_z_score (neg (num 1)) ≡ false =
        rw (funding, lt-eq, neg_nonpos (num 1) (decimal_mono 0 1 0 (omega arith))) (ground arith) in
      let wide : lt (num 12) f.spread_bps ≡ false =
        rw
          (spread, lt-eq, Order.not_le_of_lt order _ _ (num_lt 2 12 (omega arith) (omega arith))) in
      rw (anomaly, positive, negative, wide)
        (three_flags f (le (num 2) f.volume_vs_7d_avg)
          (lt (decimal 5 2) f.return_24h && lt (Float.abs f.funding_z_score) (num 1))
          (lt f.realized_vol (decimal 2 2) && lt (num 1) f.volume_z_score))

  price_flags : (fs : List (Feature F)) → All IsBlind fs → All IsPriceFlag (all_flags fs)
  unfolding all_flags
  price_flags [] h = tt
  price_flags (f ∷ fs) (h, hs) = All-append IsPriceFlag _ _ (flags_of_blind f h) (price_flags fs hs)

  -- Whatever the candles are, the job never raises the flags on open interest, on funding, on a squeeze or on
  -- the spread: every flag that it inserts is "volume_anomaly", "relative_strength" or "volatility".
  pub compute_features_flags :
      (src : Sources F) (coins : List String ⊎ String)
      (upsert : List (Feature F) → ℕ × Option String)
      → All IsPriceFlag (compute_features src coins upsert).inserted
  unfolding compute_features
  compute_features_flags src (inr e) upsert = tt
  compute_features_flags src (inl coins) upsert =
      let out = normalize_cross_section (calculated src coins) in
      flags_unless-All (upsert out).1 (all_flags out)
        (price_flags out (normalized-IsBlind _ (calculated-IsBlind src coins)))
