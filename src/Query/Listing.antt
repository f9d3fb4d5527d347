-- ===== src/Query/Listing.antt =====
-- `ListMarkets` of backend/internal/store/query.go: a page of the markets, filtered and sorted.
--
-- A market that has no snapshot or no features has no value there: it counts as 0 in the filters and in the
-- row, and comes last in the order, whatever the direction. `strings.EqualFold` is the parameter `equal_fold`.
pub mod Page
pub mod Order
use text.Mathlib.Text.{◌==◌ as str_eq}
use maelstromhub.Prelude.{
  ℕ, ◌≤◌, ◌≡◌, Bool, true, false, ◌&&◌, ◌||◌, Option, none, some, List, String, map, take, drop,
  length, if◌then◌else◌, All, arith, refl, length-map, All-map,
}
use maelstromhub.Prelude.Int.{ℤ, pos, negsuc, leb_ℤ, ltb_ℤ, pos_part}
use maelstromhub.Prelude.Sort.{sort_by, All-sort_by, All-take, All-drop, length-take}
use maelstromhub.Float.{Float, num}
use maelstromhub.Models.{Market, MarketSnapshot, Feature, MarketRow}
use maelstromhub.Store.{Database}
use maelstromhub.Query.Rows.{
  rows_where, rows_where-passes, rows_or, newest_snapshot, newest_feature, list_flags,
}
use maelstromhub.Query.Coins.{numeric_le, volume_of, score_of}

pub record MarketQuery {ℓ} (F : Type ℓ) : Type ℓ where
  pub sort : String
  pub direction : String
  pub min_volume : F
  pub min_research_score : F
  pub regime : String
  pub limit : ℤ
  pub offset : ℤ

-- the map `sortKey`
pub data SortKey : Type 0 where
  by_coin by_price by_volume by_research_score by_funding by_adx : SortKey

unfoldable pub sort_key : String → SortKey
sort_key sort =
    if str_eq sort "coin"
    then by_coin
    else if str_eq sort "price"
    then by_price
    else if str_eq sort "volume"
    then by_volume
    else if str_eq sort "funding"
    then by_funding
    else if str_eq sort "adx"
    then by_adx
    else by_research_score

-- the limit of `ListMarkets`
abbrev pub page_limit : ℤ → ℕ
page_limit limit = if leb_ℤ limit (pos 0) || ltb_ℤ (pos 200) limit then 50 else pos_part limit

-- one row of the joins
pub record Joined {ℓ} (F : Type ℓ) : Type ℓ where
  pub coin : String
  pub snapshot : Option (MarketSnapshot F)
  pub features : Option (Feature F)

-- What the query answers for a negative offset, which PostgreSQL refuses.
abbrev pub offset_error : Option String → ℤ → Option String
offset_error (some e) offset = some e
offset_error none (pos n) = none
offset_error none (negsuc n) = some "ERROR: OFFSET must not be negative (SQLSTATE 2201X)"

module _ {ℓ} {F : Type ℓ} ⦃d : Float F⦄ where
  abbrev pub of_snapshot : Option (MarketSnapshot F) → (MarketSnapshot F → F) → Option F
  of_snapshot none get = none
  of_snapshot (some s) get = some (get s)

  abbrev pub of_features : Option (Feature F) → (Feature F → F) → Option F
  of_features none get = none
  of_features (some f) get = some (get f)

  -- `coalesce(value, 0)`
  abbrev pub or_zero : Option F → F
  or_zero none = num 0
  or_zero (some v) = v

  abbrev pub regime_of : Option (Feature F) → String
  regime_of none = ""
  regime_of (some f) = f.regime_label

  -- `coalesce(ms.mid, ms.mark_px, 0)`: a snapshot of the table has a middle price.
  abbrev pub market_row : (String → Option String) → Database F → Joined F → MarketRow F
  market_row flag_errors db r =
      let snapshot = λ (get : MarketSnapshot F → F). or_zero (of_snapshot r.snapshot get) in
      let feature = λ (get : Feature F → F). or_zero (of_features r.features get) in
      record {
        coin = r.coin;
        price = snapshot (λ s. s.mid);
        return_24h = feature (λ f. f.return_24h);
        volume_24h = snapshot (λ s. s.day_ntl_vlm);
        volume_vs_7d_avg = feature (λ f. f.volume_vs_7d_avg);
        open_interest = snapshot (λ s. s.open_interest);
        oi_change_1h = feature (λ f. f.oi_change_1h);
        oi_change_4h = feature (λ f. f.oi_change_4h);
        oi_change_24h = feature (λ f. f.oi_change_24h);
        funding = snapshot (λ s. s.funding);
        funding_z_score = feature (λ f. f.funding_z_score);
        realized_vol = feature (λ f. f.realized_vol);
        adx = feature (λ f. f.adx);
        relative_strength_rank = feature (λ f. f.relative_strength_rank);
        spread_bps = feature (λ f. f.spread_bps);
        research_score = feature (λ f. f.research_score);
        regime_label = regime_of r.features;
        top_flags = (list_flags (flag_errors r.coin) r.coin (pos 3) db).0;
      }

  -- `WHERE ...`
  abbrev pub passes : MarketQuery F → Joined F → Bool
  passes q r =
      (d.eq q.min_volume (num 0) || numeric_le q.min_volume (volume_of r.snapshot))
      && ((d.eq q.min_research_score (num 0)
            || numeric_le q.min_research_score (score_of r.features))
          && (str_eq q.regime "" || str_eq (regime_of r.features) q.regime))

  -- `ORDER BY key ASC NULLS LAST` or `DESC`
  abbrev pub nulls_last : Bool → Option F → Option F → Bool
  nulls_last asc (some v) (some w) = if asc then numeric_le v w else numeric_le w v
  nulls_last asc (some v) none = true
  nulls_last asc none (some w) = false
  nulls_last asc none none = true

  abbrev pub precedes : (String → String → Bool) → SortKey → Bool → Joined F → Joined F → Bool
  precedes collate by_coin asc a b = if asc then collate a.coin b.coin else collate b.coin a.coin
  precedes collate by_price asc a b =
      nulls_last asc (of_snapshot a.snapshot (λ s. s.mid)) (of_snapshot b.snapshot (λ s. s.mid))
  precedes collate by_volume asc a b =
      nulls_last asc (of_snapshot a.snapshot (λ s. s.day_ntl_vlm))
        (of_snapshot b.snapshot (λ s. s.day_ntl_vlm))
  precedes collate by_research_score asc a b =
      nulls_last asc (of_features a.features (λ f. f.research_score))
        (of_features b.features (λ f. f.research_score))
  precedes collate by_funding asc a b =
      nulls_last asc (of_snapshot a.snapshot (λ s. s.funding))
        (of_snapshot b.snapshot (λ s. s.funding))
  precedes collate by_adx asc a b =
      nulls_last asc (of_features a.features (λ f. f.adx)) (of_features b.features (λ f. f.adx))

  abbrev pub join_market : Database F → Market → Joined F
  join_market db m = record {
    coin = m.coin;
    snapshot = newest_snapshot m.coin db;
    features = newest_feature m.coin db;
  }

  -- all rows of the statement, before `LIMIT` and `OFFSET`
  unfoldable pub matching :
      (String → String → Bool)
      → (String → String → Bool)
      → MarketQuery F
      → Database F
      → List (Joined F)
  matching collate equal_fold q db =
      sort_by (precedes collate (sort_key q.sort) (equal_fold q.direction "asc"))
        (rows_where (passes q) (map (join_market db) db.markets))

  -- `ListMarkets`, with the errors of its query and of the queries for the flags of each coin
  unfoldable pub list_markets :
      (String → String → Bool)
      → (String → String → Bool)
      → (String → Option String)
      → Option String
      → MarketQuery F
      → Database F
      → List (MarketRow F) × Option String
  list_markets collate equal_fold flag_errors err q db = rows_or (offset_error err q.offset) (
      map (market_row flag_errors db)
        (take (page_limit q.limit) (drop (pos_part q.offset) (matching collate equal_fold q db))))
