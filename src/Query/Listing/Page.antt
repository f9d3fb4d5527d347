-- ===== src/Query/Listing/Page.antt =====
-- What `ListMarkets` (backend/internal/store/query.go) shows a client.
use text.Mathlib.Text.{◌==◌ as str_eq}
use maelstromhub.Prelude.{
  ℕ, ◌≤◌, ◌≡◌, Bool, true, ◌&&◌, ◌||◌, Option, none, some, List, String, map, take, drop, length,
  All, arith, refl, length-map, All-map,
}
use maelstromhub.Prelude.Int.{ℤ, pos_part}
use maelstromhub.Prelude.Sort.{All-sort_by, All-take, All-drop, length-take}
use maelstromhub.Float.{Float, num}
use maelstromhub.Models.{MarketSnapshot, Feature, MarketRow}
use maelstromhub.Store.{Database}
use maelstromhub.Query.Rows.{rows_where-passes, rows_or}
use maelstromhub.Query.Coins.{numeric_le, volume_of, score_of}
use maelstromhub.Query.Listing.{
  MarketQuery, sort_key, page_limit, Joined, of_snapshot, of_features, or_zero, market_row, passes,
  precedes, join_market, matching, list_markets,
}

and_true3 : (a b c : Bool) → (a && (b && c)) ≡ true → (a ≡ true) × (b ≡ true) × (c ≡ true)
and_true3 a b c h = ground (arith, h)

module _ {ℓ} {F : Type ℓ} ⦃d : Float F⦄ where
  -- what the filters say of a row of the answer
  abbrev pub IsWanted : MarketQuery F → MarketRow F → Type 0
  IsWanted q row =
      ((d.eq q.min_volume (num 0) || numeric_le q.min_volume row.volume_24h) ≡ true)
      × ((d.eq q.min_research_score (num 0) || numeric_le q.min_research_score row.research_score)
          ≡ true)
      × ((str_eq q.regime "" || str_eq row.regime_label q.regime) ≡ true)

  volume_of_lem :
      (o : Option (MarketSnapshot F)) → or_zero (of_snapshot o (λ s. s.day_ntl_vlm)) ≡ volume_of o
  unfolding volume_of
  volume_of_lem none = refl
  volume_of_lem (some s) = refl

  score_of_lem :
      (o : Option (Feature F)) → or_zero (of_features o (λ f. f.research_score)) ≡ score_of o
  unfolding score_of
  score_of_lem none = refl
  score_of_lem (some f) = refl

  passes-IsWanted :
      (flag_errors : String → Option String) (db : Database F) (q : MarketQuery F) (r : Joined F)
      → passes q r ≡ true
      → IsWanted q (market_row flag_errors db r)
  passes-IsWanted flag_errors db q r h =
      rw (volume_of_lem r.snapshot, score_of_lem r.features) (and_true3 _ _ _ h)

page_limit_bound : (limit : ℤ) → page_limit limit ≤ 200
page_limit_bound limit = ground arith

rows_or-All {ℓ κ} :
    {A : Type ℓ} (P : A → Type κ) (err : Option String) (rows : List A)
    → All P rows
    → All P (rows_or err rows).0
rows_or-All P none rows h = h
rows_or-All P (some e) rows h = tt

length-rows_or {ℓ} :
    {A : Type ℓ} (err : Option String) (rows : List A) (n : ℕ)
    → length rows ≤ n
    → length (rows_or err rows).0 ≤ n
length-rows_or none rows n h = h
length-rows_or (some e) rows n h = omega arith

module _ {ℓ} {F : Type ℓ} ⦃d : Float F⦄ where
  matching-passes :
      (collate equal_fold : String → String → Bool) (q : MarketQuery F) (db : Database F)
      → All (λ r. passes q r ≡ true) (matching collate equal_fold q db)
  unfolding matching
  matching-passes collate equal_fold q db =
      All-sort_by (precedes collate (sort_key q.sort) (equal_fold q.direction "asc"))
        (λ r. passes q r ≡ true) _ (rows_where-passes (passes q) (map (join_market db) db.markets))

  -- Whatever a client asks for, and whatever fails, the list has at most 200 markets, and each of them, as it
  -- is shown, meets the filters: the least volume and the least research score, unless they are 0, and the
  -- regime, unless it is empty. A market without a value is shown, and filtered, as 0.
  pub list_markets-IsWanted :
      (collate equal_fold : String → String → Bool) (flag_errors : String → Option String)
      (err : Option String) (q : MarketQuery F) (db : Database F)
      → let rows = (list_markets collate equal_fold flag_errors err q db).0 in
        (length rows ≤ 200) × All (IsWanted q) rows
  unfolding list_markets
  list_markets-IsWanted collate equal_fold flag_errors err q db =
      let all = matching collate equal_fold q db in
      let page = take (page_limit q.limit) (drop (pos_part q.offset) all) in
      let bound = length-take (page_limit q.limit) (drop (pos_part q.offset) all) in
      let wanted =
        All-take (λ r. passes q r ≡ true) (page_limit q.limit) _
          (All-drop (λ r. passes q r ≡ true) (pos_part q.offset) all
            (matching-passes collate equal_fold q db)) in
      (
        length-rows_or _ (map (market_row flag_errors db) page) 200 (
            omega (
              arith,
              bound,
              page_limit_bound q.limit,
              length-map (market_row flag_errors db) page,
            )),
        rows_or-All (IsWanted q) _ _ (
            All-map (λ r. passes q r ≡ true) (IsWanted q) (market_row flag_errors db)
              (passes-IsWanted flag_errors db q) page wanted),
      )
