-- ===== src/Query/Listing/Order.antt =====
-- The order in which `ListMarkets` (backend/internal/store/query.go) lists the markets, and the page that it cuts out.
use Prim.Native.Nat.{min}
use mathlib.Core.List.{Perm}
use maelstromhub.Prelude.{
  ℕ, zero, suc, ◌+◌, [], ◌∷◌, length-append, ◌≡◌, refl, Bool, true, false, Option, none, some, List,
  String, ◌++◌, map, take, drop, length, arith, ◌⊎◌, inl, inr, ap, sym, ◌∙◌,
}
use maelstromhub.Prelude.Int.{pos}
use maelstromhub.Prelude.Sort.{IsSortedBy, sort_by, sort_by-perm, sort_by-IsSortedBy, take-drop}
use maelstromhub.Float.{Float}
use maelstromhub.Float.Laws.{IsOrdered}
use maelstromhub.Store.{Database}
use maelstromhub.Query.Rows.{rows_where}
use maelstromhub.Query.Coins.{IsCollation, numeric_le_total, numeric_le_trans}
use maelstromhub.Query.Listing.{
  MarketQuery, SortKey, by_coin, by_price, by_volume, by_research_score, by_funding, by_adx,
  sort_key, page_limit, Joined, market_row, passes, nulls_last, precedes, join_market, matching,
  list_markets,
}

-- The page is what is listed behind `offset` rows of a sorted arrangement of `all`, up to `limit` rows.
pub record IsPage {ℓ} {R : Type ℓ} (le : R → R → Bool) (offset limit : ℕ) (all page : List R)
    : Type ℓ where
  pub before : List R
  pub after : List R
  pub arranged : Perm (before ++ (page ++ after)) all
  pub sorted : IsSortedBy le (before ++ (page ++ after))
  pub skipped : length before ≡ min offset (length before + (length page + length after))
  pub full : length page ≡ min limit (length page + length after)

take-drop-length {ℓ} :
    {R : Type ℓ} (n : ℕ) (rows : List R)
    → length (take n rows) ≡ min n (length (take n rows) + length (drop n rows))
take-drop-length zero rows = omega arith
take-drop-length (suc n) [] = omega arith
take-drop-length (suc n) (row ∷ rows) = omega (arith, take-drop-length n rows)

slice-IsPage {ℓ} :
    {R : Type ℓ} (le : R → R → Bool) (offset limit : ℕ) (all sorted : List R)
    → Perm sorted all
    → IsSortedBy le sorted
    → IsPage le offset limit all (take limit (drop offset sorted))
slice-IsPage le offset limit all sorted arranged in_order =
    let rest = drop offset sorted in
    let page = take limit rest in
    let whole : take offset sorted ++ (page ++ drop limit rest) ≡ sorted =
      ap (λ xs. take offset sorted ++ xs) (take-drop limit rest) ∙ take-drop offset sorted in
    let lengths : length page + length (drop limit rest) ≡ length rest =
      sym (length-append page (drop limit rest)) ∙ ap length (take-drop limit rest) in
    record {
      before = take offset sorted;
      after = drop limit rest;
      arranged = rw whole arranged;
      sorted = rw whole in_order;
      skipped = rw lengths (take-drop-length offset sorted);
      full = take-drop-length limit rest;
    }

module _ {ℓ} {F : Type ℓ} ⦃d : Float F⦄ (order : IsOrdered F) where
  nulls_last_total :
      (asc : Bool) (v w : Option F) → (nulls_last asc v w ≡ true) ⊎ (nulls_last asc w v ≡ true)
  nulls_last_total true (some v) (some w) = numeric_le_total order v w
  nulls_last_total false (some v) (some w) = numeric_le_total order w v
  nulls_last_total asc (some v) none = inl refl
  nulls_last_total asc none (some w) = inr refl
  nulls_last_total asc none none = inl refl

  nulls_last_trans :
      (asc : Bool) (u v w : Option F)
      → nulls_last asc u v ≡ true
      → nulls_last asc v w ≡ true
      → nulls_last asc u w ≡ true
  nulls_last_trans true (some u) (some v) (some w) h k = numeric_le_trans order u v w h k
  nulls_last_trans false (some u) (some v) (some w) h k = numeric_le_trans order w v u k h
  nulls_last_trans asc (some u) v none h k = refl
  nulls_last_trans asc (some u) none (some w) h k = cc
  nulls_last_trans asc none (some v) w h k = cc
  nulls_last_trans asc none none w h k = k

  module _ (collate : String → String → Bool) (collation : IsCollation collate) where
    precedes_total :
        (key : SortKey) (asc : Bool) (a b : Joined F)
        → (precedes collate key asc a b ≡ true) ⊎ (precedes collate key asc b a ≡ true)
    precedes_total by_coin true a b = collation.total a.coin b.coin
    precedes_total by_coin false a b = collation.total b.coin a.coin
    precedes_total by_price asc a b = nulls_last_total asc _ _
    precedes_total by_volume asc a b = nulls_last_total asc _ _
    precedes_total by_research_score asc a b = nulls_last_total asc _ _
    precedes_total by_funding asc a b = nulls_last_total asc _ _
    precedes_total by_adx asc a b = nulls_last_total asc _ _

    precedes_trans :
        (key : SortKey) (asc : Bool) (a b c : Joined F)
        → precedes collate key asc a b ≡ true
        → precedes collate key asc b c ≡ true
        → precedes collate key asc a c ≡ true
    precedes_trans by_coin true a b c h k = collation.trans a.coin b.coin c.coin h k
    precedes_trans by_coin false a b c h k = collation.trans c.coin b.coin a.coin k h
    precedes_trans by_price asc a b c h k = nulls_last_trans asc _ _ _ h k
    precedes_trans by_volume asc a b c h k = nulls_last_trans asc _ _ _ h k
    precedes_trans by_research_score asc a b c h k = nulls_last_trans asc _ _ _ h k
    precedes_trans by_funding asc a b c h k = nulls_last_trans asc _ _ _ h k
    precedes_trans by_adx asc a b c h k = nulls_last_trans asc _ _ _ h k

  -- A list of markets is a page of the markets that meet the filters: of some arrangement of them that is sorted by
  -- the key and in the direction that the client asks for, missing values last, it is what stands behind `offset`
  -- rows, up to the limit, with each market as often as the tables have it. The collation is a total order, and
  -- no statement fails.
  pub list_markets-IsPage :
      (collate : String → String → Bool)
      → IsCollation collate
      → (equal_fold : String → String → Bool) (flag_errors : String → Option String)
        (q : MarketQuery F) (db : Database F) (offset : ℕ)
      → q.offset ≡ pos offset
      → (page : List (Joined F)) × (list_markets collate equal_fold flag_errors none q db
          ≡ (map (market_row flag_errors db) page, none))
        × IsPage
            (precedes collate (sort_key q.sort) (equal_fold q.direction "asc"))
            offset
            (page_limit q.limit)
            (rows_where (passes q) (map (join_market db) db.markets))
            page
  unfolding list_markets matching
  list_markets-IsPage collate collation equal_fold flag_errors q db offset from =
      let key = sort_key q.sort in
      let asc = equal_fold q.direction "asc" in
      let le = precedes collate key asc in
      let wanted = rows_where (passes q) (map (join_market db) db.markets) in
      let sorted =
        sort_by-IsSortedBy le (precedes_total collate collation key asc)
          (precedes_trans collate collation key asc) wanted in
      (
        take (page_limit q.limit) (drop offset (sort_by le wanted)),
        rw from refl,
        slice-IsPage le offset (page_limit q.limit) wanted (sort_by le wanted)
            (sort_by-perm le wanted) sorted,
      )
