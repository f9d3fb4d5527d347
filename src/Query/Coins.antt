-- ===== src/Query/Coins.antt =====
-- `ActiveCoins` and `ShortlistCoins` of backend/internal/store/query.go: the coins that the jobs work on.
--
-- PostgreSQL compares numbers as `numeric_le` does, with NaN above the others, and texts by the collation of
-- the database, which is the parameter `collate`. A missing value is 0.
use Prim.Native.Nat.{min}
use mathlib.Core.Path.{subst}
use mathlib.Core.List.{Perm}
use maelstromhub.Prelude.{
  ℕ, ◌≡◌, sym, Bool, true, not, ◌&&◌, ◌||◌, Option, none, some, List, ◌++◌, String, map, take, drop,
  length, if◌then◌else◌, arith, ◌⊎◌, ap, ◌∙◌,
}
use maelstromhub.Prelude.Int.{ℤ, pos, leb_ℤ, pos_part}
use maelstromhub.Prelude.Sort.{
  sort_by, sort_by-perm, sort_by-IsSortedBy, take-drop, length-take, length-sort_by, IsSortedBy,
}
use maelstromhub.Float.{Float, num}
use maelstromhub.Float.Laws.{IsOrdered}
use maelstromhub.Models.{Market, MarketSnapshot, Feature}
use maelstromhub.Store.{Database}
use maelstromhub.Query.Rows.{rows_where, rows_or, newest_snapshot, newest_feature}

-- What a collation does: it is a total order.
pub record IsCollation (collate : String → String → Bool) : Type 0 where
  pub total : (s t : String) → (collate s t ≡ true) ⊎ (collate t s ≡ true)
  pub trans : (s t u : String) → collate s t ≡ true → collate t u ≡ true → collate s u ≡ true

-- the limit of `ShortlistCoins`
abbrev pub shortlist_limit : ℤ → ℕ
shortlist_limit limit = if leb_ℤ limit (pos 0) then 20 else pos_part limit

abbrev pub is_active : Market → Bool
is_active m = m.is_active

abbrev pub coin_of : Market → String
coin_of m = m.coin

-- `WHERE m.is_active`
unfoldable pub listed {ℓ} : {F : Type ℓ} → Database F → List String
listed db = map coin_of (rows_where is_active db.markets)

module _ {ℓ} {F : Type ℓ} ⦃d : Float F⦄ where
  unfoldable pub numeric_le : F → F → Bool
  numeric_le x y = d.le x y || not (d.le y y)

  -- `coalesce(l.day_ntl_vlm, 0)`
  unfoldable pub volume_of : Option (MarketSnapshot F) → F
  volume_of none = num 0
  volume_of (some s) = s.day_ntl_vlm

  -- `coalesce(f.research_score, 0)`
  unfoldable pub score_of : Option (Feature F) → F
  score_of none = num 0
  score_of (some f) = f.research_score

  abbrev pub volume_in : Database F → String → F
  volume_in db coin = volume_of (newest_snapshot coin db)

  abbrev pub score_in : Database F → String → F
  score_in db coin = score_of (newest_feature coin db)

module _ {ℓ} {F : Type ℓ} ⦃d : Float F⦄ (collate : String → String → Bool) where
  -- `ORDER BY value DESC, coin`
  abbrev pub ranks : (String → F) → String → String → Bool
  ranks value a b =
      numeric_le (value b) (value a) && (not (numeric_le (value a) (value b)) || collate a b)

  unfoldable pub active_coins : Option String → Database F → List String × Option String
  active_coins err db = rows_or err (sort_by (ranks (volume_in db)) (listed db))

  unfoldable pub shortlist_coins : Option String → ℤ → Database F → List String × Option String
  shortlist_coins err limit db =
      rows_or err (take (shortlist_limit limit) (sort_by (ranks (score_in db)) (listed db)))

module _ {ℓ} {F : Type ℓ} ⦃d : Float F⦄ (order : IsOrdered F) where
  open order use {refl_of_le, le_trans, le_total}

  pub numeric_le_total : (x y : F) → (numeric_le x y ≡ true) ⊎ (numeric_le y x ≡ true)
  unfolding numeric_le
  numeric_le_total x y = ground (arith, le_total x y)

  pub numeric_le_trans :
      (x y z : F) → numeric_le x y ≡ true → numeric_le y z ≡ true → numeric_le x z ≡ true
  unfolding numeric_le
  numeric_le_trans x y z h k = ground (arith, le_trans x y z, refl_of_le y z, refl_of_le x y)

  module _ (collate : String → String → Bool) (collation : IsCollation collate)
      (value : String → F) where
    ranks_total :
        (a b : String) → (ranks collate value a b ≡ true) ⊎ (ranks collate value b a ≡ true)
    ranks_total a b =
        let best = numeric_le_total (value a) (value b) in
        let first = collation.total a b in ground (arith, best, first)

    ranks_trans :
        (a b c : String)
        → ranks collate value a b ≡ true
        → ranks collate value b c ≡ true
        → ranks collate value a c ≡ true
    ranks_trans a b c h k =
        let down = numeric_le_trans (value c) (value b) (value a) in
        let up = numeric_le_trans (value a) (value c) (value b) in
        let up' = numeric_le_trans (value b) (value a) (value c) in
        let text = collation.trans a b c in ground (arith, down, up, up', text)

  -- Where its query succeeds, `ShortlistCoins` gives the best of the active coins, best first: it gives as many as
  -- its limit, or all where there are fewer. Its coins and then some others are the active coins, each as often
  -- as it is listed, in the descending order of their research scores, and of their names where scores are
  -- equal. The collation is a total order.
  pub shortlist_coins-best :
      (collate : String → String → Bool)
      → IsCollation collate
      → (limit : ℤ) (db : Database F)
      → let chosen = (shortlist_coins collate none limit db).0 in
        (length chosen ≡ min (shortlist_limit limit) (length (listed db)))
        × (rest : List String) × Perm (chosen ++ rest) (listed db)
        × IsSortedBy (ranks collate (score_in db)) (chosen ++ rest)
  unfolding shortlist_coins
  shortlist_coins-best collate collation limit db =
      let le = ranks collate (score_in db) in
      let n = shortlist_limit limit in
      let all = sort_by le (listed db) in
      let sorted =
        sort_by-IsSortedBy le (ranks_total collate collation (score_in db))
          (ranks_trans collate collation (score_in db)) (listed db) in
      (
        length-take n all ∙ ap (min n) (length-sort_by le (listed db)),
        drop n all,
        subst (λ xs. Perm xs (listed db)) (sym (take-drop n all)) (sort_by-perm le (listed db)),
        subst (λ xs. IsSortedBy le xs) (sym (take-drop n all)) sorted,
      )
